-- ===== src/Workbook.antt =====
-- packages/ingestion/src/sheetParsers.ts and the maps of ingestWorkbook.ts: the rows of a workbook's
-- sheets, the valid ones apart from the rejected ones. What exceljs reads from a sheet and the
-- coercions of the row schemas are parameters: a sheet is a list of numbered raw rows, and `parse` is
-- the schema's `safeParse` on one.
use pakta.Base.{ℕ, String, Bool, Option, List, [], ◌∷◌, ◌++◌, get_or}
use pakta.Base.Int.{ℤ}
use pakta.Base.Map.{lookup, insert}
use pakta.Canonical.Payable.{
  VendorVerificationStatus, WalletAttestationStatus, PurchaseOrderStatus, ApprovalObjectType,
}

pub data Sheet : Type 0 where
  vendors_sheet po_sheet invoices_sheet receipts_sheet approvals_sheet : Sheet

-- A date that the canonical schema cannot coerce is none.
pub record VendorRow : Type 0 where
  pub vendor_id : String
  pub legal_name : String
  pub verification_status : VendorVerificationStatus
  pub wallet_address : String
  pub wallet_attestation_status : WalletAttestationStatus
  pub wallet_version : ℕ
  pub wallet_created_at : Option ℤ

pub record PoRow : Type 0 where
  pub po_id : String
  pub vendor_id : String
  pub amount : String
  pub status : PurchaseOrderStatus
  pub approver_id : Option String

pub record InvoiceRow : Type 0 where
  pub invoice_id : String
  pub po_id : Option String
  pub vendor_id : String
  pub amount : String
  pub due_date : Option ℤ
  pub wallet_address : String
  pub source_hash : String

pub record ReceiptRow (Num : Type 0) : Type 0 where
  pub po_id : String
  pub confirmed_qty : Num
  pub invoiced_qty : Option Num
  pub confirmed_by : String
  pub confirmed_at : Option ℤ

pub record ApprovalRow : Type 0 where
  pub object_type : ApprovalObjectType
  pub object_id : String
  pub policy_version : String
  pub approver_id : String
  pub timestamp : Option ℤ

-- A data row of a sheet, by its number; its cells are `Raw`.
pub record RawRow (Raw : Type 0) : Type 0 where
  pub row_number : ℕ
  pub raw : Raw

pub record RejectedRow (Raw : Type 0) : Type 0 where
  pub sheet : Sheet
  pub row_number : ℕ
  pub errors : List String
  pub raw_row : Raw

-- `safeParse`: the value, or the issues.
pub data Parsed (A : Type 0) : Type 0 where
  success : A → Parsed A
  issues : List String → Parsed A

-- What exceljs, the row schemas and `number` provide.
pub record Reader : Type 1 where
  pub Num : Type 0
  pub Raw : Type 0
  pub is_nonnegative : Num → Bool
  pub is_positive : Num → Bool
  pub parse_vendor : Raw → Parsed VendorRow
  pub parse_po : Raw → Parsed PoRow
  pub parse_invoice : Raw → Parsed InvoiceRow
  pub parse_receipt : Raw → Parsed (ReceiptRow Num)
  pub parse_approval : Raw → Parsed ApprovalRow

module _ {Raw A : Type 0} where
  -- `parseRows`: the valid rows and the rejected ones.
  abbrev pub keep_row :
      Sheet
      → RawRow Raw
      → Parsed A
      → List A × List (RejectedRow Raw)
      → List A × List (RejectedRow Raw)
  keep_row sheet row (success a) (valid, rejected) = (a ∷ valid, rejected)
  keep_row sheet row (issues errors) (valid, rejected) = (
    valid,
    record { sheet = sheet; row_number = row.row_number; errors = errors; raw_row = row.raw }
        ∷ rejected,
  )

  unfoldable pub parse_rows :
      Sheet → (Raw → Parsed A) → List (RawRow Raw) → List A × List (RejectedRow Raw)
  parse_rows sheet parse [] = ([], [])
  parse_rows sheet parse (row ∷ rows) =
      keep_row sheet row (parse row.raw) (parse_rows sheet parse rows)

module _ {A : Type 0} (key : A → String) where
  -- `new Map(rows.map((r) => [key(r), r]))`: the last row of a key counts.
  unfoldable pub index_from : List (String × A) → List A → List (String × A)
  index_from m [] = m
  index_from m (a ∷ xs) = index_from (insert (key a) a m) xs

  -- The rows of each key, in their order.
  unfoldable pub group_from : List (String × List A) → List A → List (String × List A)
  group_from m [] = m
  group_from m (a ∷ xs) = group_from (insert (key a) (get_or [] (lookup (key a) m) ++ a ∷ []) m) xs
