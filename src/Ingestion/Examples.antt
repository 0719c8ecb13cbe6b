-- ===== src/Ingestion/Examples.antt =====
-- A workbook of one vendor and three invoices: one joins, one does not parse, one names no vendor.
use pakta.Base.{ℕ, zero, suc, ◌+◌, ◌≡◌, true, false, none, some, [], ◌∷◌, ltb, length, All}
use pakta.Base.Int.{pos}
use pakta.Canonical.Payable.{verified, attested, Policy}
use pakta.Workbook.{VendorRow, InvoiceRow, RawRow, Parsed, success, issues, Reader}
use pakta.Ingestion.{Workbook, joins_of, ingest_loaded_workbook}
use pakta.Ingestion.Joined.{IsJoined, ingest_loaded_workbook-IsJoined}
use pakta.Ingestion.Counts.{ingest_loaded_workbook-counts}

abbrev invoice_row : InvoiceRow
invoice_row = record {
  invoice_id = "INV-1";
  po_id = none;
  vendor_id = "V-1";
  amount = "5000.00";
  due_date = some (pos 1000);
  wallet_address = "GA";
  source_hash = "h";
}

abbrev stray_row : InvoiceRow
stray_row = record invoice_row { vendor_id = "V-9" }

abbrev vendor_row : VendorRow
vendor_row = record {
  vendor_id = "V-1";
  legal_name = "Vendor";
  verification_status = verified;
  wallet_address = "GA";
  wallet_attestation_status = attested;
  wallet_version = 1;
  wallet_created_at = some (pos 0);
}

-- A cell is a number that says which row it stands for.
abbrev parse_cell : ℕ → Parsed InvoiceRow
parse_cell zero = issues ("amount: must resolve to a plain decimal" ∷ [])
parse_cell (suc zero) = success invoice_row
parse_cell (suc (suc n)) = success stray_row

abbrev reader_example : Reader
reader_example = record {
  Num = ℕ;
  Raw = ℕ;
  is_nonnegative = λ _. true;
  is_positive = λ n. ltb 0 n;
  parse_vendor = λ _. success vendor_row;
  parse_po = λ _. issues [];
  parse_invoice = parse_cell;
  parse_receipt = λ _. issues [];
  parse_approval = λ _. issues [];
}

abbrev numbered : ℕ → ℕ → RawRow ℕ
numbered number cell = record { row_number = number; raw = cell }

abbrev book_example : Workbook reader_example
book_example = record {
  vendor_rows = numbered 2 0 ∷ [];
  po_rows = numbered 2 0 ∷ [];
  invoice_rows = numbered 2 1 ∷ numbered 3 0 ∷ numbered 4 2 ∷ [];
  receipt_rows = [];
  approval_rows = [];
}

abbrev policy_example : Policy ℕ
policy_example = record {
  policy_version = "v1";
  rules = record {
    require_po = false;
    require_receipt = true;
    amount_tolerance_pct = 2;
    duplicate_detection = true;
    wallet_change_requires_human = true;
    auto_pay_below = "1000.00";
    second_approval_above = "10000.00";
  };
}

ingest_loaded_workbook-IsJoined_example :
    All
      (IsJoined reader_example policy_example (joins_of reader_example book_example))
      (ingest_loaded_workbook reader_example book_example policy_example).payables
ingest_loaded_workbook-IsJoined_example =
    ingest_loaded_workbook-IsJoined reader_example book_example policy_example

ingest_loaded_workbook-counts_example :
    let result = ingest_loaded_workbook reader_example book_example policy_example in
    (result.ingested + result.rejected ≡ result.total_invoice_rows)
    × (result.ingested ≡ length result.payables)
ingest_loaded_workbook-counts_example =
    ingest_loaded_workbook-counts reader_example book_example policy_example
