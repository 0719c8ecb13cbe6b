-- ===== src/Ingestion/Counts.antt =====
-- Every row of the invoices is accounted for (packages/ingestion/src/ingestWorkbook.ts).
use pakta.Base.{ℕ, suc, ◌+◌, false, ◌≡◌, refl, List, [], ◌∷◌, ◌++◌, length, select, arith}
use pakta.Canonical.Payable.{Policy}
use pakta.Ingestion.{
  Workbook, Joins, RowResult, payable, refused, join, keep_joined, join_row, join_rows, joins_of,
  is_invoice_sheet, ingest_loaded_workbook,
}
use pakta.Workbook.{
  Sheet, vendors_sheet, po_sheet, invoices_sheet, receipts_sheet, approvals_sheet, InvoiceRow,
  RawRow, RejectedRow, Parsed, success, issues, Reader, keep_row, parse_rows,
}

module _ (reader : Reader) (book : Workbook reader) (policy : Policy (reader.Num)) where
  open reader use {Raw, parse_vendor, parse_po, parse_invoice, parse_receipt, parse_approval}

  abbrev count_invoices : List (RejectedRow Raw) → ℕ
  count_invoices rs = length (select (λ r. is_invoice_sheet reader r.sheet) rs)

  count-append :
      (xs ys : List (RejectedRow Raw))
      → count_invoices (xs ++ ys) ≡ count_invoices xs + count_invoices ys
  count-append [] ys = omega arith
  count-append (x ∷ xs) ys = ground (arith, count-append xs ys)

  -- The rejected rows of another sheet are not counted.
  count-other :
      {A : Type 0} (sheet : Sheet) (parse : Raw → Parsed A) (rows : List (RawRow Raw))
      → is_invoice_sheet reader sheet ≡ false
      → count_invoices (parse_rows sheet parse rows).1 ≡ 0
  unfolding parse_rows
  count-other sheet parse [] h = refl
  count-other sheet parse (row ∷ rows) h = by_parse (parse row.raw) (count-other sheet parse rows h)
    where
      by_parse :
          (o : Parsed _)
          → count_invoices (parse_rows sheet parse rows).1 ≡ 0
          → count_invoices (keep_row sheet row o (parse_rows sheet parse rows)).1 ≡ 0
      by_parse (success a) rest = rest
      by_parse (issues errors) rest = rw h rest

  -- Each row is rejected by its schema, joined, or rejected for what it was joined with.
  count-rows :
      (joins : Joins reader) (rows : List (RawRow Raw))
      → length (join_rows reader policy joins rows).0
          + (count_invoices (parse_rows invoices_sheet parse_invoice rows).1
              + count_invoices (join_rows reader policy joins rows).1)
        ≡ length rows
  unfolding parse_rows join_rows
  count-rows joins [] = refl
  count-rows joins (row ∷ rows) = by_parse (parse_invoice row.raw) (count-rows joins rows)
    where
      by_join :
          (i : InvoiceRow) (o : RowResult reader)
          → length (join_rows reader policy joins rows).0
              + (count_invoices (parse_rows invoices_sheet parse_invoice rows).1
                  + count_invoices (join_rows reader policy joins rows).1)
            ≡ length rows
          → length (keep_joined reader policy joins row o (join_rows reader policy joins rows)).0
              + (count_invoices (parse_rows invoices_sheet parse_invoice rows).1
                  + count_invoices
                      (keep_joined reader policy joins row o
                        (join_rows reader policy joins rows)).1)
            ≡ suc (length rows)
      by_join i (payable p) rest = omega (arith, rest)
      by_join i (refused error) rest = omega (arith, rest)

      by_parse :
          (o : Parsed InvoiceRow)
          → length (join_rows reader policy joins rows).0
              + (count_invoices (parse_rows invoices_sheet parse_invoice rows).1
                  + count_invoices (join_rows reader policy joins rows).1)
            ≡ length rows
          → length (join_row reader policy joins row o (join_rows reader policy joins rows)).0
              + (count_invoices
                    (keep_row invoices_sheet row o (parse_rows invoices_sheet parse_invoice rows)).1
                  + count_invoices
                      (join_row reader policy joins row o (join_rows reader policy joins rows)).1)
            ≡ suc (length rows)
      by_parse (issues errors) rest = omega (arith, rest)
      by_parse (success i) rest = by_join i (join reader policy joins i) rest

  count_all :
      length (join_rows reader policy (joins_of reader book) book.invoice_rows).0
        + count_invoices (
            (parse_rows vendors_sheet parse_vendor book.vendor_rows).1
            ++ (parse_rows po_sheet parse_po book.po_rows).1
            ++ (parse_rows invoices_sheet parse_invoice book.invoice_rows).1
            ++ (parse_rows receipts_sheet parse_receipt book.receipt_rows).1
            ++ (parse_rows approvals_sheet parse_approval book.approval_rows).1
            ++ (join_rows reader policy (joins_of reader book) book.invoice_rows).1)
      ≡ length book.invoice_rows
  count_all =
      let of_vendors = (parse_rows vendors_sheet parse_vendor book.vendor_rows).1 in
      let of_orders = (parse_rows po_sheet parse_po book.po_rows).1 in
      let of_invoices = (parse_rows invoices_sheet parse_invoice book.invoice_rows).1 in
      let of_receipts = (parse_rows receipts_sheet parse_receipt book.receipt_rows).1 in
      let of_approvals = (parse_rows approvals_sheet parse_approval book.approval_rows).1 in
      let joined = (join_rows reader policy (joins_of reader book) book.invoice_rows).1 in
      omega (
        arith,
        count-append of_vendors of_orders,
        count-append (of_vendors ++ of_orders) of_invoices,
        count-append (of_vendors ++ of_orders ++ of_invoices) of_receipts,
        count-append (of_vendors ++ of_orders ++ of_invoices ++ of_receipts) of_approvals,
        count-append (of_vendors ++ of_orders ++ of_invoices ++ of_receipts ++ of_approvals) joined,
        count-other vendors_sheet parse_vendor book.vendor_rows refl,
        count-other po_sheet parse_po book.po_rows refl,
        count-other receipts_sheet parse_receipt book.receipt_rows refl,
        count-other approvals_sheet parse_approval book.approval_rows refl,
        count-rows (joins_of reader book) book.invoice_rows,
      )

  -- No row of the invoices is lost or counted twice: those ingested and those rejected add up to
  -- the rows of the sheet, whatever the other sheets hold.
  pub ingest_loaded_workbook-counts :
      let result = ingest_loaded_workbook reader book policy in
      (result.ingested + result.rejected ≡ result.total_invoice_rows)
      × (result.ingested ≡ length result.payables)
  unfolding ingest_loaded_workbook
  ingest_loaded_workbook-counts = (count_all, refl)
