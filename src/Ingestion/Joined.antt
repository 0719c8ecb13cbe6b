-- ===== src/Ingestion/Joined.antt =====
-- What every payable of a workbook satisfies (packages/ingestion/src/ingestWorkbook.ts).
use pakta.Base.{
  String, true, false, ◌≡◌, refl, sym, ap, subst, ◌∙◌, ◌==◌, eq_iff, Option, none, some, List, [],
  ◌∷◌, All, arith, Bool-cases, inl, inr,
}
use pakta.Base.Int.{ℤ}
use pakta.Base.Map.{lookup, insert, lookup-insert}
use pakta.Canonical.Payable.{CanonicalPayable, PurchaseOrder, Policy, Receipt, Approval}
use pakta.Canonical.Check.{is_payable}
use pakta.Ingestion.{
  Workbook, Joins, RowResult, payable, refused, payable_of, parse_candidate, order_if, with_order,
  check_order, without_order, with_vendor, join, keep_joined, join_row, join_rows, joins_of,
  ingest_loaded_workbook, receipts_of, approvals_of, coerce_receipts, coerce_approvals,
}
use pakta.Workbook.{
  vendors_sheet, po_sheet, VendorRow, PoRow, InvoiceRow, RawRow, Parsed, success, issues, Reader,
  parse_rows, index_from,
}

module _ {A : Type 0} (key : A → String) where
  -- Each row stands under its own key.
  abbrev IsKeyed : List (String × A) → Type 0
  IsKeyed m = (k : String) (a : A) → lookup k m ≡ some a → key a ≡ k

  insert-IsKeyed : (a : A) (m : List (String × A)) → IsKeyed m → IsKeyed (insert (key a) a m)
  insert-IsKeyed a m h k b found =
      ground (arith, lookup-insert (key a) k a m, eq_iff (key a) k, h k b)

  index_from-IsKeyed :
      (xs : List A) (m : List (String × A)) → IsKeyed m → IsKeyed (index_from key m xs)
  unfolding index_from
  index_from-IsKeyed [] m h = h
  index_from-IsKeyed (a ∷ xs) m h =
      index_from-IsKeyed xs (insert (key a) a m) (insert-IsKeyed a m h)

module _ (reader : Reader) (policy : Policy (reader.Num)) (joins : Joins reader) where
  open reader use {Num, Raw, is_nonnegative, is_positive, parse_invoice}

  abbrev pub IsOrder : CanonicalPayable Num → Option PurchaseOrder → Type 0
  IsOrder p none = policy.rules.require_po ≡ false
  IsOrder p (some o) = (o.vendor_id ≡ p.invoice.vendor_id) × (p.invoice.po_id ≡ some o.po_id)

  pub record IsJoined (p : CanonicalPayable Num) : Type 0 where
    pub vendor : p.vendor.vendor_id ≡ p.invoice.vendor_id
    pub order : IsOrder p p.purchase_order
    pub policy_version : p.policy_version ≡ policy.policy_version
    pub valid : is_payable is_nonnegative is_positive p ≡ true

  -- What the order must be for an invoice.
  abbrev IsOrderRow : InvoiceRow → Option PoRow → Type 0
  IsOrderRow i none = policy.rules.require_po ≡ false
  IsOrderRow i (some o) = (o.vendor_id ≡ i.vendor_id) × (i.po_id ≡ some o.po_id)

  parse_candidate-IsJoined :
      (i : InvoiceRow) (v : VendorRow) (o : Option PoRow) (due at : Option ℤ)
      (rs : Option (List (Receipt Num))) (ok_approvals : Option (List Approval))
      (p : CanonicalPayable Num)
      → v.vendor_id ≡ i.vendor_id
      → IsOrderRow i o
      → parse_candidate reader policy joins i v
          (order_if reader policy joins o)
          due
          at
          rs
          ok_approvals
        ≡ payable p
      → IsJoined p
  parse_candidate-IsJoined i v o (some due) (some at) (some rs) (some ok_approvals) p hv ho h =
      let built =
        payable_of reader policy joins i v (order_if reader policy joins o) due at rs
          ok_approvals in
      elim (Bool-cases (is_payable is_nonnegative is_positive built)) [
        | inr bad ↦ cc (h, bad)
        | inl good ↦
            let same : built ≡ p = ground arith in
            subst IsJoined same
              (record { vendor = hv; order = by_order o ho; policy_version = refl; valid = good })
      ]
    where
      by_order :
          (o' : Option PoRow)
          → IsOrderRow i o'
          → IsOrder
              (payable_of reader policy joins i v
                (order_if reader policy joins o')
                due
                at
                rs
                ok_approvals)
              (order_if reader policy joins o')
      by_order none e = e
      by_order (some q) e = e
  parse_candidate-IsJoined i v o none at rs ok_approvals p hv ho h = cc
  parse_candidate-IsJoined i v o (some due) none rs ok_approvals p hv ho h = cc
  parse_candidate-IsJoined i v o (some due) (some at) none ok_approvals p hv ho h = cc
  parse_candidate-IsJoined i v o (some due) (some at) (some rs) none p hv ho h = cc

  module _
      (vendors_keyed : (k : String) (v : VendorRow)
        → lookup k joins.vendors_by_id ≡ some v
        → v.vendor_id ≡ k)
      (pos_keyed : (k : String) (o : PoRow) → lookup k joins.pos_by_id ≡ some o → o.po_id ≡ k)
      (i : InvoiceRow) (p : CanonicalPayable Num) where
    with_order-IsJoined :
        (v : VendorRow) (o : Option PoRow)
        → v.vendor_id ≡ i.vendor_id
        → IsOrderRow i o
        → with_order reader policy joins i v o ≡ payable p
        → IsJoined p
    with_order-IsJoined v o hv ho h =
        parse_candidate-IsJoined i v o i.due_date v.wallet_created_at
          (coerce_receipts reader (receipts_of reader policy joins o))
          (coerce_approvals reader (approvals_of reader policy joins i o)) p hv ho h

    without_order-IsJoined :
        (v : VendorRow)
        → v.vendor_id ≡ i.vendor_id
        → without_order reader policy joins i v ≡ payable p
        → IsJoined p
    without_order-IsJoined v hv h = elim (Bool-cases policy.rules.require_po) [
      | inl needed ↦ cc (h, needed)
      | inr optional ↦ with_order-IsJoined v none hv optional (ground arith)
    ]

    check_order-IsJoined :
        (v : VendorRow) (id : String) (o : Option PoRow)
        → v.vendor_id ≡ i.vendor_id
        → i.po_id ≡ some id
        → lookup id joins.pos_by_id ≡ o
        → check_order reader policy joins i v o ≡ payable p
        → IsJoined p
    check_order-IsJoined v id none hv hi e h = cc
    check_order-IsJoined v id (some o) hv hi e h = elim (Bool-cases (o.vendor_id == i.vendor_id)) [
      | inl same ↦
          with_order-IsJoined v (some o) hv
            (
              (eq_iff o.vendor_id i.vendor_id).0 same,
              hi ∙ ap (λ k. some k) (sym (pos_keyed id o e)),
            )
            (ground arith)
      | inr other ↦ cc (h, other)
    ]

    with_vendor-IsJoined :
        (id : Option String) (v : Option VendorRow)
        → i.po_id ≡ id
        → lookup i.vendor_id joins.vendors_by_id ≡ v
        → with_vendor reader policy joins i id v ≡ payable p
        → IsJoined p
    with_vendor-IsJoined id none hi e h = cc
    with_vendor-IsJoined none (some v) hi e h =
        without_order-IsJoined v (vendors_keyed i.vendor_id v e) h
    with_vendor-IsJoined (some id) (some v) hi e h = elim (Bool-cases (id == "")) [
      | inl no_id ↦ without_order-IsJoined v (vendors_keyed i.vendor_id v e) (ground arith)
      | inr given ↦
          check_order-IsJoined v id (lookup id joins.pos_by_id) (vendors_keyed i.vendor_id v e) hi
            refl (ground arith)
    ]

  join_rows-IsJoined :
      ((k : String) (v : VendorRow) → lookup k joins.vendors_by_id ≡ some v → v.vendor_id ≡ k)
      → ((k : String) (o : PoRow) → lookup k joins.pos_by_id ≡ some o → o.po_id ≡ k)
      → (rows : List (RawRow Raw)) → All IsJoined (join_rows reader policy joins rows).0
  unfolding join_rows join
  join_rows-IsJoined hv hp [] = tt
  join_rows-IsJoined hv hp (row ∷ rows) =
      by_parse (parse_invoice row.raw) (join_rows-IsJoined hv hp rows)
    where
      by_join :
          (i : InvoiceRow) (o : RowResult reader)
          → with_vendor reader policy joins i i.po_id (lookup i.vendor_id joins.vendors_by_id) ≡ o
          → All IsJoined (join_rows reader policy joins rows).0
          → All IsJoined
              (keep_joined reader policy joins row o (join_rows reader policy joins rows)).0
      by_join i (payable p) e rest = (
        with_vendor-IsJoined hv hp i p i.po_id (lookup i.vendor_id joins.vendors_by_id) refl refl e,
        rest,
      )
      by_join i (refused error) e rest = rest

      by_parse :
          (o : Parsed InvoiceRow)
          → All IsJoined (join_rows reader policy joins rows).0
          → All IsJoined (join_row reader policy joins row o (join_rows reader policy joins rows)).0
      by_parse (issues errors) rest = rest
      by_parse (success i) rest =
          by_join i
            (with_vendor reader policy joins i i.po_id (lookup i.vendor_id joins.vendors_by_id))
            refl rest

module _ (reader : Reader) (book : Workbook reader) (policy : Policy (reader.Num)) where
  open reader use {
    Num, Raw, parse_vendor, parse_po, parse_invoice, parse_receipt, parse_approval, is_nonnegative,
    is_positive,
  }

  keyed_nothing :
      {A : Type 0} (key : A → String) (k : String) (a : A) → lookup k [] ≡ some a → key a ≡ k
  unfolding lookup
  keyed_nothing key k a h = cc

  -- Every payable of a workbook has the vendor that its invoice names, a purchase order of that
  -- vendor and of the id that the invoice names (or none, if the policy does not require one),
  -- the policy's version, and values that the schema accepts.
  pub ingest_loaded_workbook-IsJoined :
      All
        (IsJoined reader policy (joins_of reader book))
        (ingest_loaded_workbook reader book policy).payables
  unfolding ingest_loaded_workbook
  ingest_loaded_workbook-IsJoined =
      join_rows-IsJoined reader policy (joins_of reader book)
        (index_from-IsKeyed (λ v. v.vendor_id)
          (parse_rows vendors_sheet parse_vendor book.vendor_rows).0 []
          (keyed_nothing (λ v. v.vendor_id)))
        (index_from-IsKeyed (λ o. o.po_id) (parse_rows po_sheet parse_po book.po_rows).0 []
          (keyed_nothing (λ o. o.po_id)))
        book.invoice_rows
