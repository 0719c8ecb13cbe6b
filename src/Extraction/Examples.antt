-- ===== src/Extraction/Examples.antt =====
-- A candidate resolved from one extraction, with confidences in percent.
use pakta.Base.{ℕ, String, true, none, some, [], ◌∷◌, ltb}
use pakta.Base.Int.{pos}
use pakta.Canonical.Payable.{CanonicalPayable, Vendor, VendorWallet, verified, attested}
use pakta.Extraction.{Runtime, ExtractedField, InvoiceExtraction, KnownSources}

abbrev percent : Runtime
percent = record {
  Num = ℕ;
  lower = λ s. s;
  below = ltb;
  show_num = λ _. "n";
  default_min_confidence = 70;
  is_nonnegative = λ _. true;
  is_positive = λ n. ltb 0 n;
  coerce_date = λ _. some (pos 1000);
}

abbrev field : String → ExtractedField percent
field value = record { value = value; confidence = 90 }

abbrev extraction_example : InvoiceExtraction percent
extraction_example = record {
  vendor_name = field "acme";
  invoice_id = field "INV-1";
  amount = field "5000.00";
  due_date = field "2026-01-01";
  po_reference = none;
  wallet_address = some (record { value = "guessed"; confidence = 10 });
}

abbrev vendor_example : Vendor
vendor_example = record { vendor_id = "V-1"; legal_name = "acme"; verification_status = verified }

abbrev wallet_example : VendorWallet
wallet_example = record {
  vendor_id = "V-1";
  address = "GA";
  attestation_status = attested;
  version = 1;
  created_at = pos 0;
}

abbrev sources_example : KnownSources percent
sources_example = record {
  vendors = vendor_example ∷ [];
  vendor_wallets = wallet_example ∷ [];
  purchase_orders = [];
  receipts = [];
  approvals = [];
}

abbrev resolved_example : CanonicalPayable ℕ
resolved_example = record {
  payable_id = "PAY-INV-1";
  invoice = record {
    invoice_id = "INV-1";
    po_id = none;
    vendor_id = "V-1";
    amount = "5000.00";
    due_date = pos 1000;
    wallet_address = "GA";
    source_hash = "sha256:ai-extracted-INV-1";
  };
  purchase_order = none;
  vendor = vendor_example;
  vendor_wallet = some wallet_example;
  receipts = [];
  approvals = [];
  policy_version = "v1";
  expires_at = none;
}
