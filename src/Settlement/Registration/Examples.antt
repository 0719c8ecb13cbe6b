-- ===== src/Settlement/Registration/Examples.antt =====
-- An envelope that one issuer signs.
use pakta.ProofHash.Digest.{
  registration_preimage, registration_parts, concat_exact, require_non_empty_string, hex_to_bytes,
  i128_big_endian, u64_big_endian, iso_to_unix_seconds,
}
use pakta.Base.Bytes.{big_endian_loop}
use pakta.Wrapper.StrKey.{
  decode_account_id, decode_str_key, base32_decode, decode_loop, digit_of, check_decoded, crc_loop,
}
use pakta.Base.{ℕ, ◌≡◌, refl, some, [], ◌∷◌}
use pakta.Base.Outcome.{ok}
use pakta.Base.Pattern.{
  codes, is_hex64, is_account_shape, is_contract_shape, is_proof_amount, is_utc_seconds,
  is_signature_base64,
}
use pakta.Base.Show.{value_from}
use pakta.Canonical.Proof.{is_proof, is_signed_proof}
use pakta.Wrapper.Amount.{decimal_to_units, decimal_codes_to_units}
use pakta.Settlement.Chain.{PreparedRegistration}
use pakta.Base.Map.{lookup, insert}
use pakta.Canonical.Proof.{Settlement, is_settlement, ErpPostingStatus}
use pakta.Wrapper.Amount.{units_to_decimal}
use pakta.Settlement.Store.{set_proof_status, upsert_proof}
use pakta.Settlement.Gate
use pakta.Settlement.Gate.{
  NodeCrypto, FakeGate, fake_client, register_payable, get_payable, next_tx,
}
use pakta.Settlement.Adapter.{ProofVerifier, settled, settle, settle_prepared}
use pakta.Settlement.Adapter.Authorized.{verifier_of, settle-Binds}
use pakta.Settlement.Registration.{prepare_registration, sign, verify_signed_proof}
use pakta.Settlement.Registration.Envelope.{
  Binds, verify_signed_proof-Binds, sign-verify_signed_proof,
}
use pakta.Settlement.Registration.Fixtures.{
  hex_text, account_text, contract_text, zero_bytes, codecs_example, issuer_example,
  gate_deployment, unsigned_proof, registration_example, envelope_example, node_crypto,
  order_context, open_gate,
}

signs_example :
    sign codecs_example unsigned_proof gate_deployment issuer_example
    ≡ ok (envelope_example, registration_example)
unfolding sign prepare_registration registration_preimage registration_parts concat_exact
    require_non_empty_string hex_to_bytes i128_big_endian u64_big_endian iso_to_unix_seconds
    big_endian_loop decode_str_key base32_decode decode_loop digit_of check_decoded crc_loop
    is_proof is_signed_proof is_hex64 is_account_shape is_contract_shape is_proof_amount
    is_utc_seconds is_signature_base64 decimal_to_units decimal_codes_to_units value_from
signs_example = refl

issuer_account : decode_account_id (codes account_text) ≡ ok zero_bytes
unfolding decode_str_key base32_decode decode_loop digit_of check_decoded crc_loop
issuer_account = refl

sign-verify_signed_proof_example :
    verify_signed_proof codecs_example envelope_example gate_deployment ≡ ok registration_example
sign-verify_signed_proof_example =
    sign-verify_signed_proof codecs_example issuer_example zero_bytes issuer_account (λ _. refl)
      (λ _. refl) unsigned_proof gate_deployment envelope_example registration_example signs_example

verifies_example :
    verify_signed_proof codecs_example envelope_example gate_deployment ≡ ok registration_example
unfolding verify_signed_proof prepare_registration registration_preimage registration_parts
    concat_exact require_non_empty_string hex_to_bytes i128_big_endian u64_big_endian
    iso_to_unix_seconds big_endian_loop decode_str_key base32_decode decode_loop digit_of
    check_decoded crc_loop is_proof is_hex64 is_account_shape is_proof_amount is_utc_seconds
    decimal_to_units decimal_codes_to_units value_from
verifies_example = refl

verify_signed_proof-Binds_example :
    Binds codecs_example envelope_example gate_deployment registration_example
verify_signed_proof-Binds_example =
    verify_signed_proof-Binds codecs_example envelope_example gate_deployment registration_example
      verifies_example

abbrev verifier_here : ProofVerifier
verifier_here = verifier_of codecs_example (λ _. "01")

abbrev settled_here : Settlement
settled_here = record {
  payable_id = "PAY-1";
  invoice_id = "INV-1";
  po_id = "PO-1";
  proof_hash = hex_text;
  contract_id = contract_text;
  asset = "USDC";
  amount = "5000.00";
  tx_hash = hex_text;
  ledger = 1002;
  erp_posting_status = ErpPostingStatus.pending;
}

settles_example :
    (settle
      (fake_client node_crypto)
      verifier_here
      gate_deployment
      envelope_example
      order_context
      open_gate).0
    ≡ ok (
        settled settled_here
          (some (record { tx_hash = hex_text; ledger = 1001 }))
          (record { tx_hash = hex_text; ledger = 1002 }))
unfolding settle settle_prepared Gate.settle register_payable get_payable next_tx
    verify_signed_proof prepare_registration registration_preimage registration_parts concat_exact
    require_non_empty_string hex_to_bytes i128_big_endian u64_big_endian iso_to_unix_seconds
    big_endian_loop decode_str_key base32_decode decode_loop digit_of check_decoded crc_loop
    is_proof is_hex64 is_account_shape is_contract_shape is_proof_amount is_utc_seconds
    decimal_to_units decimal_codes_to_units value_from units_to_decimal lookup insert is_settlement
    set_proof_status upsert_proof
settles_example = refl

settle-Binds_example :
    (r : PreparedRegistration) × Binds codecs_example envelope_example gate_deployment r
    × ((units : ℕ) × (decimal_to_units "5000.00" ≡ ok units)
        × ((settle
              (fake_client node_crypto)
              verifier_here
              gate_deployment
              envelope_example
              order_context
              open_gate).1.gate.payments
            ≡ record { payable_id_hash = hex_text; recipient = account_text; amount = units } ∷ []))
settle-Binds_example =
    settle-Binds codecs_example (λ _. "01") node_crypto gate_deployment envelope_example
      order_context open_gate settled_here (some (record { tx_hash = hex_text; ledger = 1001 }))
      (record { tx_hash = hex_text; ledger = 1002 }) settles_example
