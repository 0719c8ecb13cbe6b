-- ===== src/Settlement/Agent/Examples.antt =====
-- One cycle of the agent over the in-memory gate, for one listed payable.
use pakta.Base.{◌≡◌, ◌≤◌, All, subst, refl, none, Option, String, List, [], ◌∷◌}
use pakta.Base.Int.{pos, ◌-ℤ◌}
use pakta.Base.Outcome.{ok}
use pakta.Base.Show.{value_from}
use pakta.Base.Map.{lookup, insert}
use pakta.Base.Pattern.{
  is_hex64, is_account_shape, is_contract_shape, is_proof_amount, is_utc_seconds,
  is_signature_base64,
}
use pakta.Canonical.Proof.{is_proof, is_signed_proof, is_settlement}
use pakta.Wrapper.Amount.{decimal_to_units, decimal_codes_to_units, units_to_decimal}
use pakta.Wrapper.StrKey.{
  decode_str_key, base32_decode, decode_loop, digit_of, check_decoded, crc_loop,
}
use pakta.ProofHash.Digest.{
  registration_preimage, registration_parts, concat_exact, require_non_empty_string, hex_to_bytes,
  i128_big_endian, u64_big_endian, iso_to_unix_seconds,
}
use pakta.Base.Bytes.{big_endian_loop}
use pakta.Settlement.Action.{World, Action, read}
use pakta.Settlement.Store.{
  ProofRecord, get_proof, set_proof_status, upsert_proof, list_open_registrations,
}
use pakta.Settlement.Gate
use pakta.Settlement.Gate.{FakeGate, register_payable, get_payable, get_available, next_tx}
use pakta.Settlement.Adapter.{settle, settle_prepared}
use pakta.Settlement.Registration.{prepare_registration, sign, verify_signed_proof}
use pakta.Settlement.Registration.Fixtures.{
  hex_text, account_text, codecs_example, issuer_example, gate_deployment, unsigned_proof,
  node_crypto, order_context, open_gate,
}
use pakta.Settlement.Agent.{
  AgentOptions, ReadyPayable, Spending, empty_report, run_once, run_candidates, sweep,
  check_candidate,
}
use pakta.Settlement.Agent.Loop.{
  Reachable, Step, initial, start, call_run_once, cycles_of, one_tick,
}
use pakta.Settlement.Agent.Report.{Ends, run_candidates-Ends}
use pakta.Settlement.Agent.Paid.{fake_options, PaysMore, run_once-PaysMore}

abbrev ready_example : ReadyPayable
ready_example = record { proof = unsigned_proof; context = order_context }

abbrev IsReadyExample : ReadyPayable → Type 0
IsReadyExample c = c ≡ ready_example

abbrev read_proof : String → Action FakeGate (Option ProofRecord)
read_proof id = read (λ w. get_proof id w.store)

abbrev options_example : AgentOptions FakeGate
options_example =
    fake_options node_crypto codecs_example (λ _. "01") issuer_example gate_deployment none
      (λ w. (ok (ready_example ∷ []), w)) read_proof

lists_example :
    (w : World FakeGate) (ready : List ReadyPayable)
    → ok (ready_example ∷ []) ≡ ok ready
    → All IsReadyExample ready
lists_example w ready h =
    let same : ready_example ∷ [] ≡ ready = cc h in subst (All IsReadyExample) same (refl, tt)

-- The cycle does pay.
pays_example :
    (run_once options_example open_gate).1.gate.payments
    ≡ record { payable_id_hash = hex_text; recipient = account_text; amount = 50000000000 } ∷ []
unfolding run_once sweep check_candidate list_open_registrations get_available settle
    settle_prepared Gate.settle register_payable get_payable next_tx sign verify_signed_proof
    prepare_registration registration_preimage registration_parts concat_exact
    require_non_empty_string hex_to_bytes i128_big_endian u64_big_endian iso_to_unix_seconds
    big_endian_loop decode_str_key base32_decode decode_loop digit_of check_decoded crc_loop
    is_proof is_signed_proof is_hex64 is_account_shape is_contract_shape is_proof_amount
    is_utc_seconds is_signature_base64 decimal_to_units decimal_codes_to_units value_from
    units_to_decimal lookup insert is_settlement set_proof_status upsert_proof ◌-ℤ◌
pays_example = refl

run_once-PaysMore_example :
    PaysMore codecs_example IsReadyExample open_gate.gate
      (run_once options_example open_gate).1.gate
run_once-PaysMore_example =
    run_once-PaysMore node_crypto codecs_example (λ _. "01") issuer_example gate_deployment
      IsReadyExample none (λ w. (ok (ready_example ∷ []), w)) lists_example (λ _. refl) read_proof
      (λ id w. refl) (λ m h. cc h) open_gate

abbrev beginning : Spending
beginning = record { available = pos 10000000000000; report = empty_report }

run_candidates-Ends_example :
    Ends options_example
      (ready_example ∷ [])
      beginning
      (run_candidates options_example 1767000000 (ready_example ∷ []) beginning open_gate).0
run_candidates-Ends_example =
    run_candidates-Ends options_example 1767000000 (ready_example ∷ []) beginning open_gate

one_tick_example :
    ((call_run_once (start initial)).ticking ≤ 1)
    × ((call_run_once (start initial)).ticking ≡ cycles_of (call_run_once (start initial)).running)
one_tick_example =
    one_tick (call_run_once (start initial))
      (Reachable.goes_on (Reachable.goes_on Reachable.begins Step.starts) Step.calls)
