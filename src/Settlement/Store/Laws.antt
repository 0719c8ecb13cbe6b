-- ===== src/Settlement/Store/Laws.antt =====
-- What each write of the store changes, and what it leaves alone.
use pakta.Base.{String, ◌≡◌, true, Option, arith, eq_refl}
use pakta.Base.Map.{has, lookup-insert}
use pakta.Settlement.Store.{
  Store, ProofStatus, SettlementRecord, set_proof_status, record_settlement,
  add_settled_fingerprint,
}

pub set_proof_status-settlements :
    (id : String) (status : ProofStatus) (tx : Option String) (s : Store)
    → (set_proof_status id status tx s).settlements ≡ s.settlements
unfolding set_proof_status
set_proof_status-settlements id status tx s = ground arith

pub add_settled_fingerprint-settlements :
    (fingerprint note : String) (s : Store)
    → (add_settled_fingerprint fingerprint note s).settlements ≡ s.settlements
unfolding add_settled_fingerprint
add_settled_fingerprint-settlements fingerprint note s = ground arith

-- Once recorded, a payable has a settlement.
pub has-record_settlement :
    (r : SettlementRecord) (s : Store) → has r.payable_id (record_settlement r s).settlements ≡ true
unfolding record_settlement
has-record_settlement r s =
    ground (arith, lookup-insert r.payable_id r.payable_id r s.settlements, eq_refl r.payable_id)

pub has-add_settled_fingerprint :
    (fingerprint note : String) (s : Store)
    → has fingerprint (add_settled_fingerprint fingerprint note s).settled_fingerprints ≡ true
unfolding add_settled_fingerprint
has-add_settled_fingerprint fingerprint note s =
    ground (
      arith,
      lookup-insert fingerprint fingerprint note s.settled_fingerprints,
      eq_refl fingerprint,
    )
