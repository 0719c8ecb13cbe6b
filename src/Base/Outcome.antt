-- ===== src/Base/Outcome.antt =====
-- Exceptions as values: what a call returns or throws.
use Prim.Native.String.{String}
use mathlib.Core.Path.{◌≡◌, refl}
use mathlib.Core.Logic.{◌⊎◌, inl, inr}
use mathlib.Core.Bool.{Bool, true, false}
use mathlib.Core.Option.{Option}

pub data RefusalReason : Type 0 where
  stale_proof already_closed onchain_mismatch invalid_proof gate_refused : RefusalReason

-- What is thrown: a `GateError` with the contract's error name, a `SettlementRefused`, or any other
-- error.
pub data Failure : Type 0 where
  gate_error : String → Option String → Failure
  refused : String → RefusalReason → Failure
  other : String → Failure

pub data Outcome {ℓ} (A : Type ℓ) : Type ℓ where
  ok : A → Outcome A
  threw : Failure → Outcome A

-- `if (!test) throw e`
abbrev pub require : Bool → Failure → Outcome (Unit {0})
require true e = ok tt
require false e = threw e

module _ {κ} {B : Type κ} where
  -- The rest of the block, unless something was thrown before it.
  abbrev pub and_then {ℓ} : {A : Type ℓ} → (A → Outcome B) → Outcome A → Outcome B
  and_then rest (threw e) = threw e
  and_then rest (ok value) = rest value

  infixl 5 ◌>>=◌ ◌>>◌
  abbrev pub ◌>>=◌ {ℓ} : {A : Type ℓ} → Outcome A → (A → Outcome B) → Outcome B
  before >>= rest = and_then rest before

  abbrev pub ◌>>◌ : Outcome (Unit {0}) → Outcome B → Outcome B
  before >> rest = and_then (λ _. rest) before

pub Outcome-cases {ℓ} :
    {A : Type ℓ} (o : Outcome A) → ((e : Failure) × (o ≡ threw e)) ⊎ ((a : A) × (o ≡ ok a))
Outcome-cases (threw e) = inl (e, refl)
Outcome-cases (ok a) = inr (a, refl)
