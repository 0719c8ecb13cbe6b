-- ===== src/ProofHash/Jcs/Reorder.antt =====
-- The order of an object's keys does not reach its canonical text, nor does the envelope reach the
-- hash of the proof inside it.
use pakta.Base.{
  ℕ, String, Bool, true, false, List, ◌≡◌, ◌≢◌, ◌⊎◌, refl, ◌∙◌, ap, any, Bool-cases, inl, inr,
  sort_by, insert_by, absurd,
}
use pakta.Base.Outcome.{ok, ◌>>=◌}
use pakta.ProofHash.Jcs.{
  JsonValue, Members, no_members, member, object, MemberText, before_member, serialize,
  serialize_members, sorted_text, member_text, is_undefined, canonicalize, strip_envelope,
  signature_envelope_keys, same_text, proof_hash,
}
use pakta.ProofHash.Jcs.Order.{before_text-cases, before_text-between, insert_by-swap}

-- The same members in another order of the keys: neighbours with different keys change places.
pub data Reordered : Members → Members → Type 0 where
  as_it_was : (m : Members) → Reordered m m
  swapped :
      (k l : List ℕ) (v w : JsonValue) (rest : Members)
      → k ≢ l
      → Reordered (member k v (member l w rest)) (member l w (member k v rest))
  further :
      (k : List ℕ) (v : JsonValue) (m n : Members)
      → Reordered m n
      → Reordered (member k v m) (member k v n)
  then_again : (l m n : Members) → Reordered l m → Reordered m n → Reordered l n

one_before :
    (a b : MemberText)
    → a.key ≢ b.key
    → ((before_member a b ≡ true) × (before_member b a ≡ false))
      ⊎ ((before_member a b ≡ false) × (before_member b a ≡ true))
one_before a b apart = elim (before_text-cases a.key b.key) [
  | inl same ↦ absurd (apart same)
  | inr either ↦ either
]

sorted_members : Members → List MemberText
sorted_members m = sort_by before_member (serialize_members m)

sorted-Reordered : (m n : Members) → Reordered m n → sorted_members m ≡ sorted_members n
unfolding sorted_members serialize_members
sorted-Reordered m n (as_it_was _) = refl
sorted-Reordered m n (swapped k l v w rest apart) =
    let first : MemberText = record {
      key = k;
      text = member_text k (is_undefined v) (serialize v);
    } in
    let second : MemberText = record {
      key = l;
      text = member_text l (is_undefined w) (serialize w);
    } in
    insert_by-swap before_member (λ y a b. before_text-between y.key a.key b.key) first second
      (sort_by before_member (serialize_members rest)) (one_before first second apart)
sorted-Reordered m n (further k v before after more) =
    ap
      (insert_by before_member
        (record { key = k; text = member_text k (is_undefined v) (serialize v) }))
      (sorted-Reordered before after more)
sorted-Reordered m n (then_again l middle r first second) =
    sorted-Reordered m middle first ∙ sorted-Reordered middle n second

-- Objects with the same members in another order of their keys have the same canonical text, or
-- are refused alike.
pub canonicalize-Reordered :
    (m n : Members) → Reordered m n → canonicalize (object m) ≡ canonicalize (object n)
unfolding serialize sorted_members
canonicalize-Reordered m n h = ap sorted_text (sorted-Reordered m n h)

-- Whether a key is one of the envelope's.
abbrev pub is_envelope_key : List ℕ → Bool
is_envelope_key key = any (same_text key) signature_envelope_keys

abbrev pub stripped : Members → Members
stripped m = strip_envelope m signature_envelope_keys

strip-Reordered : (m n : Members) → Reordered m n → Reordered (stripped m) (stripped n)
unfolding strip_envelope
strip-Reordered m n (as_it_was _) = as_it_was (stripped m)
strip-Reordered m n (then_again l middle r first second) =
    then_again (stripped l) (stripped middle) (stripped r) (strip-Reordered l middle first)
      (strip-Reordered middle r second)
strip-Reordered m n (further k v before after more) = elim (Bool-cases (is_envelope_key k)) [
  | inl envelope ↦ rw envelope (strip-Reordered before after more)
  | inr kept ↦
      rw kept (further k v (stripped before) (stripped after) (strip-Reordered before after more))
]
strip-Reordered m n (swapped k l v w rest apart) = elim (Bool-cases (is_envelope_key k)) [
  | inl ek ↦ elim (Bool-cases (is_envelope_key l)) [
    | inl el ↦ rw (ek, el) (as_it_was (stripped rest))
    | inr kl ↦ rw (ek, kl) (as_it_was (member l w (stripped rest)))
  ]
  | inr kk ↦ elim (Bool-cases (is_envelope_key l)) [
    | inl el ↦ rw (kk, el) (as_it_was (member k v (stripped rest)))
    | inr kl ↦ rw (kk, kl) (swapped k l v w (stripped rest) apart)
  ]
]

-- Members without a key of the envelope, and members with no other keys.
abbrev pub IsPlain : Members → Type 0
IsPlain no_members = Unit
IsPlain (member k v rest) = (is_envelope_key k ≡ false) × IsPlain rest

abbrev pub IsEnvelope : Members → Type 0
IsEnvelope no_members = Unit
IsEnvelope (member k v rest) = (is_envelope_key k ≡ true) × IsEnvelope rest

abbrev pub with_members : Members → Members → Members
with_members no_members n = n
with_members (member k v rest) n = member k v (with_members rest n)

strip-plain : (p : Members) → IsPlain p → stripped p ≡ p
unfolding strip_envelope
strip-plain no_members h = refl
strip-plain (member k v rest) h = rw h.0 (ap (member k v) (strip-plain rest h.1))

strip-with_members :
    (envelope p : Members)
    → IsEnvelope envelope
    → IsPlain p
    → stripped (with_members envelope p) ≡ p
unfolding strip_envelope
strip-with_members no_members p he hp = strip-plain p hp
strip-with_members (member k v rest) p he hp = rw he.0 (strip-with_members rest p he.1 hp)

-- Wherever the envelope's keys stand among the keys of a signed proof, the hash of what is left
-- without them is the hash of the proof.
pub proof_hash-strip_envelope :
    (sha256_hex : List ℕ → String) (envelope p signed : Members)
    → IsEnvelope envelope
    → IsPlain p
    → Reordered signed (with_members envelope p)
    → proof_hash sha256_hex (stripped signed) ≡ proof_hash sha256_hex p
proof_hash-strip_envelope sha256_hex envelope p signed he hp h =
    let inside =
      canonicalize-Reordered (stripped signed) (stripped (with_members envelope p))
        (strip-Reordered signed (with_members envelope p) h) in
    let same = strip-with_members envelope p he hp in
    ap (λ text. text >>= λ t. ok (sha256_hex t)) (inside ∙ ap (λ m. canonicalize (object m)) same)
