-- ===== src/ProofHash/Jcs/Examples.antt =====
-- One signed proof, its envelope between its own keys.
use pakta.Base.{true, [], ◌∷◌, ◌≡◌, refl}
use pakta.Base.Int.{pos}
use pakta.Base.Outcome.{ok}
use pakta.Base.Pattern.{codes}
use pakta.Base.Show.{show_ℤ, show, digits_of, digits_fuel}
use pakta.ProofHash.Jcs.{
  Members, no_members, member, string, number, whole, boolean, null, array, item, no_items, object,
  serialize, serialize_string, serialize_number, has_lone_surrogate, canonicalize, proof_hash,
}
use pakta.ProofHash.Jcs.Reorder.{
  swapped, stripped, canonicalize-Reordered, proof_hash-strip_envelope,
}

abbrev amount_member : Members → Members
amount_member = member (codes "amount") (string (codes "5000.00"))

abbrev version_member : Members → Members
version_member = member (codes "wallet_attestation_version") (number (whole (pos 12)))

abbrev hash_member : Members → Members
hash_member = member (codes "proof_hash") (string (codes "0a"))

abbrev unsigned_members : Members
unsigned_members = amount_member (version_member no_members)

-- The text of RFC 8785, the keys in order.
writes :
    canonicalize (object (version_member (amount_member no_members)))
    ≡ ok (codes "{\"amount\":\"5000.00\",\"wallet_attestation_version\":12}")
unfolding serialize serialize_string serialize_number has_lone_surrogate show_ℤ show digits_of
    digits_fuel
writes = refl

nested :
    canonicalize
      (array (item null (item (boolean true) (item (string (10 ∷ 34 ∷ 1 ∷ [])) no_items))))
    ≡ ok (codes "[null,true,\"\\n\\\"\\u0001\"]")
unfolding serialize serialize_string has_lone_surrogate
nested = refl

canonicalize-Reordered_example :
    canonicalize (object (amount_member (version_member no_members)))
    ≡ canonicalize (object (version_member (amount_member no_members)))
canonicalize-Reordered_example =
    canonicalize-Reordered (amount_member (version_member no_members))
      (version_member (amount_member no_members))
      (swapped (codes "amount") (codes "wallet_attestation_version") (string (codes "5000.00"))
        (number (whole (pos 12))) no_members (λ h. cc h))

proof_hash-strip_envelope_example :
    proof_hash (λ _. "ff") (stripped (amount_member (hash_member (version_member no_members))))
    ≡ proof_hash (λ _. "ff") unsigned_members
proof_hash-strip_envelope_example =
    proof_hash-strip_envelope (λ _. "ff") (hash_member no_members) unsigned_members
      (amount_member (hash_member (version_member no_members))) (refl, tt) (refl, (refl, tt))
      (swapped (codes "amount") (codes "proof_hash") (string (codes "5000.00"))
        (string (codes "0a")) (version_member no_members) (λ h. cc h))
