-- ===== src/ProofHash/Digest/Widths.antt =====
-- The parts of the layouts that need the hash: their widths, and what their bytes determine.
use pakta.Base.{ℕ, String, List, [], ◌≡◌, sym, ◌∙◌, ap, length}
use pakta.Base.Bytes.{length-big_endian_loop}
use pakta.Base.Outcome.{ok}
use pakta.Base.Pattern.{codes, codes_injective}
use pakta.Wrapper.StrKey.{
  account_id_version, contract_version, decode_account_id, decode_contract_id,
}
use pakta.Wrapper.StrKey.RoundTrip.{encode_str_key-decode_str_key}
use pakta.ProofHash.Digest.{
  Hashing, Whole, hex_to_bytes, i128_big_endian, u64_big_endian, text_part, contract_part,
  account_part, hex_part,
}
use pakta.ProofHash.Digest.Fields.{
  require_non_empty-ok, i128_big_endian-IsI128, u64_big_endian-IsU64, hex_to_bytes-length,
  hex_to_bytes_unique, decode_str_key_unique,
}

module _ (hashing : Hashing)
    (sha256_size : (bytes : List ℕ) → length (hashing.sha256 bytes) ≡ 32) where
  pub fixed-width : (fixed bytes : List ℕ) → ok fixed ≡ ok bytes → length bytes ≡ length fixed
  fixed-width fixed bytes h = let same : bytes ≡ fixed = cc h in ap length same

  pub text-width :
      (value : String) (bytes : List ℕ) → text_part hashing value ≡ ok bytes → length bytes ≡ 32
  text-width value bytes h =
      let same : hashing.sha256 (hashing.utf8 value) ≡ bytes =
        cc (require_non_empty-ok value (λ v. ok (hashing.sha256 (hashing.utf8 v))) bytes h) in
      ap length (sym same) ∙ sha256_size (hashing.utf8 value)

  pub text-same :
      (a b : String) (bytes : List ℕ)
      → text_part hashing a ≡ ok bytes
      → text_part hashing b ≡ ok bytes
      → hashing.sha256 (hashing.utf8 a) ≡ hashing.sha256 (hashing.utf8 b)
  text-same a b bytes ha hb = cc (
    require_non_empty-ok a (λ v. ok (hashing.sha256 (hashing.utf8 v))) bytes ha,
    require_non_empty-ok b (λ v. ok (hashing.sha256 (hashing.utf8 v))) bytes hb,
  )

  pub contract-width :
      (value : String) (bytes : List ℕ) → contract_part hashing value ≡ ok bytes → length bytes ≡ 32
  contract-width value bytes h =
      (encode_str_key-decode_str_key contract_version (codes value) bytes
        (require_non_empty-ok value (λ v. decode_contract_id (codes v)) bytes h)).0

  pub contract-same :
      (a b : String) (bytes : List ℕ)
      → contract_part hashing a ≡ ok bytes
      → contract_part hashing b ≡ ok bytes
      → a ≡ b
  contract-same a b bytes ha hb = codes_injective a b (
      decode_str_key_unique contract_version (codes a) (codes b) bytes
        (require_non_empty-ok a (λ v. decode_contract_id (codes v)) bytes ha)
        (require_non_empty-ok b (λ v. decode_contract_id (codes v)) bytes hb))

  pub account-width :
      (value : String) (bytes : List ℕ) → account_part hashing value ≡ ok bytes → length bytes ≡ 32
  account-width value bytes h =
      (encode_str_key-decode_str_key account_id_version (codes value) bytes
        (require_non_empty-ok value (λ v. decode_account_id (codes v)) bytes h)).0

  pub account-same :
      (a b : String) (bytes : List ℕ)
      → account_part hashing a ≡ ok bytes
      → account_part hashing b ≡ ok bytes
      → a ≡ b
  account-same a b bytes ha hb = codes_injective a b (
      decode_str_key_unique account_id_version (codes a) (codes b) bytes
        (require_non_empty-ok a (λ v. decode_account_id (codes v)) bytes ha)
        (require_non_empty-ok b (λ v. decode_account_id (codes v)) bytes hb))

  pub hash-width :
      (value : String) (bytes : List ℕ) → hex_part hashing value ≡ ok bytes → length bytes ≡ 32
  hash-width value bytes h =
      hex_to_bytes-length value bytes (require_non_empty-ok value hex_to_bytes bytes h)

  pub hash-same :
      (a b : String) (bytes : List ℕ)
      → hex_part hashing a ≡ ok bytes
      → hex_part hashing b ≡ ok bytes
      → a ≡ b
  hash-same a b bytes ha hb =
      hex_to_bytes_unique a b bytes (require_non_empty-ok a hex_to_bytes bytes ha)
        (require_non_empty-ok b hex_to_bytes bytes hb)

  pub i128-width : (z : _) (bytes : List ℕ) → i128_big_endian z ≡ ok bytes → length bytes ≡ 16
  i128-width z bytes h =
      let i = i128_big_endian-IsI128 z bytes h in
      ap length i.layout ∙ length-big_endian_loop 16 i.units []

  pub u64-width : (w : Whole) (bytes : List ℕ) → u64_big_endian w ≡ ok bytes → length bytes ≡ 8
  u64-width w bytes h =
      let i = u64_big_endian-IsU64 w bytes h in
      ap length i.layout ∙ length-big_endian_loop 8 i.count []
