-- ===== src/Wrapper/StrKey/Base32.antt =====
-- The base32 coder and decoder: what one coder writes the other one reads.
use pakta.Base.{
  ℕ, suc, ◌*◌, ◌^◌, true, List, [], ◌∷◌, map, ◌≡◌, refl, sym, ◌∙◌, ap, subst, eqb, arith, length,
  Bool-cases, inl, inr,
}
use pakta.Base.Bytes.{AreBelow, value_in, value_in_unique}
use pakta.Base.Outcome.{ok}
use pakta.Wrapper.StrKey.{char_of, decode_loop, base32_decode, base32_encode}
use pakta.Wrapper.StrKey.Digits.{map-char_of_injective}
use pakta.Wrapper.StrKey.Loops.{Decoded, decode_loop-Decoded, decode_loop-returns}
use pakta.Wrapper.StrKey.Encoding.{Encoded, encode_loop-Encoded}

length-map-char_of : (ds : List ℕ) → length (map char_of ds) ≡ length ds
length-map-char_of [] = refl
length-map-char_of (d ∷ ds) = ap suc (length-map-char_of ds)

base32_decode-length : (text bytes : List ℕ) → base32_decode text ≡ ok bytes → length text ≡ 56
unfolding base32_decode
base32_decode-length text bytes h = elim (Bool-cases (eqb (length text) 56)) [
  | inl same ↦ ground arith
  | inr other ↦ cc (h, other)
]

base32_decode-loop :
    (text bytes : List ℕ) → base32_decode text ≡ ok bytes → decode_loop 0 0 text ≡ ok bytes
unfolding base32_decode
base32_decode-loop text bytes h = elim (Bool-cases (eqb (length text) 56)) [
  | inl same ↦ cc (h, same)
  | inr other ↦ cc (h, other)
]

-- Texts of 56 characters that decode are the texts of their 35 bytes.
pub base32_encode-base32_decode :
    (text bytes : List ℕ)
    → base32_decode text ≡ ok bytes
    → (length bytes ≡ 35) × (AreBelow 256 bytes) × (base32_encode bytes ≡ text)
base32_encode-base32_decode text bytes h =
    let size = base32_decode-length text bytes h in
    let d : Decoded 0 0 text bytes =
      decode_loop-Decoded 0 0 text bytes (omega arith) (base32_decode-loop text bytes h) in
    let digits_size : length d.digits ≡ 56 =
      sym (length-map-char_of d.digits) ∙ sym (ap length d.text) ∙ size in
    let bytes_size : length bytes ≡ 35 = omega (arith, d.count, d.few_left) in
    let whole : 0 ≡ d.left = omega (arith, d.count, d.few_left) in
    let e : Encoded 0 0 bytes (base32_encode bytes) =
      encode_loop-Encoded 0 0 56 bytes (omega arith) d.bytes_below (omega arith) in
    let read : value_in 32 0 d.digits ≡ value_in 256 0 bytes =
      subst (λ b. value_in 32 0 d.digits ≡ value_in 256 0 bytes * 2 ^ b) (sym whole) (d.number 0)
      ∙ omega arith in
    let same : e.digits ≡ d.digits =
      (value_in_unique 32 0 0 e.digits d.digits e.digits_below d.digits_below
        (omega (arith, e.count)) (sym (e.number 0) ∙ sym read)).1 in
    (bytes_size, d.bytes_below, e.text ∙ ap (map char_of) same ∙ sym d.text)

-- 35 bytes are read back from their text.
pub base32_decode-base32_encode :
    (bytes : List ℕ)
    → length bytes ≡ 35
    → AreBelow 256 bytes
    → base32_decode (base32_encode bytes) ≡ ok bytes
unfolding base32_decode
base32_decode-base32_encode bytes size below =
    let e : Encoded 0 0 bytes (base32_encode bytes) =
      encode_loop-Encoded 0 0 56 bytes (omega arith) below (omega arith) in
    let digits_size : length e.digits ≡ 56 = omega (arith, e.count) in
    let text_size : length (base32_encode bytes) ≡ 56 =
      ap length e.text ∙ length-map-char_of e.digits ∙ digits_size in
    let (read, found) =
      decode_loop-returns 0 0 35 e.digits (omega arith) e.digits_below (omega arith) in
    let decoded : decode_loop 0 0 (base32_encode bytes) ≡ ok read =
      ap (decode_loop 0 0) e.text ∙ found in
    let fits : eqb (length (base32_encode bytes)) 56 ≡ true = ground arith in
    let back : base32_decode (base32_encode bytes) ≡ ok read = cc (fits, decoded) in
    let (read_size, read_below, same_text) =
      base32_encode-base32_decode (base32_encode bytes) read back in
    let other : Encoded 0 0 read (base32_encode read) =
      encode_loop-Encoded 0 0 56 read (omega arith) read_below (omega arith) in
    let same_digits : other.digits ≡ e.digits =
      map-char_of_injective other.digits e.digits other.digits_below e.digits_below
        (sym other.text ∙ same_text ∙ e.text) in
    let same : read ≡ bytes =
      (value_in_unique 256 0 0 read bytes read_below below (read_size ∙ sym size)
        (other.number 0 ∙ ap (value_in 32 0) same_digits ∙ sym (e.number 0))).1 in
    back ∙ ap ok same
