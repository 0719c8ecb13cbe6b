-- ===== src/Wrapper/StrKey/Encoding.antt =====
-- The loops of the base32 encoder: the digits that it writes say what the bytes say.
use pakta.Base.{
  ℕ, ◌+◌, ◌-◌, ◌*◌, ◌/◌, ◌%◌, ◌^◌, ◌<◌, ◌≤◌, List, [], ◌∷◌, map, ◌≡◌, refl, ◌∙◌, ap, subst, leb,
  arith, length, absurd, Bool-cases, inl, inr, true,
}
use pakta.Base.Bytes.{AreBelow, value_in}
use pakta.Wrapper.StrKey.{char_of, encode_loop}
use pakta.Wrapper.StrKey.Loops.{with_bits, below_5}

abbrev add_byte : ℕ → ℕ → ℕ
add_byte value byte = (value * 2 ^ 8 + byte) % 2 ^ 32

-- The digit at the top of `bits` bits.
abbrev top_digit : ℕ → ℕ → ℕ
top_digit bits value = value / 2 ^ (bits - 5) % 32

abbrev OneDigit : ℕ → Type 0
OneDigit b =
    (n value byte : ℕ)
    → byte < 256
    → b < 2
    → with_bits n b value * 256 + byte
      ≡ with_bits (n * 32 + top_digit (b + 8) (add_byte value byte)) (b + 8 - 5)
          (add_byte value byte)

one_digit : (b : ℕ) → b < 5 → OneDigit b
one_digit =
    below_5 OneDigit (λ n value byte h hb. omega arith) (λ n value byte h hb. omega arith)
      (λ n value byte h hb. absurd (omega arith)) (λ n value byte h hb. absurd (omega arith))
      (λ n value byte h hb. absurd (omega arith))

abbrev TwoDigits : ℕ → Type 0
TwoDigits b =
    (n value byte : ℕ)
    → byte < 256
    → 2 ≤ b
    → with_bits n b value * 256 + byte
      ≡ with_bits
          ((n * 32 + top_digit (b + 8) (add_byte value byte)) * 32
            + top_digit (b + 8 - 5) (add_byte value byte))
          (b + 8 - 5 - 5) (add_byte value byte)

two_digits : (b : ℕ) → b < 5 → TwoDigits b
two_digits =
    below_5 TwoDigits (λ n value byte h hb. absurd (omega arith))
      (λ n value byte h hb. absurd (omega arith)) (λ n value byte h hb. omega arith)
      (λ n value byte h hb. omega arith) (λ n value byte h hb. omega arith)

-- A text that the loop writes, from its state: its digits, and what they say.
pub record Encoded (bits value : ℕ) (bytes chars : List ℕ) : Type 0 where
  pub digits : List ℕ
  pub text : chars ≡ map char_of digits
  pub digits_below : AreBelow 32 digits
  pub count : 8 * length bytes + bits ≡ 5 * length digits
  pub number : (n : ℕ) → value_in 256 (with_bits n bits value) bytes ≡ value_in 32 n digits

-- Bytes that fill whole digits are written as digits that say the same.
pub encode_loop-Encoded :
    (bits value k : ℕ) (bytes : List ℕ)
    → bits < 5
    → AreBelow 256 bytes
    → 8 * length bytes + bits ≡ 5 * k
    → Encoded bits value bytes (encode_loop bits value bytes)
unfolding encode_loop
encode_loop-Encoded bits value k [] hb hd hk =
    let same : 0 ≡ bits = omega arith in
    subst (λ b. Encoded b value [] (encode_loop b value [])) same
      (record {
        digits = [];
        text = refl;
        digits_below = tt;
        count = refl;
        number = λ n. omega arith;
      })
encode_loop-Encoded bits value k (byte ∷ bytes) hb hd hk =
    let first : leb 5 (bits + 8) ≡ true = ground arith in
    elim (Bool-cases (leb 5 (bits + 8 - 5))) [
      | inr once ↦
          let later : Encoded (bits + 8 - 5) (add_byte value byte) bytes
              (encode_loop (bits + 8 - 5) (add_byte value byte) bytes) =
            encode_loop-Encoded (bits + 8 - 5) (add_byte value byte) (k - 1) bytes (ground arith)
              hd.1 (omega arith) in
          record {
            digits = top_digit (bits + 8) (add_byte value byte) ∷ later.digits;
            text = cc (first, once, later.text);
            digits_below = (omega arith, later.digits_below);
            count = omega (arith, later.count);
            number = λ n.
                ap (λ z. value_in 256 z bytes) (one_digit bits hb n value byte hd.0 (ground arith))
                ∙ later.number (n * 32 + top_digit (bits + 8) (add_byte value byte));
          }
      | inl twice ↦
          let later : Encoded (bits + 8 - 5 - 5) (add_byte value byte) bytes
              (encode_loop (bits + 8 - 5 - 5) (add_byte value byte) bytes) =
            encode_loop-Encoded (bits + 8 - 5 - 5) (add_byte value byte) (k - 2) bytes (omega arith)
              hd.1 (ground arith) in
          record {
            digits =
                top_digit (bits + 8) (add_byte value byte)
                ∷ top_digit (bits + 8 - 5) (add_byte value byte)
                ∷ later.digits;
            text = cc (first, twice, later.text);
            digits_below = (omega arith, (omega arith, later.digits_below));
            count = omega (arith, later.count);
            number = λ n.
                ap (λ z. value_in 256 z bytes) (two_digits bits hb n value byte hd.0 (ground arith))
                ∙ later.number (
                    (n * 32 + top_digit (bits + 8) (add_byte value byte)) * 32
                    + top_digit (bits + 8 - 5) (add_byte value byte));
          }
    ]
