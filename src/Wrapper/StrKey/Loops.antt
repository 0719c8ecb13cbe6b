-- ===== src/Wrapper/StrKey/Loops.antt =====
-- The loops of the base32 coder and decoder move a number from one base to the other: what the digits
-- that are read say is what the bytes that are written say, less the bits still held back.
use pakta.Base.{
  ℕ, ◌+◌, ◌-◌, ◌*◌, ◌/◌, ◌%◌, ◌^◌, ◌<◌, ◌≤◌, some, List, [], ◌∷◌, map, ◌≡◌, refl, sym, ◌∙◌, ap,
  subst, ltb, leb, eqb, arith, length, absurd, ◌⊎◌, Bool-cases, Option-cases, inl, inr,
}
use pakta.Base.Bytes.{AreBelow, value_in}
use pakta.Base.Outcome.{ok, Outcome-cases}
use pakta.Wrapper.StrKey.{digit_of, char_of, decode_loop}
use pakta.Wrapper.StrKey.Digits.{digit_of-some, digit_of-char_of}

-- The value of `held` bits that are held back, after `n` in the digits before them.
abbrev pub with_bits : ℕ → ℕ → ℕ → ℕ
with_bits n bits value = n * 2 ^ bits + value % 2 ^ bits

abbrev pub next_value : ℕ → ℕ → ℕ
next_value value digit = (value * 2 ^ 5 + digit) % 2 ^ 32

below_5-cases : (b : ℕ) → b < 5 → (0 ≡ b) ⊎ (1 ≡ b) ⊎ (2 ≡ b) ⊎ (3 ≡ b) ⊎ (4 ≡ b)
below_5-cases b h = ground arith

-- What holds at each count of bits below 5 holds at all of them.
pub below_5 : (P : ℕ → Type 0) → P 0 → P 1 → P 2 → P 3 → P 4 → (b : ℕ) → b < 5 → P b
below_5 P p0 p1 p2 p3 p4 b h = elim (below_5-cases b h) [
  | inl e ↦ subst P e p0
  | inr (inl e) ↦ subst P e p1
  | inr (inr (inl e)) ↦ subst P e p2
  | inr (inr (inr (inl e))) ↦ subst P e p3
  | inr (inr (inr (inr e))) ↦ subst P e p4
]

abbrev Holds : ℕ → Type 0
Holds b =
    (n value digit : ℕ)
    → digit < 32
    → b < 3
    → with_bits n b value * 32 + digit ≡ with_bits n (b + 5) (next_value value digit)

-- One digit, where no byte is complete.
hold_digit : (b : ℕ) → b < 5 → Holds b
hold_digit =
    below_5 Holds (λ n value digit hd hb. omega arith) (λ n value digit hd hb. omega arith)
      (λ n value digit hd hb. omega arith) (λ n value digit hd hb. absurd (omega arith))
      (λ n value digit hd hb. absurd (omega arith))

abbrev Emits : ℕ → Type 0
Emits b =
    (n value digit : ℕ)
    → digit < 32
    → with_bits n (b + 3) value * 32 + digit
      ≡ with_bits (n * 256 + next_value value digit / 2 ^ b % 256) b (next_value value digit)

-- One digit that completes a byte.
emit_byte : (b : ℕ) → b < 5 → Emits b
emit_byte =
    below_5 Emits (λ n value digit hd. omega arith) (λ n value digit hd. omega arith)
      (λ n value digit hd. omega arith) (λ n value digit hd. omega arith)
      (λ n value digit hd. omega arith)

-- A text that the loop decodes, from its state: its digits, and what they say.
pub record Decoded (bits value : ℕ) (chars bytes : List ℕ) : Type 0 where
  pub digits : List ℕ
  pub left : ℕ
  pub text : chars ≡ map char_of digits
  pub digits_below : AreBelow 32 digits
  pub bytes_below : AreBelow 256 bytes
  pub few_left : left < 8
  pub count : 5 * length digits + bits ≡ 8 * length bytes + left
  pub number :
      (n : ℕ) → value_in 32 (with_bits n bits value) digits ≡ value_in 256 n bytes * 2 ^ left

no_bits_left :
    (bits value : ℕ) (bytes : List ℕ)
    → decode_loop bits value [] ≡ ok bytes
    → (value % 2 ^ bits ≡ 0) × (bytes ≡ [])
unfolding decode_loop
no_bits_left bits value bytes h = elim (Bool-cases (ltb 0 bits)) [
  | inr none_held ↦
      let same : 0 ≡ bits = ground arith in
      (subst (λ b. value % 2 ^ b ≡ 0) same (omega arith), cc (h, none_held))
  | inl held ↦ elim (Bool-cases (eqb (value % 2 ^ bits) 0)) [
    | inl clear ↦ (ground arith, cc (h, held, clear))
    | inr dirty ↦ cc (h, held, dirty)
  ]
]

decode_end-Decoded :
    (bits value : ℕ) (bytes : List ℕ)
    → bits < 8
    → decode_loop bits value [] ≡ ok bytes
    → Decoded bits value [] bytes
decode_end-Decoded bits value bytes hb h =
    let (clear, empty) = no_bits_left bits value bytes h in
    subst (Decoded bits value []) (sym empty) (record {
      digits = [];
      left = bits;
      text = refl;
      digits_below = tt;
      bytes_below = tt;
      few_left = hb;
      count = omega arith;
      number = λ n. omega (arith, clear);
    })

decode_held-Decoded :
    (bits value digit c : ℕ) (cs bytes : List ℕ)
    → bits < 3
    → digit_of c ≡ some digit
    → Decoded (bits + 5) (next_value value digit) cs bytes
    → Decoded bits value (c ∷ cs) bytes
decode_held-Decoded bits value digit c cs bytes hb hc d =
    let (below, same) = digit_of-some c digit hc in
    record {
      digits = digit ∷ d.digits;
      left = d.left;
      text = cc (same, d.text);
      digits_below = (below, d.digits_below);
      bytes_below = d.bytes_below;
      few_left = d.few_left;
      count = omega (arith, d.count);
      number = λ n.
          ap (λ z. value_in 32 z d.digits) (hold_digit bits (omega arith) n value digit below hb)
          ∙ d.number n;
    }

decode_filled-Decoded :
    (bits value digit c : ℕ) (cs rest : List ℕ)
    → bits < 5
    → digit_of c ≡ some digit
    → Decoded bits (next_value value digit) cs rest
    → Decoded (bits + 3) value (c ∷ cs) (next_value value digit / 2 ^ bits % 256 ∷ rest)
decode_filled-Decoded bits value digit c cs rest hb hc d =
    let (below, same) = digit_of-some c digit hc in
    record {
      digits = digit ∷ d.digits;
      left = d.left;
      text = cc (same, d.text);
      digits_below = (below, d.digits_below);
      bytes_below = (omega arith, d.bytes_below);
      few_left = d.few_left;
      count = omega (arith, d.count);
      number = λ n.
          ap (λ z. value_in 32 z d.digits) (emit_byte bits hb n value digit below)
          ∙ d.number (n * 256 + next_value value digit / 2 ^ bits % 256);
    }

-- What the loop decodes is the text of digits that say what the bytes say.
pub decode_loop-Decoded :
    (bits value : ℕ) (chars bytes : List ℕ)
    → bits < 8
    → decode_loop bits value chars ≡ ok bytes
    → Decoded bits value chars bytes
unfolding decode_loop
decode_loop-Decoded bits value [] bytes hb h = decode_end-Decoded bits value bytes hb h
decode_loop-Decoded bits value (c ∷ cs) bytes hb h = elim (Option-cases (digit_of c)) [
  | inl missing ↦ cc (h, missing)
  | inr (digit, hc) ↦ elim (Bool-cases (leb 8 (bits + 5))) [
    | inr held ↦ elim (Outcome-cases (decode_loop (bits + 5) (next_value value digit) cs)) [
      | inl (e, failed) ↦ cc (h, hc, held, failed)
      | inr (rest, later) ↦
          let same : rest ≡ bytes = cc (h, hc, held, later) in
          subst (Decoded bits value (c ∷ cs)) same (
            decode_held-Decoded bits value digit c cs rest (ground arith) hc (
              decode_loop-Decoded (bits + 5) (next_value value digit) cs rest (ground arith) later))
    ]
    | inl filled ↦ elim (Outcome-cases (decode_loop (bits + 5 - 8) (next_value value digit) cs)) [
      | inl (e, failed) ↦ cc (h, hc, filled, failed)
      | inr (rest, later) ↦
          let same : next_value value digit / 2 ^ (bits + 5 - 8) % 256 ∷ rest ≡ bytes =
            cc (h, hc, filled, later) in
          let back : bits + 5 - 8 + 3 ≡ bits = ground arith in
          subst (Decoded bits value (c ∷ cs)) same (
            subst
              (λ b.
                Decoded b value (c ∷ cs) (next_value value digit / 2 ^ (bits + 5 - 8) % 256 ∷ rest))
              back
              (decode_filled-Decoded (bits + 5 - 8) value digit c cs rest (omega arith) hc (
                decode_loop-Decoded (bits + 5 - 8) (next_value value digit) cs rest (omega arith)
                  later)))
    ]
  ]
]

-- The loop decodes every text of digits that ends with a byte, or with clear bits.
pub decode_loop-returns :
    (bits value k : ℕ) (digits : List ℕ)
    → bits < 8
    → AreBelow 32 digits
    → 5 * length digits + bits ≡ 8 * k
    → (bytes : List ℕ) × (decode_loop bits value (map char_of digits) ≡ ok bytes)
unfolding decode_loop
decode_loop-returns bits value k [] hb hd hk =
    let same : 0 ≡ bits = omega arith in ([], subst (λ b. decode_loop b value [] ≡ ok []) same refl)
decode_loop-returns bits value k (digit ∷ digits) hb hd hk =
    let found = digit_of-char_of digit hd.0 in
    elim (Bool-cases (leb 8 (bits + 5))) [
      | inr held ↦
          let (rest, later) =
            decode_loop-returns (bits + 5) (next_value value digit) k digits (ground arith) hd.1
              (omega arith) in
          (rest, cc (found, held, later))
      | inl filled ↦
          let small : 3 ≤ bits = ground arith in
          let (rest, later) =
            decode_loop-returns (bits + 5 - 8) (next_value value digit) (k - 1) digits (omega arith)
              hd.1 (omega arith) in
          (next_value value digit / 2 ^ (bits + 5 - 8) % 256 ∷ rest, cc (found, filled, later))
    ]
