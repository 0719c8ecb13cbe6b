-- ===== src/ProofHash/Digest/Fields.antt =====
-- The parts of a layout one by one: how wide they are, when they give bytes, and that the bytes
-- determine what they encode.
use pakta.Base.{
  ℕ, zero, suc, ◌+◌, ◌-◌, ◌*◌, ◌^◌, ◌<◌, String, Bool, true, false, List, [], ◌∷◌, ◌≡◌, refl, sym,
  ◌∙◌, ap, ◌==◌, leb, eqb, eqb_eq, arith, length, all, absurd, Bool-cases, inl, inr,
}
use pakta.Base.Bytes.{big_endian_loop, value_in-big_endian_loop}
use pakta.Base.Int.{ℤ, pos, negsuc}
use pakta.Base.Outcome.{Outcome, ok}
use pakta.Base.Pattern.{codes, codes_injective, is_hex64, is_lower_hex}
use pakta.Wrapper.StrKey.{decode_str_key}
use pakta.Wrapper.StrKey.RoundTrip.{encode_str_key-decode_str_key}
use pakta.ProofHash.Digest.{
  Whole, require_non_empty_string, hex_digit, hex_pairs, hex_to_bytes, i128_big_endian, u64_of,
  u64_big_endian, as_bigint, is_safe,
}
use pakta.ProofHash.Digest.Parts.{Gives}

-- A required text is not empty, and what is done with it is done.
pub require_non_empty-ok :
    (value : String) (rest : String → Outcome (List ℕ)) (bytes : List ℕ)
    → require_non_empty_string value rest ≡ ok bytes
    → rest value ≡ ok bytes
unfolding require_non_empty_string
require_non_empty-ok value rest bytes h = elim (Bool-cases (value == "")) [
  | inl empty ↦ cc (h, empty)
  | inr full ↦ cc (h, full)
]

pub require_non_empty-Gives :
    (value : String) (rest : String → Outcome (List ℕ))
    → (value == "") ≡ false
    → Gives (rest value)
    → Gives (require_non_empty_string value rest)
unfolding require_non_empty_string
require_non_empty-Gives value rest full gives = (gives.0, cc (full, gives.1))

pub big_endian_unique :
    (n a b : ℕ)
    → a < 256 ^ n
    → b < 256 ^ n
    → big_endian_loop n a [] ≡ big_endian_loop n b []
    → a ≡ b
big_endian_unique n a b ha hb h =
    cc (value_in-big_endian_loop n a [] ha, value_in-big_endian_loop n b [] hb, h)

-- An amount that is encoded is positive and fits, and the bytes are its 16.
pub record IsI128 (z : ℤ) (bytes : List ℕ) : Type 0 where
  pub units : ℕ
  pub whole : z ≡ pos units
  pub positive : 0 < units
  pub fits : units < 2 ^ 127
  pub layout : bytes ≡ big_endian_loop 16 units []

pub i128_big_endian-IsI128 :
    (z : ℤ) (bytes : List ℕ) → i128_big_endian z ≡ ok bytes → IsI128 z bytes
unfolding i128_big_endian
i128_big_endian-IsI128 (negsuc n) bytes h = cc h
i128_big_endian-IsI128 (pos n) bytes h = elim (Bool-cases (eqb n 0)) [
  | inl nothing ↦ cc (h, nothing)
  | inr some_units ↦ elim (Bool-cases (leb n (2 ^ 127 - 1))) [
    | inr large ↦ cc (h, some_units, large)
    | inl small ↦ record {
      units = n;
      whole = refl;
      positive = ground arith;
      fits = ground arith;
      layout = cc (h, some_units, small);
    }
  ]
]

pub i128_big_endian_unique :
    (a b : ℤ) (bytes : List ℕ) → i128_big_endian a ≡ ok bytes → i128_big_endian b ≡ ok bytes → a ≡ b
i128_big_endian_unique a b bytes ha hb =
    let left = i128_big_endian-IsI128 a bytes ha in
    let right = i128_big_endian-IsI128 b bytes hb in
    let same =
      big_endian_unique 16 left.units right.units (omega (arith, left.fits))
        (omega (arith, right.fits)) (sym left.layout ∙ right.layout) in
    cc (left.whole, right.whole, same)

pub i128_big_endian-Gives : (n : ℕ) → 0 < n → n < 2 ^ 127 → Gives (i128_big_endian (pos n))
unfolding i128_big_endian
i128_big_endian-Gives n positive fits =
    let some_units : eqb n 0 ≡ false = ground arith in
    let small : leb n (2 ^ 127 - 1) ≡ true = ground arith in
    (big_endian_loop 16 n [], cc (some_units, small))

-- A number that is encoded fits in 64 bits.
pub record IsU64 (value : Whole) (bytes : List ℕ) : Type 0 where
  pub count : ℕ
  pub whole : as_bigint value ≡ pos count
  pub fits : count < 2 ^ 64
  pub layout : bytes ≡ big_endian_loop 8 count []

u64_of-IsU64 :
    (value : Whole) (z : ℤ) (bytes : List ℕ)
    → as_bigint value ≡ z
    → u64_of z ≡ ok bytes
    → IsU64 value bytes
u64_of-IsU64 value (negsuc n) bytes hz h = cc h
u64_of-IsU64 value (pos n) bytes hz h = elim (Bool-cases (leb n (2 ^ 64 - 1))) [
  | inr large ↦ cc (h, large)
  | inl small ↦ record { count = n; whole = hz; fits = ground arith; layout = cc (h, small) }
]

pub u64_big_endian-IsU64 :
    (value : Whole) (bytes : List ℕ) → u64_big_endian value ≡ ok bytes → IsU64 value bytes
unfolding u64_big_endian
u64_big_endian-IsU64 value bytes h = elim (Bool-cases (is_safe value)) [
  | inr unsafe ↦ cc (h, unsafe)
  | inl safe ↦ u64_of-IsU64 value (as_bigint value) bytes refl (cc (h, safe))
]

pub u64_big_endian_unique :
    (a b : Whole) (bytes : List ℕ)
    → u64_big_endian a ≡ ok bytes
    → u64_big_endian b ≡ ok bytes
    → as_bigint a ≡ as_bigint b
u64_big_endian_unique a b bytes ha hb =
    let left = u64_big_endian-IsU64 a bytes ha in
    let right = u64_big_endian-IsU64 b bytes hb in
    let same =
      big_endian_unique 8 left.count right.count (omega (arith, left.fits))
        (omega (arith, right.fits)) (sym left.layout ∙ right.layout) in
    cc (left.whole, right.whole, same)

pub u64_big_endian-Gives :
    (value : Whole) (n : ℕ)
    → as_bigint value ≡ pos n
    → is_safe value ≡ true
    → n < 2 ^ 64
    → Gives (u64_big_endian value)
unfolding u64_big_endian
u64_big_endian-Gives value n whole safe fits =
    let small : leb n (2 ^ 64 - 1) ≡ true = ground arith in
    (big_endian_loop 8 n [], cc (whole, safe, small))

-- Lowercase hex texts: 64 characters are 32 bytes, and the bytes determine the text.
hex_digit_unique :
    (c d : ℕ) → is_lower_hex c ≡ true → is_lower_hex d ≡ true → hex_digit c ≡ hex_digit d → c ≡ d
hex_digit_unique c d hc hd h = ground arith

hex_digit-lt : (c : ℕ) → is_lower_hex c ≡ true → hex_digit c < 16
hex_digit-lt c hc = ground arith

all_two :
    (p : ℕ → Bool) (c d : ℕ) (cs : List ℕ)
    → all p (c ∷ d ∷ cs) ≡ true
    → (p c ≡ true) × (p d ≡ true) × (all p cs ≡ true)
all_two p c d cs h = ground arith

pair_unique : (a b x y : ℕ) → b < 16 → y < 16 → a * 16 + b ≡ x * 16 + y → (a ≡ x) × (b ≡ y)
pair_unique a b x y hb hy h = (omega arith, omega arith)

hex_pairs_unique :
    (n : ℕ) (cs ds : List ℕ)
    → length cs ≡ n * 2
    → length ds ≡ n * 2
    → all is_lower_hex cs ≡ true
    → all is_lower_hex ds ≡ true
    → hex_pairs cs ≡ hex_pairs ds
    → cs ≡ ds
hex_pairs_unique zero [] [] lc ld hc hd h = refl
hex_pairs_unique zero (c ∷ cs) ds lc ld hc hd h = absurd (omega (arith, lc))
hex_pairs_unique zero [] (d ∷ ds) lc ld hc hd h = absurd (omega (arith, ld))
hex_pairs_unique (suc n) [] ds lc ld hc hd h = absurd (omega (arith, lc))
hex_pairs_unique (suc n) (c ∷ []) ds lc ld hc hd h = absurd (omega (arith, lc))
hex_pairs_unique (suc n) (c ∷ c' ∷ cs) [] lc ld hc hd h = absurd (omega (arith, ld))
hex_pairs_unique (suc n) (c ∷ c' ∷ cs) (d ∷ []) lc ld hc hd h = absurd (omega (arith, ld))
hex_pairs_unique (suc n) (c ∷ c' ∷ cs) (d ∷ d' ∷ ds) lc ld hc hd h =
    let (c1, c2, c3) = all_two is_lower_hex c c' cs hc in
    let (d1, d2, d3) = all_two is_lower_hex d d' ds hd in
    let pairs : hex_digit c * 16 + hex_digit c' ≡ hex_digit d * 16 + hex_digit d' = cc h in
    let (high, low) =
      pair_unique (hex_digit c) (hex_digit c') (hex_digit d) (hex_digit d') (hex_digit-lt c' c2)
        (hex_digit-lt d' d2) pairs in
    let rest = hex_pairs_unique n cs ds (omega (arith, lc)) (omega (arith, ld)) c3 d3 (cc h) in
    cc (hex_digit_unique c d c1 d1 high, hex_digit_unique c' d' c2 d2 low, rest)

length-hex_pairs : (n : ℕ) (cs : List ℕ) → length cs ≡ n * 2 → length (hex_pairs cs) ≡ n
length-hex_pairs zero [] h = refl
length-hex_pairs zero (c ∷ cs) h = absurd (omega (arith, h))
length-hex_pairs (suc n) [] h = absurd (omega (arith, h))
length-hex_pairs (suc n) (c ∷ []) h = absurd (omega (arith, h))
length-hex_pairs (suc n) (c ∷ d ∷ cs) h = ap suc (length-hex_pairs n cs (omega (arith, h)))

-- What `hex_to_bytes` takes: 64 lowercase hex characters.
pub record IsHexText (hex : String) (bytes : List ℕ) : Type 0 where
  pub size : length (codes hex) ≡ 64
  pub lower : all is_lower_hex (codes hex) ≡ true
  pub layout : bytes ≡ hex_pairs (codes hex)

pub hex_to_bytes-IsHexText :
    (hex : String) (bytes : List ℕ) → hex_to_bytes hex ≡ ok bytes → IsHexText hex bytes
unfolding hex_to_bytes is_hex64
hex_to_bytes-IsHexText hex bytes h = elim (Bool-cases (eqb (length (codes hex)) 64)) [
  | inr other ↦ cc (h, other)
  | inl same ↦ elim (Bool-cases (all is_lower_hex (codes hex))) [
    | inr other ↦ cc (h, same, other)
    | inl lower ↦ record {
      size = eqb_eq (length (codes hex)) 64 same;
      lower = lower;
      layout = cc (h, same, lower);
    }
  ]
]

pub hex_to_bytes-length :
    (hex : String) (bytes : List ℕ) → hex_to_bytes hex ≡ ok bytes → length bytes ≡ 32
hex_to_bytes-length hex bytes h =
    let t = hex_to_bytes-IsHexText hex bytes h in
    ap length t.layout ∙ length-hex_pairs 32 (codes hex) t.size

pub hex_to_bytes_unique :
    (a b : String) (bytes : List ℕ) → hex_to_bytes a ≡ ok bytes → hex_to_bytes b ≡ ok bytes → a ≡ b
hex_to_bytes_unique a b bytes ha hb =
    let left = hex_to_bytes-IsHexText a bytes ha in
    let right = hex_to_bytes-IsHexText b bytes hb in
    codes_injective a b (
      hex_pairs_unique 32 (codes a) (codes b) left.size right.size left.lower right.lower
        (sym left.layout ∙ right.layout))

-- A key's text is determined by its bytes.
pub decode_str_key_unique :
    (version : ℕ) (a b bytes : List ℕ)
    → decode_str_key version a ≡ ok bytes
    → decode_str_key version b ≡ ok bytes
    → a ≡ b
decode_str_key_unique version a b bytes ha hb =
    let (size, below, left) = encode_str_key-decode_str_key version a bytes ha in
    let (size', below', right) = encode_str_key-decode_str_key version b bytes hb in
    cc (left, right)
