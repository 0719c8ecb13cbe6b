-- ===== src/Wrapper/StrKey/Digits.antt =====
-- The base32 alphabet: characters and their digits determine each other.
use pakta.Base.{
  ℕ, zero, suc, ◌+◌, ◌<◌, Bool, true, false, ◌&&◌, Option, none, some, List, [], ◌∷◌, map, ◌≡◌,
  refl, ◌∙◌, ap, eqb, arith, length, get_elem?, get_or, absurd, Bool-cases, inl, inr,
}
use pakta.Base.Bytes.{AreBelow}
use pakta.Wrapper.StrKey.{alphabet, place_from, digit_of, char_of}

place_from-some :
    (i : ℕ) (xs : List ℕ) (c d : ℕ)
    → place_from i xs c ≡ some d
    → (k : ℕ) × (d ≡ i + k) × (k < length xs) × (get_elem? xs k ≡ some c)
place_from-some i [] c d h = cc
place_from-some i (x ∷ xs) c d h = elim (Bool-cases (eqb x c)) [
  | inl same ↦ (0, ground arith, omega arith, ground arith)
  | inr other ↦
      let (k, place, inside, found) = place_from-some (suc i) xs c d (ground arith) in
      (suc k, omega arith, omega arith, found)
]

-- A digit that the table has is below 32, and the alphabet has the character there.
pub digit_of-some : (c d : ℕ) → digit_of c ≡ some d → (d < 32) × (char_of d ≡ c)
unfolding digit_of char_of
digit_of-some c d h =
    let (k, place, inside, found) = place_from-some 0 alphabet c d h in
    let same : d ≡ k = omega arith in
    (omega arith, ap (λ z. get_or 0 (get_elem? alphabet z)) same ∙ ap (get_or 0) found)

is_read_back : ℕ → Option ℕ → Bool
is_read_back d none = false
is_read_back d (some digit) = eqb digit d

abbrev all_below : ℕ → Bool
all_below zero = true
all_below (suc n) = is_read_back n (digit_of (char_of n)) && all_below n

all_below-holds :
    (n d : ℕ) → all_below n ≡ true → d < n → is_read_back d (digit_of (char_of d)) ≡ true
all_below-holds zero d h less = absurd (omega arith)
all_below-holds (suc n) d h less = ground (arith, all_below-holds n d)

alphabet_is_read_back : all_below 32 ≡ true
unfolding digit_of char_of is_read_back
alphabet_is_read_back = refl

is_read_back-some : (d : ℕ) (o : Option ℕ) → is_read_back d o ≡ true → o ≡ some d
unfolding is_read_back
is_read_back-some d none h = cc
is_read_back-some d (some digit) h = ground arith

pub digit_of-char_of : (d : ℕ) → d < 32 → digit_of (char_of d) ≡ some d
digit_of-char_of d less =
    is_read_back-some d (digit_of (char_of d)) (all_below-holds 32 d alphabet_is_read_back less)

-- Digits are determined by their text.
pub map-char_of_injective :
    (ds es : List ℕ) → AreBelow 32 ds → AreBelow 32 es → map char_of ds ≡ map char_of es → ds ≡ es
map-char_of_injective [] [] hd he h = refl
map-char_of_injective [] (e ∷ es) hd he h = cc
map-char_of_injective (d ∷ ds) [] hd he h = cc
map-char_of_injective (d ∷ ds) (e ∷ es) hd he h =
    let rest = map-char_of_injective ds es hd.1 he.1 (cc h) in
    let left = digit_of-char_of d hd.0 in
    let right = digit_of-char_of e he.0 in cc (h, rest, left, right)
