-- ===== src/Base/Bytes.antt =====
-- Positional numbers: lists of digits in a base, such as bytes, the highest first.
use Prim.Native.Nat.{ℕ, zero, suc, ◌+◌, ◌*◌, ◌/◌, ◌%◌, ◌^◌, ◌<◌, ◌≤◌}
use mathlib.Core.Path.{◌≡◌, refl, sym, ap, subst}
use mathlib.Core.List.{List, [], ◌∷◌}
use native.Mathlib.Omega.{arith}
use pakta.Base.Lists.{length, All, get_elem?}
use pakta.Base.Tests.{absurd, get_or}

-- The number that the digits say, after those that `acc` has.
abbrev pub value_in : ℕ → ℕ → List ℕ → ℕ
value_in base acc [] = acc
value_in base acc (d ∷ ds) = value_in base (acc * base + d) ds

abbrev pub AreBelow : ℕ → List ℕ → Type 0
AreBelow base = All (λ d. d < base)

times_mono : (a b base : ℕ) → a ≤ b → a * base ≤ b * base
times_mono a b base h = grind arith

digit_below : (base a b x y : ℕ) → x < base → a * base + x ≡ b * base + y → ¬ (a + 1 ≤ b)
digit_below base a b x y hx h = λ less.
    let gap = times_mono (a + 1) b base less in
    let spread : (a + 1) * base ≡ a * base + base = grind arith in omega arith

-- A digit of the list, or 0 past its end, is below the base.
pub get_elem?-AreBelow :
    (base : ℕ) (ds : List ℕ) (i : ℕ)
    → 0 < base
    → AreBelow base ds
    → get_or 0 (get_elem? ds i) < base
get_elem?-AreBelow base [] i hb h = hb
get_elem?-AreBelow base (d ∷ ds) zero hb h = h.0
get_elem?-AreBelow base (d ∷ ds) (suc i) hb h = get_elem?-AreBelow base ds i hb h.1

digit_unique :
    (base a b x y : ℕ) → x < base → y < base → a * base + x ≡ b * base + y → (a ≡ b) × (x ≡ y)
digit_unique base a b x y hx hy h =
    let same : a ≡ b =
      omega (arith, digit_below base a b x y hx h, digit_below base b a y x hy (sym h)) in
    let products : a * base ≡ b * base = cc same in (same, omega arith)

-- Digits below the base are determined by their number and their count.
pub value_in_unique :
    (base a b : ℕ) (xs ys : List ℕ)
    → AreBelow base xs
    → AreBelow base ys
    → length xs ≡ length ys
    → value_in base a xs ≡ value_in base b ys
    → (a ≡ b) × (xs ≡ ys)
value_in_unique base a b [] [] hx hy hl h = (h, refl)
value_in_unique base a b [] (y ∷ ys) hx hy hl h = absurd (omega (arith, hl))
value_in_unique base a b (x ∷ xs) [] hx hy hl h = absurd (omega (arith, hl))
value_in_unique base a b (x ∷ xs) (y ∷ ys) hx hy hl h =
    let (same, rest) =
      value_in_unique base (a * base + x) (b * base + y) xs ys hx.1 hy.1 (omega arith) h in
    let (above, digit) = digit_unique base a b x y hx.0 hy.0 same in (above, cc (digit, rest))

-- `for (i = n - 1; i >= 0; i -= 1) { out[i] = remaining & 0xff; remaining >>= 8 }`: `out` holds the
-- bytes that are set.
unfoldable pub big_endian_loop : ℕ → ℕ → List ℕ → List ℕ
big_endian_loop zero remaining out = out
big_endian_loop (suc i) remaining out = big_endian_loop i (remaining / 256) (remaining % 256 ∷ out)

pub length-big_endian_loop :
    (n r : ℕ) (out : List ℕ) → length (big_endian_loop n r out) ≡ n + length out
unfolding big_endian_loop
length-big_endian_loop zero r out = omega arith
length-big_endian_loop (suc n) r out =
    omega (arith, length-big_endian_loop n (r / 256) (r % 256 ∷ out))

pub big_endian_loop-AreBelow :
    (n r : ℕ) (out : List ℕ) → AreBelow 256 out → AreBelow 256 (big_endian_loop n r out)
unfolding big_endian_loop
big_endian_loop-AreBelow zero r out h = h
big_endian_loop-AreBelow (suc n) r out h =
    big_endian_loop-AreBelow n (r / 256) (r % 256 ∷ out) (omega arith, h)

high_part : (r m : ℕ) → r < m * 256 → r / 256 < m
high_part r m h = omega arith

-- The bytes of a number that fits say the number.
pub value_in-big_endian_loop :
    (n r : ℕ) (out : List ℕ)
    → r < 256 ^ n
    → value_in 256 0 (big_endian_loop n r out) ≡ value_in 256 r out
unfolding big_endian_loop
value_in-big_endian_loop zero r out h = ap (λ z. value_in 256 z out) (omega arith)
value_in-big_endian_loop (suc n) r out h =
    let back : r / 256 * 256 + r % 256 ≡ r = omega arith in
    subst (λ z. value_in 256 0 (big_endian_loop n (r / 256) (r % 256 ∷ out)) ≡ value_in 256 z out)
      back
      (value_in-big_endian_loop n (r / 256) (r % 256 ∷ out) (high_part r (256 ^ n) (omega arith)))
