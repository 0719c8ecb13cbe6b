-- ===== src/Base/Lists.antt =====
-- Lists: JavaScript's `filter`, `find`, `length` and the stable `sort`.
use Prim.Native.Nat.{ℕ, zero, suc, ◌+◌, ◌≤◌}
use mathlib.Core.Path.{◌≡◌, refl, ap, subst, ◌∙◌}
use mathlib.Core.Logic.{inl, inr}
use mathlib.Core.Bool.{Bool, true, false, ◌&&◌, ◌||◌}
use mathlib.Core.Option.{Option, none, some}
use mathlib.Core.List.{List, [], ◌∷◌, ◌++◌}
use native.Mathlib.Omega.{arith}
use pakta.Base.Tests.{if◌then◌else◌, Bool-cases, absurd, get_or}

suc_add : (m n : ℕ) → suc m + n ≡ suc (m + n)
suc_add m n = omega arith

module _ {ℓ} {A : Type ℓ} where
  abbrev pub length : List A → ℕ
  length [] = 0
  length (x ∷ xs) = suc (length xs)

  abbrev pub find : (A → Bool) → List A → Option A
  find p [] = none
  find p (x ∷ xs) = if p x then some x else find p xs

  abbrev pub select : (A → Bool) → List A → List A
  select p [] = []
  select p (x ∷ xs) = if p x then x ∷ select p xs else select p xs

  abbrev pub all : (A → Bool) → List A → Bool
  all p [] = true
  all p (x ∷ xs) = p x && all p xs

  abbrev pub any : (A → Bool) → List A → Bool
  any p [] = false
  any p (x ∷ xs) = p x || any p xs

  abbrev pub head_of : List A → Option A
  head_of [] = none
  head_of (x ∷ xs) = some x

  -- `xs[i]`
  abbrev pub get_elem? : List A → ℕ → Option A
  get_elem? [] i = none
  get_elem? (x ∷ xs) zero = some x
  get_elem? (x ∷ xs) (suc i) = get_elem? xs i

  abbrev pub take : ℕ → List A → List A
  take n [] = []
  take zero (x ∷ xs) = []
  take (suc n) (x ∷ xs) = x ∷ take n xs

  -- A stable insertion: `x` goes in front of the first element that must come after it.
  abbrev pub insert_by : (A → A → Bool) → A → List A → List A
  insert_by before x [] = x ∷ []
  insert_by before x (y ∷ ys) = if before y x then y ∷ insert_by before x ys else x ∷ y ∷ ys

  -- `sort` by a comparison: `before y x` says that `y` sorts strictly in front of `x`. The list is
  -- taken from its end, so that equal elements keep their order.
  abbrev pub sort_by : (A → A → Bool) → List A → List A
  sort_by before [] = []
  sort_by before (x ∷ xs) = insert_by before x (sort_by before xs)

  pub length-append : (xs ys : List A) → length (xs ++ ys) ≡ length xs + length ys
  length-append [] ys = omega arith
  length-append (x ∷ xs) ys = omega (arith, length-append xs ys)

  pub take-append : (xs ys : List A) → take (length xs) (xs ++ ys) ≡ xs
  take-append [] [] = refl
  take-append [] (y ∷ ys) = refl
  take-append (x ∷ xs) ys = ap (λ zs. x ∷ zs) (take-append xs ys)

  pub get_elem?-append :
      (xs ys : List A) (i : ℕ) → get_elem? (xs ++ ys) (length xs + i) ≡ get_elem? ys i
  get_elem?-append [] ys i = ap (get_elem? ys) (omega arith)
  get_elem?-append (x ∷ xs) ys i =
      ap (get_elem? (x ∷ xs ++ ys)) (suc_add (length xs) i) ∙ get_elem?-append xs ys i

  pub length-take : (n : ℕ) (xs : List A) → n ≤ length xs → length (take n xs) ≡ n
  length-take zero [] h = refl
  length-take zero (x ∷ xs) h = refl
  length-take (suc n) [] h = omega arith
  length-take (suc n) (x ∷ xs) h = ap suc (length-take n xs (omega arith))

  -- What `n` elements and two more are.
  pub split_two :
      (d : A) (n : ℕ) (xs : List A)
      → length xs ≡ n + 2
      → xs ≡ take n xs ++ get_or d (get_elem? xs n) ∷ get_or d (get_elem? xs (suc n)) ∷ []
  split_two d n [] h = absurd (omega (arith, h))
  split_two d zero (x ∷ []) h = absurd (omega (arith, h))
  split_two d zero (x ∷ y ∷ []) h = refl
  split_two d zero (x ∷ y ∷ z ∷ zs) h = absurd (omega (arith, h))
  split_two d (suc n) (x ∷ xs) h = ap (λ zs. x ∷ zs) (split_two d n xs (omega (arith, h)))

module _ {ℓ κ} {A : Type ℓ} (P : A → Type κ) where
  abbrev pub All : List A → Type κ
  All [] = Unit
  All (x ∷ xs) = P x × All xs

  pub All-take : (n : ℕ) (xs : List A) → All xs → All (take n xs)
  All-take n [] h = tt
  All-take zero (x ∷ xs) h = tt
  All-take (suc n) (x ∷ xs) h = (h.0, All-take n xs h.1)

  pub All-select : (p : A → Bool) (xs : List A) → All xs → All (select p xs)
  All-select p [] h = tt
  All-select p (x ∷ xs) h = elim (Bool-cases (p x)) [
    | inl holds ↦ rw holds (h.0, All-select p xs h.1)
    | inr fails ↦ rw fails (All-select p xs h.1)
  ]

  All-insert_by :
      (before : A → A → Bool) (x : A) (xs : List A) → P x → All xs → All (insert_by before x xs)
  All-insert_by before x [] hx h = (hx, tt)
  All-insert_by before x (y ∷ ys) hx h = elim (Bool-cases (before y x)) [
    | inl first ↦ rw first (h.0, All-insert_by before x ys hx h.1)
    | inr later ↦ rw later (hx, h)
  ]

  pub All-sort_by : (before : A → A → Bool) (xs : List A) → All xs → All (sort_by before xs)
  All-sort_by before [] h = tt
  All-sort_by before (x ∷ xs) h =
      All-insert_by before x (sort_by before xs) h.0 (All-sort_by before xs h.1)

  pub All-append : (xs ys : List A) → All xs → All ys → All (xs ++ ys)
  All-append [] ys hx hy = hy
  All-append (x ∷ xs) ys hx hy = (hx.0, All-append xs ys hx.1 hy)

module _ {ℓ} {A : Type ℓ} where
  -- An element and its place in a list.
  pub record IsIn (x : A) (xs : List A) : Type ℓ where
    pub before : List A
    pub after : List A
    pub place : xs ≡ before ++ x ∷ after

  pub IsIn-later : (x y : A) (ys : List A) → IsIn x ys → IsIn x (y ∷ ys)
  IsIn-later x y ys h = record {
    before = y ∷ h.before;
    after = h.after;
    place = ap (λ zs. y ∷ zs) h.place;
  }

  pub find-IsIn :
      (p : A → Bool) (xs : List A) (x : A) → find p xs ≡ some x → IsIn x xs × (p x ≡ true)
  find-IsIn p [] x h = cc
  find-IsIn p (y ∷ ys) x h = elim (Bool-cases (p y)) [
    | inl holds ↦
        let same : y ≡ x = ground arith in
        subst (λ z. IsIn z (y ∷ ys) × (p z ≡ true)) same
          (record { before = []; after = ys; place = refl }, holds)
    | inr fails ↦
        let (later, found) = find-IsIn p ys x (ground arith) in (IsIn-later x y ys later, found)
  ]

  pub find-none : (p : A → Bool) (xs : List A) → find p xs ≡ none → All (λ x. p x ≡ false) xs
  find-none p [] h = tt
  find-none p (x ∷ xs) h = (ground arith, find-none p xs (ground arith))

  -- Being in a list is being in a longer one.
  All-IsIn-later :
      (y : A) (ys xs : List A) → All (λ x. IsIn x ys) xs → All (λ x. IsIn x (y ∷ ys)) xs
  All-IsIn-later y ys [] h = tt
  All-IsIn-later y ys (x ∷ xs) h = (IsIn-later x y ys h.0, All-IsIn-later y ys xs h.1)

  pub select-IsIn : (p : A → Bool) (xs : List A) → All (λ x. IsIn x xs) (select p xs)
  select-IsIn p [] = tt
  select-IsIn p (x ∷ xs) = elim (Bool-cases (p x)) [
    | inl holds ↦ rw holds (
      record { before = []; after = xs; place = refl },
      All-IsIn-later x xs (select p xs) (select-IsIn p xs),
    )
    | inr fails ↦ rw fails (All-IsIn-later x xs (select p xs) (select-IsIn p xs))
  ]
