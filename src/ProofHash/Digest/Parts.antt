-- ===== src/ProofHash/Digest/Parts.antt =====
-- Positional layouts: parts of known widths are determined by their concatenation.
use pakta.Base.{
  ℕ, ◌+◌, true, List, [], ◌∷◌, ◌++◌, ◌≡◌, refl, sym, ◌∙◌, ap, eqb, arith, length, length-append,
  All, absurd, Bool-cases, take, take-append, subst, inl, inr,
}
use pakta.Base.Outcome.{Outcome, ok, Outcome-cases, ◌>>=◌}
use pakta.ProofHash.Digest.{in_order, flatten, concat_exact}

abbrev pub Part : Type 0
Part = Outcome (List ℕ)

-- Every part gives its count of bytes, if it gives any.
abbrev pub HasWidths : List ℕ → List Part → Type 0
HasWidths [] [] = Unit
HasWidths (n ∷ ns) (part ∷ parts) =
    ((bytes : List ℕ) → part ≡ ok bytes → length bytes ≡ n) × HasWidths ns parts
HasWidths _ _ = ⊥

abbrev pub sum : List ℕ → ℕ
sum [] = 0
sum (n ∷ ns) = n + sum ns

-- The part gives bytes.
abbrev pub Gives : Part → Type 0
Gives part = (bytes : List ℕ) × (part ≡ ok bytes)

-- Two layouts whose parts give the same bytes.
abbrev pub Agree : List Part → List Part → Type 0
Agree (a ∷ ends) (b ∷ bs) = ((bytes : List ℕ) × (a ≡ ok bytes) × (b ≡ ok bytes)) × Agree ends bs
Agree [] [] = Unit
Agree _ _ = ⊥

append_unique :
    (xs ys ends bs : List ℕ)
    → length xs ≡ length ys
    → xs ++ ends ≡ ys ++ bs
    → (xs ≡ ys) × (ends ≡ bs)
append_unique [] [] ends bs hl h = (refl, h)
append_unique [] (y ∷ ys) ends bs hl h = absurd (omega (arith, hl))
append_unique (x ∷ xs) [] ends bs hl h = absurd (omega (arith, hl))
append_unique (x ∷ xs) (y ∷ ys) ends bs hl h =
    let (same, rest) = append_unique xs ys ends bs (omega (arith, hl)) (cc h) in
    (cc (h, same), rest)

-- What the array literal gives: its first part's bytes and the rest.
in_order-cons :
    (part : Part) (parts : List Part) (all_bytes : List (List ℕ))
    → in_order (part ∷ parts) ≡ ok all_bytes
    → (bytes : List ℕ) × (rest : List (List ℕ)) × (part ≡ ok bytes)
      × (in_order parts ≡ ok rest)
      × (all_bytes ≡ bytes ∷ rest)
in_order-cons part parts all_bytes h = elim (Outcome-cases part) [
  | inl (e, failed) ↦ cc (h, failed)
  | inr (bytes, given) ↦ elim (Outcome-cases (in_order parts)) [
    | inl (e, failed) ↦ cc (h, given, failed)
    | inr (rest, later) ↦ (bytes, rest, given, later, cc (h, given, later))
  ]
]

pub in_order-returns :
    (widths : List ℕ) (parts : List Part)
    → HasWidths widths parts
    → All Gives parts
    → (all_bytes : List (List ℕ)) × (in_order parts ≡ ok all_bytes)
      × (length (flatten all_bytes) ≡ sum widths)
in_order-returns [] [] hw hg = ([], refl, refl)
in_order-returns [] (part ∷ parts) hw hg = elim hw [ ]
in_order-returns (n ∷ ns) [] hw hg = elim hw [ ]
in_order-returns (n ∷ ns) (part ∷ parts) hw hg =
    let (bytes, given) = hg.0 in
    let (rest, later, size) = in_order-returns ns parts hw.1 hg.1 in
    (
      bytes ∷ rest,
      cc (given, later),
      omega (arith, length-append bytes (flatten rest), hw.0 bytes given, size),
    )

-- Layouts of the same widths with the same concatenation agree part by part.
pub in_order-Agree :
    (widths : List ℕ) (parts others : List Part) (bytes other_bytes : List (List ℕ))
    → HasWidths widths parts
    → HasWidths widths others
    → in_order parts ≡ ok bytes
    → in_order others ≡ ok other_bytes
    → flatten bytes ≡ flatten other_bytes
    → Agree parts others
in_order-Agree [] [] [] bytes other_bytes hw hv hp ho h = tt
in_order-Agree [] [] (other ∷ others) bytes other_bytes hw hv hp ho h = elim hv [ ]
in_order-Agree [] (part ∷ parts) others bytes other_bytes hw hv hp ho h = elim hw [ ]
in_order-Agree (n ∷ ns) [] others bytes other_bytes hw hv hp ho h = elim hw [ ]
in_order-Agree (n ∷ ns) (part ∷ parts) [] bytes other_bytes hw hv hp ho h = elim hv [ ]
in_order-Agree (n ∷ ns) (part ∷ parts) (other ∷ others) bytes other_bytes hw hv hp ho h =
    let (front, rest, given, later, split) = in_order-cons part parts bytes hp in
    let (other_front, other_rest, other_given, other_later, other_split) =
      in_order-cons other others other_bytes ho in
    let whole : front ++ flatten rest ≡ other_front ++ flatten other_rest =
      cc (h, split, other_split) in
    let sizes : length front ≡ length other_front =
      hw.0 front given ∙ sym (hv.0 other_front other_given) in
    let (same, tails) =
      append_unique front other_front (flatten rest) (flatten other_rest) sizes whole in
    (
      (front, given, cc (other_given, same)),
      in_order-Agree ns parts others rest other_rest hw.1 hv.1 later other_later tails,
    )

-- A preimage: the parts, and their concatenation of the expected length.
pub concat_exact-ok :
    (parts : List (List ℕ)) (expected : ℕ) (bytes : List ℕ)
    → concat_exact parts expected ≡ ok bytes
    → (flatten parts ≡ bytes) × (length bytes ≡ expected)
unfolding concat_exact
concat_exact-ok parts expected bytes h = elim (Bool-cases (eqb (length (flatten parts)) expected)) [
  | inr other ↦ cc (h, other)
  | inl same ↦
      let whole : flatten parts ≡ bytes = cc (h, same) in
      let size : length (flatten parts) ≡ expected = ground arith in
      (whole, ap length (sym whole) ∙ size)
]

abbrev pub preimage_of : List Part → ℕ → Part
preimage_of parts expected = in_order parts >>= λ bytes. concat_exact bytes expected

pub preimage_of-ok :
    (parts : List Part) (expected : ℕ) (bytes : List ℕ)
    → preimage_of parts expected ≡ ok bytes
    → (all_bytes : List (List ℕ)) × (in_order parts ≡ ok all_bytes)
      × (flatten all_bytes ≡ bytes)
      × (length bytes ≡ expected)
preimage_of-ok parts expected bytes h = elim (Outcome-cases (in_order parts)) [
  | inl (e, failed) ↦ cc (h, failed)
  | inr (all_bytes, given) ↦
      let (whole, size) = concat_exact-ok all_bytes expected bytes (cc (h, given)) in
      (all_bytes, given, whole, size)
]

-- Parts that all give their bytes make a preimage: the check of its length cannot fail.
pub preimage_of-returns :
    (widths : List ℕ) (parts : List Part)
    → HasWidths widths parts
    → All Gives parts
    → (bytes : List ℕ) × (preimage_of parts (sum widths) ≡ ok bytes) × (length bytes ≡ sum widths)
unfolding concat_exact
preimage_of-returns widths parts hw hg =
    let (all_bytes, given, size) = in_order-returns widths parts hw hg in
    let fits : eqb (length (flatten all_bytes)) (sum widths) ≡ true = ground arith in
    (flatten all_bytes, cc (given, fits), size)

pub preimage_of-Agree :
    (widths : List ℕ) (expected : ℕ) (parts others : List Part) (bytes : List ℕ)
    → HasWidths widths parts
    → HasWidths widths others
    → preimage_of parts expected ≡ ok bytes
    → preimage_of others expected ≡ ok bytes
    → Agree parts others
preimage_of-Agree widths expected parts others bytes hw hv hp ho =
    let (front, given, whole, size) = preimage_of-ok parts expected bytes hp in
    let (other, other_given, other_whole, other_size) = preimage_of-ok others expected bytes ho in
    in_order-Agree widths parts others front other hw hv given other_given (whole ∙ sym other_whole)

-- A preimage begins with its first part.
pub preimage_of-take :
    (front : List ℕ) (parts : List Part) {later : List Part} (expected : ℕ) (bytes : List ℕ)
    → parts ≡ ok front ∷ later
    → preimage_of parts expected ≡ ok bytes
    → take (length front) bytes ≡ front
preimage_of-take front parts {later = later} expected bytes e h =
    let (all_bytes, given, whole, size) = preimage_of-ok parts expected bytes h in
    let (first, rest, is_first, _, split) =
      in_order-cons (ok front) later all_bytes (cc (given, e)) in
    let begins : front ++ flatten rest ≡ bytes = cc (whole, split, is_first) in
    subst (λ b. take (length front) b ≡ front) begins (take-append front (flatten rest))
