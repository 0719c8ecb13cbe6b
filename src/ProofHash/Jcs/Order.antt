-- ===== src/ProofHash/Jcs/Order.antt =====
-- The order of texts by code units is a strict linear order, so that sorting forgets the order of
-- members with different keys.
use pakta.Base.{
  ℕ, Bool, true, false, List, [], ◌∷◌, ◌≡◌, ◌⊎◌, refl, sym, ap, arith, ltb, Bool-cases, inl, inr,
  insert_by,
}
use pakta.ProofHash.Jcs.{before_text}

-- Two texts that differ are one before the other, and not both.
pub before_text-cases :
    (a b : List ℕ)
    → (a ≡ b)
      ⊎ ((before_text a b ≡ true) × (before_text b a ≡ false))
      ⊎ ((before_text a b ≡ false) × (before_text b a ≡ true))
before_text-cases [] [] = inl refl
before_text-cases [] (y ∷ ys) = inr (inl (refl, refl))
before_text-cases (x ∷ xs) [] = inr (inr (refl, refl))
before_text-cases (x ∷ xs) (y ∷ ys) = elim (Bool-cases (ltb x y)) [
  | inl less ↦
      let back : ltb y x ≡ false = ground arith in inr (inl (rw less refl, rw (back, less) refl))
  | inr no_less ↦ elim (Bool-cases (ltb y x)) [
    | inl more ↦ inr (inr (rw (no_less, more) refl, rw more refl))
    | inr no_more ↦
        let same : x ≡ y = ground arith in
        elim (before_text-cases xs ys) [
          | inl e ↦ inl (cc (same, e))
          | inr (inl (p, q)) ↦ inr (inl (rw (no_less, no_more) p, rw (no_more, no_less) q))
          | inr (inr (p, q)) ↦ inr (inr (rw (no_less, no_more) p, rw (no_more, no_less) q))
        ]
  ]
]

-- What is not after `b` and is before `a` has `b` before `a`.
pub before_text-between :
    (y a b : List ℕ) → before_text y b ≡ false → before_text y a ≡ true → before_text b a ≡ true
before_text-between [] [] b h k = cc k
before_text-between [] (a ∷ ends) [] h k = refl
before_text-between [] (a ∷ ends) (b ∷ bs) h k = cc h
before_text-between (y ∷ ys) [] b h k = cc k
before_text-between (y ∷ ys) (a ∷ ends) [] h k = refl
before_text-between (y ∷ ys) (a ∷ ends) (b ∷ bs) h k =
    ground (arith, before_text-between ys ends bs)

module _ {A : Type 0} (before : A → A → Bool)
    (between : (y a b : A) → before y b ≡ false → before y a ≡ true → before b a ≡ true) where
  insert_by-ordered :
      (a b : A) (xs : List A)
      → before a b ≡ true
      → before b a ≡ false
      → insert_by before a (insert_by before b xs) ≡ insert_by before b (insert_by before a xs)
  insert_by-ordered a b [] ab ba = rw (ab, ba) refl
  insert_by-ordered a b (y ∷ ys) ab ba = elim (Bool-cases (before y a)) [
    | inl ya ↦ elim (Bool-cases (before y b)) [
      | inl yb ↦ rw (ya, yb, ya) (ap (λ zs. y ∷ zs) (insert_by-ordered a b ys ab ba))
      | inr not_yb ↦ cc (between y a b not_yb ya, ba)
    ]
    | inr not_ya ↦ elim (Bool-cases (before y b)) [
      | inl yb ↦ rw (not_ya, yb, not_ya, ab) refl
      | inr not_yb ↦ rw (not_ya, not_yb, ab, ba) refl
    ]
  ]

  -- Two elements of which one is before the other go into a sorted list in either order.
  pub insert_by-swap :
      (a b : A) (xs : List A)
      → ((before a b ≡ true) × (before b a ≡ false)) ⊎ ((before a b ≡ false) × (before b a ≡ true))
      → insert_by before a (insert_by before b xs) ≡ insert_by before b (insert_by before a xs)
  insert_by-swap a b xs (inl (ab, ba)) = insert_by-ordered a b xs ab ba
  insert_by-swap a b xs (inr (ab, ba)) = sym (insert_by-ordered b a xs ba ab)
