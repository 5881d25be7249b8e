-- ===== src/Model/Shuffle.antt =====
-- The Fisher-Yates shuffle: `rand.Shuffle`, and the same loop written out in `SendWithRetry`.
pub mod Maps
use mathlib.Core.List.{Perm}
use mathlib.Core.List.Perm
use dor.Base.{
  ℕ, zero, suc, ◌+◌, ◌-◌, ◌%◌, ◌≡◌, refl, inl, inr, none, some, List, [], ◌∷◌, arith, Option-cases,
  length, get_elem?, set,
}

-- `xs[i], xs[j] = xs[j], xs[i]`; the indices are in range wherever it is called.
unfoldable pub swap {ℓ} : {A : Type ℓ} → List A → ℕ → ℕ → List A
swap xs i j = elim (get_elem? xs i) [
  | none ↦ xs
  | some x ↦ elim (get_elem? xs j) [ none ↦ xs | some y ↦ set (set xs i y) j x ]
]

-- The rounds for `i` down to 1; `draws i` is what the random source gives, reduced to `[0, i]`.
unfoldable pub shuffle_from {ℓ} : {A : Type ℓ} → (ℕ → ℕ) → ℕ → List A → List A
shuffle_from draws zero xs = xs
shuffle_from draws (suc i) xs = shuffle_from draws i (swap xs (suc i) (draws (suc i) % (suc i + 1)))

unfoldable pub shuffle {ℓ} : {A : Type ℓ} → (ℕ → ℕ) → List A → List A
shuffle draws xs = shuffle_from draws (length xs - 1) xs

module _ {ℓ} {A : Type ℓ} where
  -- A write exchanges the element that was there for the one that is written.
  set-Perm :
      (xs : List A) (i : ℕ) (x y : A) → get_elem? xs i ≡ some x → Perm (y ∷ xs) (x ∷ set xs i y)
  set-Perm [] i x y h = cc
  set-Perm (a ∷ xs) zero x y h = let same : a ≡ x = cc in rw (← same) (Perm.swap a y xs)
  set-Perm (a ∷ xs) (suc i) x y h =
      Perm.trans (Perm.swap a y xs)
        (Perm.trans (Perm.cons a (set-Perm xs i x y h)) (Perm.swap x a (set xs i y)))

  get_elem?-set :
      (xs : List A) (i j : ℕ) (x y : A)
      → get_elem? xs i ≡ some x
      → get_elem? xs j ≡ some y
      → get_elem? (set xs i y) j ≡ some y
  get_elem?-set [] i j x y h k = cc
  get_elem?-set (a ∷ xs) zero zero x y h k = refl
  get_elem?-set (a ∷ xs) zero (suc j) x y h k = k
  get_elem?-set (a ∷ xs) (suc i) zero x y h k = k
  get_elem?-set (a ∷ xs) (suc i) (suc j) x y h k = get_elem?-set xs i j x y h k

  swapped-Perm :
      (xs : List A) (i j : ℕ) (x y : A)
      → get_elem? xs i ≡ some x
      → get_elem? xs j ≡ some y
      → Perm (set (set xs i y) j x) xs
  swapped-Perm xs i j x y h k = Perm.symm (
      Perm.cons_inv (
        Perm.trans (set-Perm xs i x y h)
          (set-Perm (set xs i y) j y x (get_elem?-set xs i j x y h k))))

  swap_outside : (xs : List A) (i j : ℕ) → get_elem? xs i ≡ none → swap xs i j ≡ xs
  unfolding swap
  swap_outside xs i j h = ground arith

  swap_outside_right : (xs : List A) (i j : ℕ) → get_elem? xs j ≡ none → swap xs i j ≡ xs
  unfolding swap
  swap_outside_right xs i j h = ground arith

  swap_inside :
      (xs : List A) (i j : ℕ) (x y : A)
      → get_elem? xs i ≡ some x
      → get_elem? xs j ≡ some y
      → swap xs i j ≡ set (set xs i y) j x
  unfolding swap
  swap_inside xs i j x y h k = ground arith

  pub swap-Perm : (xs : List A) (i j : ℕ) → Perm (swap xs i j) xs
  swap-Perm xs i j = elim (Option-cases (get_elem? xs i)) [
    | inl h ↦ rw (swap_outside xs i j h) (Perm.refl xs)
    | inr (x, h) ↦ elim (Option-cases (get_elem? xs j)) [
      | inl k ↦ rw (swap_outside_right xs i j k) (Perm.refl xs)
      | inr (y, k) ↦ rw (swap_inside xs i j x y h k) (swapped-Perm xs i j x y h k)
    ]
  ]

  shuffle_from-Perm : (draws : ℕ → ℕ) (i : ℕ) (xs : List A) → Perm (shuffle_from draws i xs) xs
  unfolding shuffle_from
  shuffle_from-Perm draws zero xs = Perm.refl xs
  shuffle_from-Perm draws (suc i) xs =
      let j = draws (suc i) % (suc i + 1) in
      Perm.trans (shuffle_from-Perm draws i (swap xs (suc i) j)) (swap-Perm xs (suc i) j)

  -- A shuffle loses no element and repeats none, whatever the random source gives.
  pub shuffle-Perm : (draws : ℕ → ℕ) (xs : List A) → Perm (shuffle draws xs) xs
  unfolding shuffle
  shuffle-Perm draws xs = shuffle_from-Perm draws (length xs - 1) xs
