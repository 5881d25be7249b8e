-- ===== src/Model/Shuffle/Maps.antt =====
-- A shuffle moves positions: it commutes with a change of the elements.
use dor.Base.{
  ℕ, zero, suc, ◌+◌, ◌-◌, ◌%◌, ◌≡◌, refl, inl, inr, List, map, arith, Option-cases, length,
  get_elem?, set, get_elem?-map, length-map, set-map, length-set,
}
use dor.Model.Shuffle.{swap, shuffle_from, shuffle}

module _ {ℓ} {A : Type ℓ} where
  pub length-swap : (xs : List A) (i j : ℕ) → length (swap xs i j) ≡ length xs
  unfolding swap
  length-swap xs i j = elim (Option-cases (get_elem? xs i)) [
    | inl h ↦ ground arith
    | inr (x, h) ↦ elim (Option-cases (get_elem? xs j)) [
      | inl k ↦ ground arith
      | inr (y, k) ↦ ground (arith, length-set (set xs i y) j x, length-set xs i y)
    ]
  ]

module _ {ℓ κ} {A : Type ℓ} {B : Type κ} (f : A → B) where
  swap-map : (xs : List A) (i j : ℕ) → swap (map f xs) i j ≡ map f (swap xs i j)
  unfolding swap
  swap-map xs i j = elim (Option-cases (get_elem? xs i)) [
    | inl h ↦ ground (arith, get_elem?-map f xs i)
    | inr (x, h) ↦ elim (Option-cases (get_elem? xs j)) [
      | inl k ↦ ground (arith, get_elem?-map f xs i, get_elem?-map f xs j)
      | inr (y, k) ↦ ground (
        arith,
        get_elem?-map f xs i,
        get_elem?-map f xs j,
        set-map f xs i y,
        set-map f (set xs i y) j x,
      )
    ]
  ]

  shuffle_from-map :
      (draws : ℕ → ℕ) (i : ℕ) (xs : List A)
      → shuffle_from draws i (map f xs) ≡ map f (shuffle_from draws i xs)
  unfolding shuffle_from
  shuffle_from-map draws zero xs = refl
  shuffle_from-map draws (suc i) xs =
      let j = draws (suc i) % (suc i + 1) in
      rw (swap-map xs (suc i) j) (shuffle_from-map draws i (swap xs (suc i) j))

  pub shuffle-map :
      (draws : ℕ → ℕ) (xs : List A) → shuffle draws (map f xs) ≡ map f (shuffle draws xs)
  unfolding shuffle
  shuffle-map draws xs = rw (length-map f xs) (shuffle_from-map draws (length xs - 1) xs)
