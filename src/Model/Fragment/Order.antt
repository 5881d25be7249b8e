-- ===== src/Model/Fragment/Order.antt =====
-- Numbered chunks, and a buffer that they were put into in any order.
use mathlib.Core.List.{Permᴰ}
use dor.Base.{
  ℕ, suc, ◌≤◌, ◌<◌, ◌≡◌, refl, ap, ◌∙◌, none, some, List, [], ◌∷◌, ◌++◌, arith, nat_eq, Bytes,
  bytes_eq, length, Dict, lookup, insert, lookup_cons, lookup-insert, int_eq, ℤ, pos,
}
use dor.Model.Fragment.{assemble}

-- The chunks with their indices, from `i` on.
abbrev pub number : ℕ → List Bytes → Dict ℕ Bytes
number i [] = []
number i (c ∷ cs) = (i, c) ∷ number (suc i) cs

abbrev pub concat : List Bytes → Bytes
concat [] = []
concat (c ∷ cs) = c ++ concat cs

-- No index comes twice.
abbrev pub Distinct : Dict ℕ Bytes → Type 0
Distinct [] = Unit
Distinct ((i, c) ∷ ds) = (lookup i ds ≡ none) × Distinct ds

number_below : (k i : ℕ) (cs : List Bytes) → k < i → lookup k (number i cs) ≡ none
unfolding lookup
number_below k i [] h = refl
number_below k i (c ∷ cs) h = ground (arith, number_below k (suc i) cs)

pub Distinct-number : (i : ℕ) (cs : List Bytes) → Distinct (number i cs)
Distinct-number i [] = tt
Distinct-number i (c ∷ cs) = (number_below i (suc i) cs (omega arith), Distinct-number (suc i) cs)

pub length-number : (i : ℕ) (cs : List Bytes) → length (number i cs) ≡ length cs
length-number i [] = refl
length-number i (c ∷ cs) = ap suc (length-number (suc i) cs)

-- The order of a list without repeated indices has no effect on what is looked up in it.
pub Permᴰ-lookup :
    {xs ys : Dict ℕ Bytes}
    → Permᴰ xs ys
    → Distinct xs
    → Distinct ys × ((j : ℕ) → lookup j ys ≡ lookup j xs) × (length ys ≡ length xs)
Permᴰ-lookup Permᴰ.nil h = (tt, λ j. refl, refl)
Permᴰ-lookup (Permᴰ.cons {a = a} {b = b} {l₁ = l} {l₂ = m} e d) (new, h) =
    let (h', same, count) = Permᴰ-lookup d h in
    (
      (rw (← e) (same a.0 ∙ new), h'),
      λ j. rw (← e) (rw (lookup_cons a.0 j a.1 m, lookup_cons a.0 j a.1 l, same j) refl),
      ap suc count,
    )
Permᴰ-lookup (Permᴰ.swap {a = a} {b = b} {l = l} e₁ e₂) (newa, (newb, h)) =
    let apart = lookup_cons b.0 a.0 b.1 l in
    (
      rw (← e₁) (
          rw (← e₂) (ground (arith, apart, lookup_cons a.0 b.0 a.1 l), (ground (arith, apart), h))),
      λ j. rw (← e₁) (
          rw (← e₂) (
            ground (
              arith,
              apart,
              lookup_cons b.0 j b.1 (a ∷ l),
              lookup_cons a.0 j a.1 l,
              lookup_cons a.0 j a.1 (b ∷ l),
              lookup_cons b.0 j b.1 l,
            ))),
      refl,
    )
Permᴰ-lookup (Permᴰ.trans d₁ d₂) h =
    let (h', same, count) = Permᴰ-lookup d₁ h in
    let (h'', same', count') = Permᴰ-lookup d₂ h' in (h'', λ j. same' j ∙ same j, count' ∙ count)

unfoldable pub insert_all : Dict ℕ Bytes → Dict ℤ Bytes → Dict ℤ Bytes
insert_all [] buf = buf
insert_all ((i, c) ∷ ds) buf = insert_all ds (insert (pos i) c buf)

pub lookup-insert_all :
    (ds : Dict ℕ Bytes) (buf : Dict ℤ Bytes) (j : ℕ)
    → Distinct ds
    → lookup (pos j) (insert_all ds buf)
      ≡ elim (lookup j ds) [ none ↦ lookup (pos j) buf | some c ↦ some c ]
unfolding insert_all
lookup-insert_all [] buf j h = unfold lookup in refl
lookup-insert_all ((i, c) ∷ ds) buf j (new, h) =
    lookup-insert_all ds (insert (pos i) c buf) j h
    ∙ ground (arith, lookup-insert (pos i) (pos j) c buf, lookup_cons i j c ds)

pub assemble-number :
    (cs : List Bytes) (i : ℕ) (buf : Dict ℤ Bytes)
    → ((j : ℕ) → i ≤ j → lookup (pos j) buf ≡ lookup j (number i cs))
    → assemble buf i (length cs) ≡ concat cs
unfolding assemble
assemble-number [] i buf h = refl
assemble-number (c ∷ cs) i buf h =
    let rest =
      assemble-number cs (suc i) buf
        λ j after. h j (omega arith) ∙ ground (arith, lookup_cons i j c (number (suc i) cs)) in
    ground (arith, h i (omega arith), lookup_cons i i c (number (suc i) cs), rest)
