-- ===== src/Strings/Split.antt =====
-- Go's `strings.Split`, `SplitN` and `Join` at a separator of one byte, the only kind in use.
use dor.Base.{
  ℕ, zero, suc, ◌≡◌, refl, ap, ◌∙◌, List, [], ◌∷◌, ◌++◌, arith, if◌then◌else◌, ◌==◌, eq_iff,
  eq_refl, nat_eq, Bytes, bytes_eq, All, Lacks, int_eq,
}

-- One more byte in front of the first part.
abbrev pub push : ℕ → List Bytes → List Bytes
push c [] = (c ∷ []) ∷ []
push c (p ∷ ps) = (c ∷ p) ∷ ps

unfoldable pub split : Bytes → ℕ → List Bytes
split [] sep = [] ∷ []
split (c ∷ s) sep = let rest = split s sep in if c == sep then [] ∷ rest else push c rest

-- At most `cuts` cuts: `strings.SplitN(s, sep, n)` is `split_max (n - 1) s sep` for positive n.
unfoldable pub split_max : ℕ → Bytes → ℕ → List Bytes
split_max zero s sep = s ∷ []
split_max (suc k) [] sep = [] ∷ []
split_max (suc k) (c ∷ s) sep =
    let cut = split_max k s sep in
    let more = split_max (suc k) s sep in if c == sep then [] ∷ cut else push c more

unfoldable pub join : List Bytes → Bytes → Bytes
join [] sep = []
join (p ∷ []) sep = p
join (p ∷ q ∷ ps) sep = p ++ (sep ++ join (q ∷ ps) sep)

module _ (sep : ℕ) where
  pub split-field :
      (p rest : Bytes) → Lacks sep p → split (p ++ sep ∷ rest) sep ≡ p ∷ split rest sep
  unfolding split
  split-field [] rest h = ground (arith, eq_refl sep)
  split-field (c ∷ p) rest (hc, hp) = ground (arith, eq_iff c sep, split-field p rest hp)

  pub split-single : (p : Bytes) → Lacks sep p → split p sep ≡ p ∷ []
  unfolding split
  split-single [] h = refl
  split-single (c ∷ p) (hc, hp) = ground (arith, eq_iff c sep, split-single p hp)

  pub split_max-field :
      (k : ℕ) (p rest : Bytes)
      → Lacks sep p
      → split_max (suc k) (p ++ sep ∷ rest) sep ≡ p ∷ split_max k rest sep
  unfolding split_max
  split_max-field k [] rest h = ground (arith, eq_refl sep)
  split_max-field k (c ∷ p) rest (hc, hp) =
      ground (arith, eq_iff c sep, split_max-field k p rest hp)

  pub split_max-single : (k : ℕ) (p : Bytes) → Lacks sep p → split_max k p sep ≡ p ∷ []
  unfolding split_max
  split_max-single zero p h = refl
  split_max-single (suc k) [] h = refl
  split_max-single (suc k) (c ∷ p) (hc, hp) =
      ground (arith, eq_iff c sep, split_max-single (suc k) p hp)

  -- Splitting a join gives the parts back, if there is a part and none holds the separator.
  pub split-join :
      (p : Bytes) (ps : List Bytes)
      → All (Lacks sep) (p ∷ ps)
      → split (join (p ∷ ps) (sep ∷ [])) sep ≡ p ∷ ps
  unfolding join
  split-join p [] (hp, _) = split-single p hp
  split-join p (q ∷ ps) (hp, hs) =
      split-field p (join (q ∷ ps) (sep ∷ [])) hp ∙ ap (λ t. p ∷ t) (split-join q ps hs)

  pub split_max_pair :
      (p rest : Bytes) → Lacks sep p → split_max 1 (p ++ sep ∷ rest) sep ≡ p ∷ rest ∷ []
  unfolding split_max
  split_max_pair p rest h = split_max-field 0 p rest h
