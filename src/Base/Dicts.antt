-- ===== src/Base/Dicts.antt =====
-- Go's maps, as association lists: a write replaces the entry of its key or adds one at the end,
-- so that the length is the number of keys. No function of the program reads the order.
use dor.Base.Tests.{Eq, ◌==◌, eq_iff, if◌then◌else◌}
use dor.Base.Lists.{length}
use mathlib.Core.Path.{◌≡◌, refl}
use mathlib.Core.List.{List, [], ◌∷◌}
use mathlib.Core.Option.{Option, none, some}
use Prim.Native.Nat.{suc}
use native.Mathlib.Omega.{arith}

abbrev pub Dict {ℓ} : Type ℓ → Type ℓ → Type ℓ
Dict K V = List (K × V)

module _ {ℓ} {K V : Type ℓ} ⦃e : Eq K⦄ where
  unfoldable pub lookup : K → Dict K V → Option V
  lookup k [] = none
  lookup k ((j, v) ∷ m) = if j == k then some v else lookup k m

  unfoldable pub insert : K → V → Dict K V → Dict K V
  insert key val [] = (key, val) ∷ []
  insert key val ((other, old) ∷ more) =
      let rest = insert key val more in
      if other == key then (key, val) ∷ more else (other, old) ∷ rest

  unfoldable pub delete : K → Dict K V → Dict K V
  delete k [] = []
  delete k ((j, w) ∷ m) = let rest = delete k m in if j == k then rest else (j, w) ∷ rest

  pub lookup_cons :
      (k j : K) (v : V) (m : Dict K V)
      → lookup j ((k, v) ∷ m) ≡ (if k == j then some v else lookup j m)
  unfolding lookup
  lookup_cons k j v m = refl

  pub lookup-insert :
      (key asked : K) (val : V) (m : Dict K V)
      → lookup asked (insert key val m) ≡ (if key == asked then some val else lookup asked m)
  unfolding lookup insert
  lookup-insert key asked val [] = refl
  lookup-insert key asked val ((other, old) ∷ more) =
      let below = lookup-insert key asked val more in
      ground (arith, below, eq_iff other asked, eq_iff other key, eq_iff key asked)

  pub lookup-delete :
      (k j : K) (m : Dict K V) → lookup j (delete k m) ≡ (if k == j then none else lookup j m)
  unfolding lookup delete
  lookup-delete k j [] = ground arith
  lookup-delete k j ((i, w) ∷ m) =
      ground (arith, eq_iff k j, eq_iff i k, eq_iff i j, lookup-delete k j m)

  -- A new key makes the map longer by one, an old one leaves its length.
  pub length-insert :
      (k : K) (v : V) (m : Dict K V)
      → length (insert k v m) ≡ elim (lookup k m) [ none ↦ suc (length m) | some w ↦ length m ]
  unfolding lookup insert
  length-insert k v [] = refl
  length-insert k v ((j, w) ∷ m) = ground (arith, length-insert k v m)

  pub ruleset dict_laws = (lookup-insert, lookup-delete)
