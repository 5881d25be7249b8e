-- ===== src/Directory/Ping/Judged.antt =====
-- The rows of a table that a tick of `TestPing` judges, each by itself.
use dor.Base.{
  ◌≡◌, refl, sym, ap, ◌∙◌, subst, ◌≢◌, inl, inr, Bool, true, false, [], ◌∷◌, ◌++◌, append_assoc,
  if◌then◌else◌, All, IsMember, All-Permᴰ, ◌+ℤ◌, ltb_ℤ, half_ℤ, ℤ, pos,
}
use dor.Directory.Table.{NodeInfo, Table, with_score}
use mathlib.Core.List.{Permᴰ}

-- The rows that take the place of a row whose name was probed with this outcome and this score: a
-- score below 100 goes up by 5, but not above 100; without an answer it is halved, and below 5 the
-- row goes.
abbrev pub judged : Bool → ℤ → NodeInfo → Table
judged true score m =
    if ltb_ℤ score (pos 100)
    then with_score (if ltb_ℤ (score +ℤ pos 5) (pos 100) then score +ℤ pos 5 else pos 100) m ∷ []
    else m ∷ []
judged false score m = if ltb_ℤ (half_ℤ score) (pos 5) then [] else with_score (half_ℤ score) m ∷ []

abbrev pub each : (NodeInfo → Table) → Table → Table
each f [] = []
each f (m ∷ table) = f m ++ each f table

pub All-all : (P : NodeInfo → Type 0) → ((m : NodeInfo) → P m) → (table : Table) → All P table
All-all P h [] = tt
All-all P h (m ∷ table) = (h m, All-all P h table)

pub members :
    (P : NodeInfo → Type 0) (table : Table)
    → ((m : NodeInfo) → IsMember m table → P m)
    → All P table
members P [] h = tt
members P (m ∷ table) h = (h m (inl refl), members P table (λ x at. h x (inr at)))

pub All-member :
    (P : NodeInfo → Type 0) (a : NodeInfo) (table : Table) → All P table → IsMember a table → P a
All-member P a [] h member = absurd member
All-member P a (m ∷ table) (h, hs) (inl e) = subst P (sym e) h
All-member P a (m ∷ table) (h, hs) (inr member) = All-member P a table hs member

-- Every row by its own probe.
abbrev pub aged : (NodeInfo → Bool) → Table → Table
aged reach table = each (λ m. judged (reach m) m.availability_score m) table

abbrev pub HasDistinctNames : Table → Type 0
HasDistinctNames [] = Unit
HasDistinctNames (m ∷ table) = All (λ other. other.name ≢ m.name) table × HasDistinctNames table

pub HasDistinctNames-Permᴰ : {s t : Table} → Permᴰ s t → HasDistinctNames s → HasDistinctNames t
HasDistinctNames-Permᴰ Permᴰ.nil h = h
HasDistinctNames-Permᴰ (Permᴰ.cons {a} {b} {l₁} {l₂} e d) (h, hs) = (
  All-Permᴰ (λ other. other.name ≢ b.name) d
      (subst (λ (x : NodeInfo). All (λ other. other.name ≢ x.name) l₁) e h),
  HasDistinctNames-Permᴰ d hs,
)
HasDistinctNames-Permᴰ (Permᴰ.swap {a} {b} {a'} {b'} {l} e₁ e₂) ((apart, ha), (hb, hs)) = (
  (
    λ same.
        apart
          (ap (λ (x : NodeInfo). x.name) e₂ ∙ sym same ∙ sym (ap (λ (x : NodeInfo). x.name) e₁)),
    subst (λ (x : NodeInfo). All (λ other. other.name ≢ x.name) l) e₂ hb,
  ),
  (subst (λ (x : NodeInfo). All (λ other. other.name ≢ x.name) l) e₁ ha, hs),
)
HasDistinctNames-Permᴰ (Permᴰ.trans d₁ d₂) h =
    HasDistinctNames-Permᴰ d₂ (HasDistinctNames-Permᴰ d₁ h)

pub each-append :
    (f : NodeInfo → Table) (xs ys : Table) → each f (xs ++ ys) ≡ each f xs ++ each f ys
each-append f [] ys = refl
each-append f (x ∷ xs) ys =
    ap (λ t. f x ++ t) (each-append f xs ys) ∙ sym (append_assoc (f x) (each f xs) (each f ys))

pub each-each :
    (f g : NodeInfo → Table) (xs : Table) → each g (each f xs) ≡ each (λ m. each g (f m)) xs
each-each f g [] = refl
each-each f g (x ∷ xs) =
    each-append g (f x) (each f xs) ∙ ap (λ t. each g (f x) ++ t) (each-each f g xs)

pub each-congr :
    (f g : NodeInfo → Table) (xs : Table) → All (λ m. f m ≡ g m) xs → each f xs ≡ each g xs
each-congr f g [] h = refl
each-congr f g (x ∷ xs) (h, hs) = rw (h) (ap (λ t. g x ++ t) (each-congr f g xs hs))

pub each_self : (f : NodeInfo → Table) (xs : Table) → All (λ m. f m ≡ m ∷ []) xs → each f xs ≡ xs
each_self f [] h = refl
each_self f (x ∷ xs) (h, hs) = rw (h) (ap (λ t. x ∷ t) (each_self f xs hs))
