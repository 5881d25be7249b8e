-- ===== src/Base/Lists.antt =====
-- Lists measured and indexed by native numbers, under the library's names: Go's slices.
use Prim.Native.Nat.{ℕ, zero, suc, ◌+◌, ◌-◌, ◌<◌, ◌≤◌}
use mathlib.Core.Path.{◌≡◌, refl, sym, ap, ◌∙◌, subst}
use mathlib.Core.Logic.{◌≢◌, ◌⊎◌, inl, inr, ∥∥₁_elim}
use mathlib.Core.List.{Permᴰ, Perm}
use mathlib.Core.List.{List, [], ◌∷◌, ◌++◌, map, reverse}
use mathlib.Core.List.Permᴰ
use mathlib.Core.Option.{Option, none, some}
use native.Mathlib.Omega.{arith}

module _ {ℓ} {A : Type ℓ} where
  abbrev pub length : List A → ℕ
  length [] = 0
  length (x ∷ xs) = suc (length xs)

  -- `s[i]`; `none` is the index out of range.
  abbrev pub get_elem? : List A → ℕ → Option A
  get_elem? [] i = none
  get_elem? (x ∷ xs) zero = some x
  get_elem? (x ∷ xs) (suc i) = get_elem? xs i

  abbrev pub set : List A → ℕ → A → List A
  set [] i v = []
  set (x ∷ xs) zero v = v ∷ xs
  set (x ∷ xs) (suc i) v = x ∷ set xs i v

  abbrev pub take : ℕ → List A → List A
  take zero xs = []
  take (suc n) [] = []
  take (suc n) (x ∷ xs) = x ∷ take n xs

  abbrev pub drop : ℕ → List A → List A
  drop zero xs = xs
  drop (suc n) [] = []
  drop (suc n) (x ∷ xs) = drop n xs

  pub length-append : (xs ys : List A) → length (xs ++ ys) ≡ length xs + length ys
  length-append [] ys = omega arith
  length-append (x ∷ xs) ys = omega (arith, length-append xs ys)

  pub length-take : (n : ℕ) (xs : List A) → n ≤ length xs → length (take n xs) ≡ n
  length-take zero xs h = omega arith
  length-take (suc n) [] h = omega arith
  length-take (suc n) (x ∷ xs) h = omega (arith, length-take n xs (omega arith))

  pub length-drop : (n : ℕ) (xs : List A) → length (drop n xs) ≡ length xs - n
  length-drop zero xs = omega arith
  length-drop (suc n) [] = omega arith
  length-drop (suc n) (x ∷ xs) = omega (arith, length-drop n xs)

  pub take-append-drop : (n : ℕ) (xs : List A) → take n xs ++ drop n xs ≡ xs
  take-append-drop zero xs = refl
  take-append-drop (suc n) [] = refl
  take-append-drop (suc n) (x ∷ xs) = ap (λ t. x ∷ t) (take-append-drop n xs)

  pub take-append : (xs ys : List A) → take (length xs) (xs ++ ys) ≡ xs
  take-append [] ys = refl
  take-append (x ∷ xs) ys = ap (λ t. x ∷ t) (take-append xs ys)

  pub drop-append : (xs ys : List A) → drop (length xs) (xs ++ ys) ≡ ys
  drop-append [] ys = refl
  drop-append (x ∷ xs) ys = drop-append xs ys

module _ {ℓ} {A : Type ℓ} (n : ℕ) (xs ys : List A) where
  pub take_front : length xs ≡ n → take n (xs ++ ys) ≡ xs
  take_front h = subst (λ k. take k (xs ++ ys) ≡ xs) h (take-append xs ys)

  pub drop_front : length xs ≡ n → drop n (xs ++ ys) ≡ ys
  drop_front h = subst (λ k. drop k (xs ++ ys) ≡ ys) h (drop-append xs ys)

module _ {ℓ κ} {A : Type ℓ} where
  -- Every element of the list has the property.
  abbrev pub All : (A → Type κ) → List A → Type κ
  All P [] = Unit
  All P (x ∷ xs) = P x × All P xs

  pub All-append : (P : A → Type κ) (xs ys : List A) → All P xs → All P ys → All P (xs ++ ys)
  All-append P [] ys hx hy = hy
  All-append P (x ∷ xs) ys hx hy = (hx.0, All-append P xs ys hx.1 hy)

  pub All-get_elem? :
      (P : A → Type κ) (xs : List A) (i : ℕ) {x : A} → get_elem? xs i ≡ some x → All P xs → P x
  All-get_elem? P [] i e h = cc
  All-get_elem? P (x ∷ xs) zero {x = y} e h = let same : x ≡ y = cc in subst P same h.0
  All-get_elem? P (x ∷ xs) (suc i) e h = All-get_elem? P xs i e h.1

  pub All-map : (P Q : A → Type κ) → ((x : A) → P x → Q x) → (xs : List A) → All P xs → All Q xs
  All-map P Q f [] h = tt
  All-map P Q f (x ∷ xs) h = (f x h.0, All-map P Q f xs h.1)

-- No byte of the text is `b`.
abbrev pub Lacks : ℕ → List ℕ → Type 0
Lacks b = All (λ c. c ≢ b)

abbrev pub IsBytes : List ℕ → Type 0
IsBytes = All (λ c. c < 256)

module _ {ℓ κ} {A : Type ℓ} {B : Type κ} (f : A → B) where
  pub get_elem?-map :
      (xs : List A) (i : ℕ)
      → get_elem? (map f xs) i ≡ elim (get_elem? xs i) [ none ↦ none | some x ↦ some (f x) ]
  get_elem?-map [] i = refl
  get_elem?-map (x ∷ xs) zero = refl
  get_elem?-map (x ∷ xs) (suc i) = get_elem?-map xs i

  pub length-map : (xs : List A) → length (map f xs) ≡ length xs
  length-map [] = refl
  length-map (x ∷ xs) = ap suc (length-map xs)

  pub set-map : (xs : List A) (i : ℕ) (v : A) → set (map f xs) i (f v) ≡ map f (set xs i v)
  set-map [] i v = refl
  set-map (x ∷ xs) zero v = refl
  set-map (x ∷ xs) (suc i) v = ap (λ t. f x ∷ t) (set-map xs i v)

pub length-set {ℓ} : {A : Type ℓ} (xs : List A) (i : ℕ) (v : A) → length (set xs i v) ≡ length xs
length-set [] i v = refl
length-set (x ∷ xs) zero v = refl
length-set (x ∷ xs) (suc i) v = ap suc (length-set xs i v)

-- `a` is one of the elements.
abbrev pub IsMember : {A : Type 0} → A → List A → Type 0
IsMember a [] = ⊥
IsMember a (x ∷ xs) = (a ≡ x) ⊎ IsMember a xs

module _ {A : Type 0} where
  pub IsMember-Permᴰ : {xs ys : List A} (a : A) → Permᴰ xs ys → IsMember a xs → IsMember a ys
  IsMember-Permᴰ a Permᴰ.nil h = h
  IsMember-Permᴰ a (Permᴰ.cons e d) (inl h) = inl (h ∙ e)
  IsMember-Permᴰ a (Permᴰ.cons e d) (inr h) = inr (IsMember-Permᴰ a d h)
  IsMember-Permᴰ a (Permᴰ.swap e₁ e₂) (inl h) = inr (inl (h ∙ e₁))
  IsMember-Permᴰ a (Permᴰ.swap e₁ e₂) (inr (inl h)) = inl (h ∙ e₂)
  IsMember-Permᴰ a (Permᴰ.swap e₁ e₂) (inr (inr h)) = inr (inr h)
  IsMember-Permᴰ a (Permᴰ.trans d₁ d₂) h = IsMember-Permᴰ a d₂ (IsMember-Permᴰ a d₁ h)

  pub length-Permᴰ : {xs ys : List A} → Permᴰ xs ys → length xs ≡ length ys
  length-Permᴰ Permᴰ.nil = refl
  length-Permᴰ (Permᴰ.cons e d) = ap suc (length-Permᴰ d)
  length-Permᴰ (Permᴰ.swap e₁ e₂) = refl
  length-Permᴰ (Permᴰ.trans d₁ d₂) = length-Permᴰ d₁ ∙ length-Permᴰ d₂

  pub length-Perm : {xs ys : List A} → Perm xs ys → length xs ≡ length ys
  length-Perm p = ∥∥₁_elim p (hlevel) length-Permᴰ

  pub length-reverse : (xs : List A) → length (reverse xs) ≡ length xs
  length-reverse xs = length-Permᴰ (Permᴰ.reverse xs)

  -- A step that may use that the element is in the list.
  pub All-map-IsMember {κ μ} :
      (P : A → Type κ) (Q : A → Type μ) (xs : List A)
      → ((x : A) → IsMember x xs → P x → Q x)
      → All P xs
      → All Q xs
  All-map-IsMember P Q [] step h = tt
  All-map-IsMember P Q (x ∷ xs) step (h, hs) =
      (step x (inl refl) h, All-map-IsMember P Q xs (λ y member. step y (inr member)) hs)

  pub IsMember-append : (a : A) (xs ys : List A) → IsMember a (xs ++ (a ∷ ys))
  IsMember-append a [] ys = inl refl
  IsMember-append a (x ∷ xs) ys = inr (IsMember-append a xs ys)

  pub take-all : (n : ℕ) (xs : List A) → length xs ≤ n → take n xs ≡ xs
  take-all zero [] h = refl
  take-all zero (x ∷ xs) h = absurd (omega arith)
  take-all (suc n) [] h = refl
  take-all (suc n) (x ∷ xs) h = ap (λ t. x ∷ t) (take-all n xs (omega arith))

module _ {κ} {A : Type 0} (P : A → Type κ) where
  pub All-Permᴰ : {xs ys : List A} → Permᴰ xs ys → All P xs → All P ys
  All-Permᴰ Permᴰ.nil h = h
  All-Permᴰ (Permᴰ.cons e d) (h, hs) = (subst P e h, All-Permᴰ d hs)
  All-Permᴰ (Permᴰ.swap e₁ e₂) (h, (h', hs)) = (subst P e₂ h', (subst P e₁ h, hs))
  All-Permᴰ (Permᴰ.trans d₁ d₂) h = All-Permᴰ d₂ (All-Permᴰ d₁ h)

  pub All-reverse : (xs : List A) → All P xs → All P (reverse xs)
  All-reverse xs h = All-Permᴰ (Permᴰ.symm (Permᴰ.reverse xs)) h

  pub All-IsProp : ((a : A) → IsProp (P a)) → (xs : List A) → IsProp (All P xs)
  All-IsProp P_prop [] = hlevel
  All-IsProp P_prop (x ∷ xs) = hlevel (P_prop x, All-IsProp P_prop xs)

  pub All-Perm : ((a : A) → IsProp (P a)) → {xs ys : List A} → Perm xs ys → All P xs → All P ys
  All-Perm P_prop {xs} {ys} p h = ∥∥₁_elim p (All-IsProp P_prop ys) (λ d. All-Permᴰ d h)

  pub All-halves : (xs ys : List A) → All P (xs ++ ys) → All P xs × All P ys
  All-halves [] ys h = (tt, h)
  All-halves (x ∷ xs) ys (h, hs) = let (left, right) = All-halves xs ys hs in ((h, left), right)

  pub All-IsMember : (a : A) (xs : List A) → All P xs → IsMember a xs → P a
  All-IsMember a [] h m = absurd m
  All-IsMember a (x ∷ xs) (h, hs) (inl e) = subst P (sym e) h
  All-IsMember a (x ∷ xs) (h, hs) (inr m) = All-IsMember a xs hs m
