-- ===== src/Base/Results.antt =====
-- What a Go call can end with: a value, an error value, or a run-time panic.
use mathlib.Core.Path.{◌≡◌, refl}
use mathlib.Core.List.{List}
use mathlib.Core.Option.{none, some}
use Prim.Native.Nat.{ℕ}
use native.Mathlib.Omega.{arith}
use dor.Base.Lists.{get_elem?}

pub data Error : Type 0 where
  invalid_format : Error
  base64_error : Error
  no_matching_key : Error
  no_public_key : Error
  key_size : Error
  cipher_error : Error
  rsa_error : Error
  split_error : Error
  network_error : Error
  server_error : Error
  database_error : Error

pub data Result {ℓ} (A : Type ℓ) : Type ℓ where
  ok : A → Result A
  err : Error → Result A
  panic : Result A

infixl 5 ◌>>=◌
abbrev pub ◌>>=◌ {ℓ κ} : {A : Type ℓ} {B : Type κ} (m : Result A) (next : A → Result B) → Result B
panic >>= next = panic
err e >>= next = err e
ok a >>= next = next a

-- Inversion of a successful bind.
pub >>=-eq-ok {ℓ κ} :
    {A : Type ℓ} {B : Type κ} {y : B} (m : Result A) (next : A → Result B)
    → (m >>= next) ≡ ok y
    → (x : A) × (m ≡ ok x) × (next x ≡ ok y)
>>=-eq-ok panic next made = cc
>>=-eq-ok (err e) next made = cc
>>=-eq-ok (ok x) next made = (x, refl, made)

pub ok-injective {ℓ} : {A : Type ℓ} {a b : A} → ok a ≡ ok b → a ≡ b
ok-injective h = cc

-- `s[i]`, which panics out of range.
abbrev pub index {ℓ} : {A : Type ℓ} → List A → ℕ → Result A
index xs i = elim (get_elem? xs i) [ none ↦ panic | some x ↦ ok x ]

pub index-eq-ok {ℓ} :
    {A : Type ℓ} (xs : List A) (i : ℕ) {x : A} → index xs i ≡ ok x → get_elem? xs i ≡ some x
index-eq-ok xs i h = ground arith

pub >>=-congr {ℓ κ} :
    {A : Type ℓ} {B : Type κ} (m : Result A) (f g : A → Result B)
    → ((a : A) → f a ≡ g a)
    → (m >>= f) ≡ (m >>= g)
>>=-congr (ok a) f g h = h a
>>=-congr (err e) f g h = refl
>>=-congr panic f g h = refl

infixl 5 ◌>>◌
abbrev pub ◌>>◌ {ℓ} : {B : Type ℓ} (first : Result (Unit {0})) (second : Result B) → Result B
first >> second = first >>= λ done. second
