-- ===== src/Strings/Trim.antt =====
-- `strings.TrimSpace` on the lines that the program writes.
use dor.Base.{
  ℕ, ◌≡◌, refl, sym, ap, ◌∙◌, ◌≢◌, false, [], ◌∷◌, ◌++◌, reverse, arith, Bytes, All, All-map,
  All-Permᴰ, ℤ,
}
use dor.Strings.{itoa, codes, is_space, trim_left, trim_space}
use dor.Strings.Decimal.RoundTrip.{IsDecimal, itoa-IsDecimal, itoa_nonempty}
use mathlib.Core.List.Permᴰ
use mathlib.Core.List.{reverse-append, reverse-reverse}

abbrev pub IsInk : ℕ → Type 0
IsInk c = is_space c ≡ false

-- The end of the text is not empty and holds no space.
abbrev pub EndsInInk : Bytes → Type 0
EndsInInk s = (front : Bytes) × (tail : Bytes) × (s ≡ front ++ tail) × (tail ≢ []) × All IsInk tail

pub EndsInInk-cons : (c : ℕ) (s : Bytes) → EndsInInk s → EndsInInk (c ∷ s)
EndsInInk-cons c s (front, tail, e, ne, ink) = (c ∷ front, tail, ap (λ t. c ∷ t) e, ne, ink)

pub EndsInInk-append : (t s : Bytes) → EndsInInk s → EndsInInk (t ++ s)
EndsInInk-append [] s h = h
EndsInInk-append (c ∷ t) s h = EndsInInk-cons c (t ++ s) (EndsInInk-append t s h)

pub All-EndsInInk : (s : Bytes) → s ≢ [] → All IsInk s → EndsInInk s
All-EndsInInk s ne ink = ([], s, refl, ne, ink)

trim_left-append : (t u : Bytes) → t ≢ [] → All IsInk t → trim_left (t ++ u) ≡ t ++ u
unfolding trim_left
trim_left-append [] u ne ink = absurd (ne refl)
trim_left-append (c ∷ t) u ne (ink, inks) = rw ink refl

trim_left-reverse : (s : Bytes) → EndsInInk s → trim_left (reverse s) ≡ reverse s
trim_left-reverse s (front, tail, e, ne, ink) =
    let turned = ap reverse e ∙ reverse-append front tail in
    ap trim_left turned
    ∙ trim_left-append (reverse tail) (reverse front)
        (λ empty. ne (sym (reverse-reverse tail) ∙ ap reverse empty))
        (All-Permᴰ IsInk (Permᴰ.symm (Permᴰ.reverse tail)) ink)
    ∙ sym turned

-- A line loses its line feed and nothing else.
pub trim_space-line :
    (c : ℕ) (s : Bytes) → IsInk c → EndsInInk (c ∷ s) → trim_space ((c ∷ s) ++ codes "\n") ≡ c ∷ s
unfolding trim_space trim_left is_space
trim_space-line c s ink ends =
    ap (λ left. reverse (trim_left (reverse left)))
      (trim_left-append (c ∷ []) (s ++ codes "\n") (λ e. ground (arith, e)) (ink, tt))
    ∙ ap (λ turned. reverse (trim_left turned)) (reverse-append (c ∷ s) (codes "\n"))
    ∙ ap reverse (trim_left-reverse (c ∷ s) ends)
    ∙ reverse-reverse (c ∷ s)

-- A line without spaces.
pub trim_space-ink : (s : Bytes) → All IsInk s → trim_space (s ++ codes "\n") ≡ s
unfolding trim_space trim_left is_space
trim_space-ink [] inks = refl
trim_space-ink (c ∷ s) (ink, inks) =
    trim_space-line c s ink (All-EndsInInk (c ∷ s) (λ e. ground (arith, e)) (ink, inks))

decimal-IsInk : (c : ℕ) → IsDecimal c → IsInk c
unfolding is_space
decimal-IsInk c d = ground (arith, d)

pub itoa-EndsInInk : (z : ℤ) → EndsInInk (itoa z)
itoa-EndsInInk z =
    All-EndsInInk (itoa z) (itoa_nonempty z)
      (All-map IsDecimal IsInk decimal-IsInk (itoa z) (itoa-IsDecimal z))
