-- ===== src/Strings/Decimal/RoundTrip.antt =====
-- `Atoi` reads back what `Itoa` prints.
use dor.Base.{
  ℕ, zero, suc, ◌+◌, ◌/◌, ◌%◌, ◌^◌, ◌≤◌, ◌<◌, ◌≡◌, refl, ◌∙◌, ◌≢◌, inl, inr, true, false, some, [],
  ◌∷◌, arith, ltb, Bool-cases, eq_iff, nat_eq, Bytes, bytes_eq, All, All-map, Lacks, pos_part,
  neg_part, int_eq, ℤ, pos, negsuc,
}
use dor.Strings.Decimal.{digits, nat_text, itoa, scan, scan_number, signed, atoi, max_int}

scan-digits : (f n : ℕ) (out : Bytes) → n < f → n < 2 ^ 64 → scan (digits f n out) 0 ≡ scan out n
unfolding scan digits
scan-digits zero n out h fits = absurd (omega arith)
scan-digits (suc f) n out h fits = ground (arith, scan-digits f (n / 10) ((b'0' + n % 10) ∷ out))

-- The bytes that `Itoa` writes: digits and the minus sign.
abbrev pub IsDecimal : ℕ → Type 0
IsDecimal c = (b'-' ≤ c) × (c ≤ b'9') × (c ≢ 46) × (c ≢ 47)

digits-IsDecimal : (f n : ℕ) (out : Bytes) → All IsDecimal out → All IsDecimal (digits f n out)
unfolding digits
digits-IsDecimal zero n out h = h
digits-IsDecimal (suc f) n out h =
    let d : IsDecimal (b'0' + n % 10) = omega arith in
    elim (Bool-cases (ltb n 10)) [
      | inl e ↦ rw e (d, h)
      | inr e ↦ rw e (digits-IsDecimal f (n / 10) ((b'0' + n % 10) ∷ out) (d, h))
    ]

-- The text of a number is not empty and begins with a digit.
digits-head :
    (f n : ℕ) (out : Bytes)
    → n < f
    → (c : ℕ) × (s : Bytes) × (digits f n out ≡ c ∷ s) × (b'0' ≤ c) × (c ≤ b'9')
unfolding digits
digits-head zero n out h = absurd (omega arith)
digits-head (suc f) n out h = elim (Bool-cases (ltb n 10)) [
  | inl e ↦ (b'0' + n % 10, out, rw e, omega arith, omega arith)
  | inr e ↦ rw e (digits-head f (n / 10) ((b'0' + n % 10) ∷ out) (ground arith))
]

nat_text-head : (n : ℕ) → (c : ℕ) × (s : Bytes) × (nat_text n ≡ c ∷ s) × (b'0' ≤ c) × (c ≤ b'9')
unfolding nat_text
nat_text-head n = digits-head (suc n) n [] (omega arith)

scan_number-scan : (s : Bytes) (c : ℕ) (t : Bytes) → s ≡ c ∷ t → scan_number s ≡ scan s 0
unfolding scan_number
scan_number-scan s c t e = rw (e, scan_number) refl

scan_number-nat_text : (n : ℕ) → n < 2 ^ 64 → scan_number (nat_text n) ≡ some n
unfolding nat_text scan
scan_number-nat_text n fits =
    let (c, s, e, _, _) = digits-head (suc n) n [] (omega arith) in
    scan_number-scan _ c s e ∙ scan-digits (suc n) n [] (omega arith) fits

-- The integers of 64 bits.
abbrev pub IsInt64 : ℤ → Type 0
IsInt64 z = (pos_part z ≤ max_int) × (neg_part z ≤ max_int + 1)

atoi_unsigned :
    (s : Bytes) (c : ℕ) (t : Bytes) → s ≡ c ∷ t → b'0' ≤ c → atoi s ≡ signed false (scan_number s)
unfolding atoi
atoi_unsigned s c t e low = rw e (ground (arith, eq_iff c b'-', eq_iff c b'+'))

-- Every 64-bit integer is read back from its print.
pub atoi-itoa : (z : ℤ) → IsInt64 z → atoi (itoa z) ≡ record { value = z; valid = true }
unfolding itoa
atoi-itoa (pos n) h =
    let (c, s, e, low, _) = nat_text-head n in
    atoi_unsigned (nat_text n) c s e low
    ∙ rw (scan_number-nat_text n (omega (arith, h))) (unfold signed in ground arith)
atoi-itoa (negsuc n) h =
    unfold atoi in
    rw (scan_number-nat_text (suc n) (omega (arith, h))) (unfold signed in ground arith)

nat_text-IsDecimal : (n : ℕ) → All IsDecimal (nat_text n)
unfolding nat_text
nat_text-IsDecimal n = digits-IsDecimal (suc n) n [] tt

pub itoa-IsDecimal : (z : ℤ) → All IsDecimal (itoa z)
unfolding itoa
itoa-IsDecimal (pos n) = nat_text-IsDecimal n
itoa-IsDecimal (negsuc n) = (omega arith, nat_text-IsDecimal (suc n))

-- A printed number is not the empty text.
pub itoa_nonempty : (z : ℤ) → itoa z ≢ []
unfolding itoa
itoa_nonempty (pos n) e = let (c, s, f, _, _) = nat_text-head n in ground (arith, e, f)
itoa_nonempty (negsuc n) e = ground (arith, e)

decimal_ne : (b : ℕ) → ¬ IsDecimal b → (c : ℕ) → IsDecimal c → c ≢ b
decimal_ne b h c d e = h (rw e at d)

-- The print of a number lacks every byte that is neither a digit nor the minus sign.
pub itoa-Lacks : (b : ℕ) (z : ℤ) → ¬ IsDecimal b → Lacks b (itoa z)
itoa-Lacks b z h = All-map IsDecimal (λ c. c ≢ b) (decimal_ne b h) (itoa z) (itoa-IsDecimal z)
