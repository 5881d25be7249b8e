-- ===== src/Strings/Decimal.antt =====
-- Go's `strconv.Itoa` and `strconv.Atoi` in base ten, with 64-bit integers.
pub mod RoundTrip
use dor.Base.{
  ℕ, zero, suc, ◌+◌, ◌-◌, ◌*◌, ◌/◌, ◌%◌, ◌^◌, Bool, true, false, ◌&&◌, Option, none, some, [], ◌∷◌,
  ltb, leb, if◌then◌else◌, ◌==◌, nat_eq, Bytes, bytes_eq, sub_ℕ, int_eq, ℤ, pos, negsuc,
}

-- The decimal digits of a number in front of `out`; the first argument bounds their count.
digits : ℕ → ℕ → Bytes → Bytes
digits zero n out = out
digits (suc f) n out =
    let more = digits f (n / 10) ((b'0' + n % 10) ∷ out) in
    if ltb n 10 then (b'0' + n % 10) ∷ out else more

unfoldable pub nat_text : ℕ → Bytes
unfolding digits
nat_text n = digits (suc n) n []

-- `strconv.Itoa`, and `%d` of `fmt`.
unfoldable pub itoa : ℤ → Bytes
itoa (pos n) = nat_text n
itoa (negsuc n) = b'-' ∷ nat_text (suc n)

-- The number that the digits spell behind `n`; `none` at any other byte. Past 64 bits the scan stops,
-- as `ParseUint` does, and what follows does not matter.
scan : Bytes → ℕ → Option ℕ
scan [] n = some n
scan (c ∷ s) n =
    let next = n * 10 + (c - b'0') in
    let rest = scan s next in
    if leb b'0' c && leb c b'9' then (if ltb next (2 ^ 64) then rest else some next) else none

-- No digit at all is an error.
scan_number : Bytes → Option ℕ
unfolding scan
scan_number [] = none
scan_number (c ∷ s) = scan (c ∷ s) 0

-- The result and whether `err` is nil. On an overflow the result is the nearest integer, and on
-- any other error 0: callers that drop the error go on with it.
pub record Parsed : Type 0 where
  pub value : ℤ
  pub valid : Bool

abbrev pub max_int : ℕ
max_int = 2 ^ 63 - 1

signed : Bool → Option ℕ → Parsed
signed minus none = record { value = pos 0; valid = false }
signed false (some n) =
    if leb n max_int
    then record { value = pos n; valid = true }
    else record { value = pos max_int; valid = false }
signed true (some n) =
    if leb n (max_int + 1)
    then record { value = sub_ℕ 0 n; valid = true }
    else record { value = negsuc max_int; valid = false }

unfoldable pub atoi : Bytes → Parsed
unfolding scan_number signed
atoi [] = signed false none
atoi (c ∷ s) =
    if c == b'-'
    then signed true (scan_number s)
    else if c == b'+'
    then signed false (scan_number s)
    else signed false (scan_number (c ∷ s))
