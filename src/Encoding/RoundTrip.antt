-- ===== src/Encoding/RoundTrip.antt =====
-- Decoding undoes encoding, and encoded text is free of the separators of the program's formats.
use dor.Base.{
  ℕ, ◌+◌, ◌*◌, ◌/◌, ◌%◌, ◌≤◌, ◌<◌, ◌≡◌, refl, ap, ◌∙◌, ◌≢◌, inl, inr, false, Option, none, some, [],
  ◌∷◌, arith, Bool-cases, ◌==◌, nat_eq, Bytes, bytes_eq, All, All-map, Lacks, IsBytes, int_eq,
}
use dor.Strings.{is_space}
use dor.Strings.Trim.{IsInk}
use dor.Encoding.{
  decoded_groups, bytes_or_none, decoded_bytes, encode_char, decode_char, pad, encode, pair_bytes,
  triple_bytes, group_bytes, last_group, decode_groups, strip_newlines, decode,
}

-- The characters of base64 text, the padding included.
abbrev pub IsBase64 : ℕ → Type 0
IsBase64 c = (43 ≤ c) × (c ≤ 122) × (c ≢ b',') × (c ≢ b':') × (c ≢ b';') × (c ≢ b'|')

encode_char-IsBase64 : (s : ℕ) → s < 64 → IsBase64 (encode_char s)
unfolding encode_char
encode_char-IsBase64 s h = ground arith

decode_char-encode_char : (s : ℕ) → s < 64 → decode_char (encode_char s) ≡ some s
unfolding encode_char decode_char
decode_char-encode_char s h = ground arith

encode_char-ne-pad : (s : ℕ) → s < 64 → (encode_char s == pad) ≡ false
unfolding encode_char
encode_char-ne-pad s h = ground arith

pub encode-IsBase64 : (s : Bytes) → IsBytes s → All IsBase64 (encode s)
unfolding encode
encode-IsBase64 [] h = tt
encode-IsBase64 (a ∷ []) (ha, _) = (
  encode_char-IsBase64 (a / 4) (omega arith),
  (encode_char-IsBase64 (a % 4 * 16) (omega arith), (omega arith, (omega arith, tt))),
)
encode-IsBase64 (a ∷ b ∷ []) (ha, (hb, _)) = (
  encode_char-IsBase64 (a / 4) (omega arith),
  (
    encode_char-IsBase64 (a % 4 * 16 + b / 16) (omega arith),
    (encode_char-IsBase64 (b % 16 * 4) (omega arith), (omega arith, tt)),
  ),
)
encode-IsBase64 (a ∷ b ∷ c ∷ s) (ha, (hb, (hc, hs))) = (
  encode_char-IsBase64 (a / 4) (omega arith),
  (
    encode_char-IsBase64 (a % 4 * 16 + b / 16) (omega arith),
    (
      encode_char-IsBase64 (b % 16 * 4 + c / 64) (omega arith),
      (encode_char-IsBase64 (c % 64) (omega arith), encode-IsBase64 s hs),
    ),
  ),
)

-- Encoded text lacks each byte that is no base64 character.
pub encode-Lacks : (b : ℕ) (s : Bytes) → ¬ IsBase64 b → IsBytes s → Lacks b (encode s)
encode-Lacks b s h bytes =
    All-map IsBase64 (λ c. c ≢ b) (λ c d e. h (rw e at d)) (encode s) (encode-IsBase64 s bytes)

IsBase64-IsInk : (b : ℕ) → IsBase64 b → IsInk b
unfolding is_space
IsBase64-IsInk b h = ground (arith, h)

-- Encoded text holds no white space.
pub encode-IsInk : (s : Bytes) → IsBytes s → All IsInk (encode s)
encode-IsInk s bytes = All-map IsBase64 IsInk IsBase64-IsInk (encode s) (encode-IsBase64 s bytes)

-- Three bytes are four characters.
pub encode_three :
    (a b e : ℕ) (s : Bytes)
    → (w : ℕ) × (x : ℕ) × (y : ℕ) × (z : ℕ) × (encode (a ∷ b ∷ e ∷ s) ≡ w ∷ x ∷ y ∷ z ∷ encode s)
unfolding encode
encode_three a b e s = (
  encode_char (a / 4),
  encode_char (a % 4 * 16 + b / 16),
  encode_char (b % 16 * 4 + e / 64),
  encode_char (e % 64),
  refl,
)

strip_newlines_id : (s : Bytes) → All IsBase64 s → strip_newlines s ≡ s
unfolding strip_newlines
strip_newlines_id [] h = refl
strip_newlines_id (c ∷ s) (hc, hs) = ground (arith, strip_newlines_id s hs)

decode_groups-encode : (s : Bytes) → IsBytes s → decode_groups (encode s) ≡ some s
unfolding encode decode_groups last_group pair_bytes triple_bytes group_bytes
decode_groups-encode [] h = refl
decode_groups-encode (a ∷ []) (ha, _) = ground (
  arith,
  decode_char-encode_char (a / 4) (omega arith),
  decode_char-encode_char (a % 4 * 16) (omega arith),
)
decode_groups-encode (a ∷ b ∷ []) (ha, (hb, _)) = ground (
  arith,
  encode_char-ne-pad (b % 16 * 4) (omega arith),
  decode_char-encode_char (a / 4) (omega arith),
  decode_char-encode_char (a % 4 * 16 + b / 16) (omega arith),
  decode_char-encode_char (b % 16 * 4) (omega arith),
)
decode_groups-encode (a ∷ b ∷ c ∷ s) (ha, (hb, (hc, hs))) = ground (
  arith,
  encode_char-ne-pad (c % 64) (omega arith),
  decode_char-encode_char (a / 4) (omega arith),
  decode_char-encode_char (a % 4 * 16 + b / 16) (omega arith),
  decode_char-encode_char (b % 16 * 4 + c / 64) (omega arith),
  decode_char-encode_char (c % 64) (omega arith),
  decode_groups-encode s hs,
)

-- Every sequence of bytes is read back from its base64 text.
pub decode-encode : (s : Bytes) → IsBytes s → decode (encode s) ≡ some s
unfolding decode
decode-encode s h =
    ap decode_groups (strip_newlines_id (encode s) (encode-IsBase64 s h)) ∙ decode_groups-encode s h

group_bytes-rest :
    (p q r s : Option ℕ) (o : Option Bytes)
    → (b : Bytes) → group_bytes p q r s o ≡ some b
    → (rest : Bytes) × (o ≡ some rest)
unfolding group_bytes
group_bytes-rest p q r s none b h = ground (arith, h)
group_bytes-rest p q r s (some rest) b h = (rest, refl)

last_group_bytes :
    (w x y : ℕ) (s b : Bytes)
    → last_group w x y s ≡ some b
    → bytes_or_none (last_group w x y []) ≡ b
unfolding bytes_or_none last_group
last_group_bytes w x y [] b h = ap bytes_or_none h
last_group_bytes w x y (c ∷ s) b h = ground (arith, h)

-- Where there is no error, both results are the same.
decoded_groups-decode_groups : (s b : Bytes) → decode_groups s ≡ some b → decoded_groups s ≡ b
unfolding decode_groups decoded_groups last_group bytes_or_none
decoded_groups-decode_groups [] b h = ground (arith, h)
decoded_groups-decode_groups (w ∷ []) b h = ground (arith, h)
decoded_groups-decode_groups (w ∷ x ∷ []) b h = ground (arith, h)
decoded_groups-decode_groups (w ∷ x ∷ y ∷ []) b h = ground (arith, h)
decoded_groups-decode_groups (w ∷ x ∷ y ∷ z ∷ s) b h = elim (Bool-cases (z == pad)) [
  | inl e ↦ rw (e) (last_group_bytes w x y s b (rw (e) at h))
  | inr e ↦
      let made : group_bytes (decode_char w) (decode_char x) (decode_char y) (decode_char z)
            (decode_groups s)
          ≡ some b =
        rw (e) at h in
      let (rest, found) = group_bytes-rest _ _ _ _ (decode_groups s) b made in
      rw (e, decoded_groups-decode_groups s rest found) (ap bytes_or_none (rw (found) at made))
]

pub decoded_bytes-encode : (s : Bytes) → IsBytes s → decoded_bytes (encode s) ≡ s
unfolding decoded_bytes
decoded_bytes-encode s h =
    ap decoded_groups (strip_newlines_id (encode s) (encode-IsBase64 s h))
    ∙ decoded_groups-decode_groups (encode s) s (decode_groups-encode s h)
