-- ===== src/Encoding.antt =====
-- Go's `base64.StdEncoding`, through which keys and ciphertexts pass on every wire of the program.
pub mod RoundTrip
use dor.Base.{
  ℕ, ◌+◌, ◌-◌, ◌*◌, ◌/◌, ◌%◌, ◌&&◌, ◌||◌, Option, none, some, [], ◌∷◌, ltb, leb, if◌then◌else◌,
  ◌==◌, nat_eq, Bytes, bytes_eq, int_eq,
}

encode_char : ℕ → ℕ
encode_char s =
    if ltb s 26
    then b'A' + s
    else if ltb s 52
    then b'a' + (s - 26)
    else if ltb s 62
    then b'0' + (s - 52)
    else if s == 62
    then b'+'
    else b'/'

decode_char : ℕ → Option ℕ
decode_char c =
    if leb b'A' c && leb c b'Z'
    then some (c - b'A')
    else if leb b'a' c && leb c b'z'
    then some (c - b'a' + 26)
    else if leb b'0' c && leb c b'9'
    then some (c - b'0' + 52)
    else if c == b'+'
    then some 62
    else if c == b'/'
    then some 63
    else none

abbrev pad : ℕ
pad = b'='

-- `EncodeToString`: three bytes are four characters, and the last group is padded.
unfoldable pub encode : Bytes → Bytes
unfolding encode_char
encode [] = []
encode (a ∷ []) = encode_char (a / 4) ∷ encode_char (a % 4 * 16) ∷ pad ∷ pad ∷ []
encode (a ∷ b ∷ []) =
    encode_char (a / 4) ∷ encode_char (a % 4 * 16 + b / 16) ∷ encode_char (b % 16 * 4) ∷ pad ∷ []
encode (a ∷ b ∷ c ∷ s) =
    encode_char (a / 4)
    ∷ encode_char (a % 4 * 16 + b / 16)
    ∷ encode_char (b % 16 * 4 + c / 64)
    ∷ encode_char (c % 64)
    ∷ encode s

-- Bytes from the values of two, three or four characters.
pair_bytes : Option ℕ → Option ℕ → Option Bytes
pair_bytes (some p) (some q) = some ((p * 4 + q / 16) ∷ [])
pair_bytes _ _ = none

triple_bytes : Option ℕ → Option ℕ → Option ℕ → Option Bytes
triple_bytes (some p) (some q) (some r) = some ((p * 4 + q / 16) ∷ (q % 16 * 16 + r / 4) ∷ [])
triple_bytes _ _ _ = none

group_bytes : Option ℕ → Option ℕ → Option ℕ → Option ℕ → Option Bytes → Option Bytes
group_bytes (some p) (some q) (some r) (some t) (some rest) =
    some ((p * 4 + q / 16) ∷ (q % 16 * 16 + r / 4) ∷ (r % 4 * 64 + t) ∷ rest)
group_bytes _ _ _ _ _ = none

-- A group that ends in padding is the last one.
last_group : ℕ → ℕ → ℕ → Bytes → Option Bytes
last_group w x y (c ∷ s) = none
last_group w x y [] =
    if y == pad
    then pair_bytes (decode_char w) (decode_char x)
    else triple_bytes (decode_char w) (decode_char x) (decode_char y)

decode_groups : Bytes → Option Bytes
decode_groups [] = some []
decode_groups (w ∷ x ∷ y ∷ z ∷ s) =
    let rest = decode_groups s in
    if z == pad
    then last_group w x y s
    else group_bytes (decode_char w) (decode_char x) (decode_char y) (decode_char z) rest
decode_groups _ = none

strip_newlines : Bytes → Bytes
strip_newlines [] = []
strip_newlines (c ∷ s) =
    let rest = strip_newlines s in if c == b'\n' || c == b'\r' then rest else c ∷ rest

-- `DecodeString`, which skips line ends.
unfoldable pub decode : Bytes → Option Bytes
unfolding decode_groups strip_newlines last_group group_bytes pair_bytes triple_bytes decode_char
decode s = decode_groups (strip_newlines s)

-- The bytes that `DecodeString` returns next to an error too: those of the groups before the first
-- bad one. Padding ends the text; what follows it is an error, but the bytes before it are returned.
bytes_or_none : Option Bytes → Bytes
bytes_or_none none = []
bytes_or_none (some s) = s

decoded_groups : Bytes → Bytes
decoded_groups (w ∷ x ∷ y ∷ z ∷ s) =
    let rest = decoded_groups s in
    bytes_or_none (
      if z == pad
      then last_group w x y []
      else group_bytes (decode_char w) (decode_char x) (decode_char y) (decode_char z) (some rest))
decoded_groups _ = []

unfoldable pub decoded_bytes : Bytes → Bytes
unfolding decoded_groups bytes_or_none strip_newlines last_group group_bytes pair_bytes triple_bytes
    decode_char
decoded_bytes s = decoded_groups (strip_newlines s)
