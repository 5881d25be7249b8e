-- ===== src/Strings/Text.antt =====
-- The other functions of Go's `strings` that the program calls.
use Prim.Native.Char.{code}
use Prim.Native.String.{String}
use dor.Base.{
  ℕ, suc, ◌-◌, Bool, true, false, ◌&&◌, ◌||◌, Option, none, some, [], ◌∷◌, reverse, leb,
  if◌then◌else◌, ◌==◌, nat_eq, Bytes, bytes_eq, length, drop, int_eq,
}

-- The bytes of a literal, which is ASCII everywhere in the program.
abbrev pub codes : String → Bytes
codes String.[] = []
codes (String.◌∷◌ c s) = code c ∷ codes s

abbrev pub has_prefix : Bytes → Bytes → Bool
has_prefix s [] = true
has_prefix [] (p ∷ ps) = false
has_prefix (c ∷ s) (p ∷ ps) = c == p && has_prefix s ps

unfoldable pub trim_prefix : Bytes → Bytes → Bytes
trim_prefix s p = if has_prefix s p then drop (length p) s else s

unfoldable pub contains : Bytes → ℕ → Bool
contains [] b = false
contains (c ∷ s) b = c == b || contains s b

-- ASCII white space: tab, line feed, vertical tab, form feed, carriage return, space.
unfoldable pub is_space : ℕ → Bool
is_space c = c == 32 || (leb 9 c && leb c 13)

unfoldable pub trim_left : Bytes → Bytes
trim_left [] = []
trim_left (c ∷ s) = let rest = trim_left s in if is_space c then rest else c ∷ s

-- `strings.TrimSpace` on text whose outer characters are ASCII.
unfoldable pub trim_space : Bytes → Bytes
unfolding trim_left
trim_space s = reverse (trim_left (reverse (trim_left s)))

capital : ℕ → ℕ
capital c = if leb b'a' c && leb c b'z' then c - 32 else c

-- `strings.ToUpper`, as far as the result can be a word of ASCII letters: the long s and the dotless
-- i are the characters beyond ASCII that become such letters. Others stay as they are here.
unfoldable pub to_upper : Bytes → Bytes
unfolding capital
to_upper [] = []
to_upper (c ∷ []) = capital c ∷ []
to_upper (c ∷ d ∷ s) = elim (c == 197 && d == 191) [
  | true ↦ b'S' ∷ to_upper s
  | false ↦ elim (c == 196 && d == 177) [
    | true ↦ b'I' ∷ to_upper s
    | false ↦ capital c ∷ to_upper (d ∷ s)
  ]
]

-- Where the last `b` stands, as `strings.LastIndex`; `none` is -1.
unfoldable pub last_index : Bytes → ℕ → Option ℕ
last_index [] b = none
last_index (c ∷ s) b = elim (last_index s b) [
  | some i ↦ some (suc i)
  | none ↦ if c == b then some 0 else none
]
