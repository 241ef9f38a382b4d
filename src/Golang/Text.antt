-- ===== src/Golang/Text.antt =====
-- Go strings as lists of bytes, with the functions of `strings` and `strconv` that the source calls.
pub mod Decimal
pub mod Split
pub mod Trim
use Prim.Native.Char.{code}
use Prim.Native.String.{String}
use mathlib.Core.List.{reverse}
use proto_ip.Prelude.{
  Bool, List, Option, [], any, false, get_elem?, if◌then◌else◌, leb, length, list_eq, ltb, map,
  nat_eq, none, some, suc, true, zero, ℕ, ◌%◌, ◌&&◌, ◌*◌, ◌+◌, ◌-◌, ◌/◌, ◌==◌, ◌^◌, ◌∷◌,
}

abbrev pub Text : Type 0
Text = List ℕ

-- The code points of a literal: its bytes, if it is ASCII.
abbrev pub codes : String → Text
codes String.[] = []
codes (String.◌∷◌ c s) = code c ∷ codes s

-- What is left behind a prefix, if the text has it.
unfoldable pub cut_prefix : Text → Text → Option Text
cut_prefix s [] = some s
cut_prefix [] (p ∷ ps) = none
cut_prefix (c ∷ s) (p ∷ ps) = let rest = cut_prefix s ps in if c == p then rest else none

-- strings.HasPrefix(s, p)
unfoldable pub has_prefix : Text → Text → Bool
unfolding cut_prefix
has_prefix s p = elim (cut_prefix s p) [ none ↦ false | some _ ↦ true ]

-- strings.TrimPrefix(s, p)
unfoldable pub trim_prefix : Text → Text → Text
unfolding cut_prefix
trim_prefix s p = elim (cut_prefix s p) [ none ↦ s | some rest ↦ rest ]

-- strings.HasSuffix(s, p)
unfoldable pub has_suffix : Text → Text → Bool
unfolding has_prefix
has_suffix s p = has_prefix (reverse s) (reverse p)

-- strings.TrimSuffix(s, p)
unfoldable pub trim_suffix : Text → Text → Text
unfolding trim_prefix
trim_suffix s p = reverse (trim_prefix (reverse s) (reverse p))

-- `if i := strings.IndexByte(s, b); i >= 0 { s = s[:i] }`
unfoldable pub before_byte : ℕ → Text → Text
before_byte b [] = []
before_byte b (c ∷ s) = let rest = before_byte b s in if c == b then [] else c ∷ rest

push_first : ℕ → List Text → List Text
push_first c [] = (c ∷ []) ∷ []
push_first c (f ∷ fs) = (c ∷ f) ∷ fs

-- strings.Split(s, sep) for a separator of one byte: never empty.
unfoldable pub split : Text → ℕ → List Text
unfolding push_first
split [] sep = [] ∷ []
split (c ∷ s) sep = let rest = split s sep in if c == sep then [] ∷ rest else push_first c rest

-- unicode.IsSpace: the encodings of the white space characters.
abbrev spaces : List Text
spaces =
    (9 ∷ [])
    ∷ (10 ∷ [])
    ∷ (11 ∷ [])
    ∷ (12 ∷ [])
    ∷ (13 ∷ [])
    ∷ (32 ∷ [])
    ∷ (0xc2 ∷ 0x85 ∷ [])
    ∷ (0xc2 ∷ 0xa0 ∷ [])
    ∷ (0xe1 ∷ 0x9a ∷ 0x80 ∷ [])
    ∷ (0xe2 ∷ 0x80 ∷ 0x80 ∷ [])
    ∷ (0xe2 ∷ 0x80 ∷ 0x81 ∷ [])
    ∷ (0xe2 ∷ 0x80 ∷ 0x82 ∷ [])
    ∷ (0xe2 ∷ 0x80 ∷ 0x83 ∷ [])
    ∷ (0xe2 ∷ 0x80 ∷ 0x84 ∷ [])
    ∷ (0xe2 ∷ 0x80 ∷ 0x85 ∷ [])
    ∷ (0xe2 ∷ 0x80 ∷ 0x86 ∷ [])
    ∷ (0xe2 ∷ 0x80 ∷ 0x87 ∷ [])
    ∷ (0xe2 ∷ 0x80 ∷ 0x88 ∷ [])
    ∷ (0xe2 ∷ 0x80 ∷ 0x89 ∷ [])
    ∷ (0xe2 ∷ 0x80 ∷ 0x8a ∷ [])
    ∷ (0xe2 ∷ 0x80 ∷ 0xa8 ∷ [])
    ∷ (0xe2 ∷ 0x80 ∷ 0xa9 ∷ [])
    ∷ (0xe2 ∷ 0x80 ∷ 0xaf ∷ [])
    ∷ (0xe2 ∷ 0x81 ∷ 0x9f ∷ [])
    ∷ (0xe3 ∷ 0x80 ∷ 0x80 ∷ [])
    ∷ []

-- Behind the first of some texts that stands at the front.
cut_any : List Text → Text → Option Text
unfolding cut_prefix
cut_any [] s = none
cut_any (p ∷ ps) s =
    let rest = cut_any ps s in elim (cut_prefix s p) [ none ↦ rest | some r ↦ some r ]

-- Each round drops at least one byte, so the length of the text is fuel enough.
trim_front : List Text → ℕ → Text → Text
unfolding cut_any
trim_front ps zero s = s
trim_front ps (suc n) s = elim (cut_any ps s) [ none ↦ s | some r ↦ trim_front ps n r ]

-- strings.TrimSpace(s)
unfoldable pub trim_space : Text → Text
unfolding trim_front
trim_space s =
    let front = trim_front spaces (length s) s in
    reverse (trim_front (map reverse spaces) (length front) (reverse front))

-- strings.Trim(s, b) for a cut set of one byte.
unfoldable pub trim_byte : ℕ → Text → Text
unfolding trim_front
trim_byte b s =
    let front = trim_front ((b ∷ []) ∷ []) (length s) s in
    reverse (trim_front ((b ∷ []) ∷ []) (length front) (reverse front))

abbrev pub is_digit : ℕ → Bool
is_digit c = leb b'0' c && leb c b'9'

scan_digits : ℕ → ℕ → Text → Option ℕ
scan_digits limit n [] = some n
scan_digits limit n (c ∷ s) =
    let m = n * 10 + (c - b'0') in
    let rest = scan_digits limit m s in if is_digit c && leb m limit then rest else none

-- strconv.ParseUint(s, 10, 32)
unfoldable pub parse_uint32 : Text → Option ℕ
unfolding scan_digits
parse_uint32 [] = none
parse_uint32 (c ∷ s) = scan_digits (2 ^ 32 - 1) 0 (c ∷ s)

lower_byte : ℕ → ℕ
lower_byte c = if leb b'A' c && leb c b'Z' then c + 32 else c

-- strings.ToLower(s); beyond ASCII it maps `unicode.ToLower` over the characters, a parameter.
unfoldable pub to_lower : (Text → Text) → Text → Text
unfolding lower_byte
to_lower unicode s = if any (λ c. leb 128 c) s then unicode s else map lower_byte s

-- The decimal digits of `n` before `acc`; `fuel` above the number of digits is enough.
decimal_from : ℕ → ℕ → Text → Text
decimal_from zero n acc = acc
decimal_from (suc fuel) n acc =
    let rest = decimal_from fuel (n / 10) ((b'0' + n % 10) ∷ acc) in
    if ltb n 10 then (b'0' + n) ∷ acc else rest

-- The verb %d
unfoldable pub decimal : ℕ → Text
unfolding decimal_from
decimal n = decimal_from (suc n) n []

-- field (or the empty text, where the index is out of range, as the callers check)
abbrev pub nth : ℕ → List Text → Text
nth i fs = elim (get_elem? fs i) [ none ↦ [] | some f ↦ f ]
