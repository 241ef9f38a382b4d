-- ===== src/Golang/Print.antt =====
-- What the programs use of `fmt`, `strings` and `encoding/hex` to print. The verbs %q and %.4f and
-- the number of characters of a text are parameters.
use proto_ip.Prelude.{
  Bool, List, [], false, if◌then◌else◌, list_eq, ltb, nat_eq, suc, true, zero, ℕ, ◌%◌, ◌++◌, ◌+◌,
  ◌-◌, ◌/◌, ◌==◌, ◌∷◌,
}
use proto_ip.Golang.Text.{Text, codes}

pub record Format : Type 0 where
  -- the verb %q
  pub quote : Text → Text
  -- the verb %.4f of a float64
  pub fixed_four : ℕ → Text
  -- utf8.RuneCountInString, by which fmt pads
  pub characters : Text → ℕ

-- strings.Join(parts, sep)
unfoldable pub join : List Text → Text → Text
join [] sep = []
join (x ∷ []) sep = x
join (x ∷ y ∷ xs) sep = x ++ (sep ++ join (y ∷ xs) sep)

-- strings.ReplaceAll(s, old, new) for a text of one byte
unfoldable pub replace_byte : ℕ → Text → Text → Text
replace_byte old new [] = []
replace_byte old new (c ∷ s) =
    let rest = replace_byte old new s in if c == old then new ++ rest else c ∷ rest

-- The verb %t
unfoldable pub bool_text : Bool → Text
bool_text true = codes "true"
bool_text false = codes "false"

hex_digit : ℕ → ℕ
hex_digit n = if ltb n 10 then b'0' + n else b'a' + (n - 10)

-- hex.EncodeToString
unfoldable pub hex_string : List ℕ → Text
unfolding hex_digit
hex_string [] = []
hex_string (b ∷ bs) = hex_digit (b / 16) ∷ hex_digit (b % 16) ∷ hex_string bs

spaces_text : ℕ → Text
spaces_text zero = []
spaces_text (suc n) = 32 ∷ spaces_text n

-- The verb %-20s
unfoldable pub pad_twenty : Format → Text → Text
unfolding spaces_text
pad_twenty f s = s ++ spaces_text (20 - f.characters s)
