-- ===== src/Geoip/Rpki/AsNumbers.antt =====
-- The AS numbers of a dump: a number, or a string with or without the letters AS.
use proto_ip.Prelude.{
  All-append, Bool, [], all, ap, arith, false, if◌then◌else◌, is_empty, list_eq, ltb, nat_eq, none,
  refl, some, true, ℕ, ◌++◌, ◌+◌, ◌<◌, ◌==◌, ◌^◌, ◌∙◌, ◌∷◌, ◌≡◌,
}
use proto_ip.Geoip.Rpki.{parse_vrp_asn}
use proto_ip.Golang.Text.{Text, codes, cut_prefix, decimal, is_digit, parse_uint32, trim_prefix}
use proto_ip.Golang.Text.Decimal.{Within-decimal, is_empty-decimal, parse_uint32-decimal}
use proto_ip.Golang.Text.Trim.{
  Within, differs_from, graphic, trim_byte-around, trim_byte-none, trim_space-Within,
}

-- How a number is spelled behind the letters.
pub data Spelling : Type 0 where
  unmarked capitals lower_case : Spelling

pub letters : Spelling → Text
letters unmarked = []
letters capitals = codes "AS"
letters lower_case = codes "as"

-- The raw text of the asn key: a JSON string or a JSON number.
pub written : Bool → Spelling → ℕ → Text
written true m n = 34 ∷ ((letters m ++ decimal n) ++ 34 ∷ [])
written false m n = letters m ++ decimal n

no_letters :
    (c : ℕ) (m : Spelling) (s : Text)
    → (c == b'A') ≡ false
    → (c == b'a') ≡ false
    → trim_prefix (trim_prefix (letters m ++ c ∷ s) (codes "AS")) (codes "as") ≡ c ∷ s
unfolding trim_prefix cut_prefix letters
no_letters c unmarked s not_upper not_lower =
    rw
      (
        not_upper, trim_prefix, cut_prefix, not_lower, trim_prefix, cut_prefix, not_upper,
        trim_prefix, cut_prefix,
      )
      refl
no_letters c capitals s not_upper not_lower = rw (not_lower, trim_prefix, cut_prefix) refl
no_letters c lower_case s not_upper not_lower = refl

trim_prefix-letters :
    (m : Spelling) (s : Text)
    → is_empty s ≡ false
    → Within is_digit s
    → trim_prefix (trim_prefix (letters m ++ s) (codes "AS")) (codes "as") ≡ s
trim_prefix-letters m [] h k = cc
trim_prefix-letters m (c ∷ s) h k = no_letters c m s (ground (arith, k)) (ground (arith, k))

Within-letters :
    (m : Spelling) (inner : ℕ → Bool) (s : Text)
    → all inner (codes "ASas") ≡ true
    → Within inner s
    → Within inner (letters m ++ s)
unfolding letters
Within-letters unmarked inner s h k = k
Within-letters capitals inner s h k = ground (arith, h, k)
Within-letters lower_case inner s h k = ground (arith, h, k)

Within-spelled :
    (inner : ℕ → Bool) (m : Spelling) (n : ℕ)
    → all inner (codes "ASas") ≡ true
    → ((d : ℕ) → d < 10 → inner (b'0' + d) ≡ true)
    → Within inner (letters m ++ decimal n)
Within-spelled inner m n h digit =
    Within-letters m inner (decimal n) h (Within-decimal inner n digit)

is_empty-spelled : (m : Spelling) (n : ℕ) → is_empty (letters m ++ decimal n) ≡ false
unfolding letters
is_empty-spelled unmarked n = is_empty-decimal n
is_empty-spelled capitals n = refl
is_empty-spelled lower_case n = refl

read-spelled :
    (m : Spelling) (n : ℕ)
    → parse_uint32 (trim_prefix (trim_prefix (letters m ++ decimal n) (codes "AS")) (codes "as"))
      ≡ (if ltb n (2 ^ 32) then some n else none)
read-spelled m n =
    ap parse_uint32 (
      trim_prefix-letters m (decimal n) (is_empty-decimal n)
        (Within-decimal is_digit n (λ d h. ground arith)))
    ∙ parse_uint32-decimal n

-- A spelled number is printable and has no quotes.
graphic-spelled : (m : Spelling) (n : ℕ) → Within graphic (letters m ++ decimal n)
unfolding graphic
graphic-spelled m n = Within-spelled graphic m n refl (λ d h. ground arith)

quoteless-spelled : (m : Spelling) (n : ℕ) → Within (differs_from 34) (letters m ++ decimal n)
unfolding differs_from
quoteless-spelled m n = Within-spelled (differs_from 34) m n refl (λ d h. ground arith)

-- An AS number is read however it is spelled, if it has 32 bits, and is refused otherwise.
pub parse_vrp_asn-written :
    (quoted : Bool) (m : Spelling) (n : ℕ)
    → parse_vrp_asn (written quoted m n) ≡ (if ltb n (2 ^ 32) then some n else none)
unfolding parse_vrp_asn written graphic
parse_vrp_asn-written true m n =
    let bare = letters m ++ decimal n in
    let ascii : Within graphic (34 ∷ (bare ++ 34 ∷ [])) =
      (refl, All-append (λ c. graphic c ≡ true) bare (34 ∷ []) (graphic-spelled m n) (refl, _)) in
    rw
      (
        trim_space-Within (34 ∷ (bare ++ 34 ∷ [])) ascii,
        trim_byte-around 34 bare (is_empty-spelled m n) (quoteless-spelled m n),
      )
      (read-spelled m n)
parse_vrp_asn-written false m n =
    let bare = letters m ++ decimal n in
    rw
      (trim_space-Within bare (graphic-spelled m n), trim_byte-none 34 bare (quoteless-spelled m n))
      (read-spelled m n)
