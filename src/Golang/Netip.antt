-- ===== src/Golang/Netip.antt =====
-- Addresses and prefixes of `net/netip`.
pub mod Laws
pub mod Probe
use proto_ip.Prelude.{
  Bool, Eq, List, Option, [], arith, false, if◌then◌else◌, is_empty, leb, list_beq_iff, list_eq,
  ltb, nat_eq, none, not, some, suc, true, zero, ℕ, ◌%◌, ◌&&◌, ◌*◌, ◌++◌, ◌+◌, ◌-◌, ◌/◌, ◌<◌, ◌==◌,
  ◌^◌, ◌↔◌, ◌∷◌, ◌≡◌,
}
use proto_ip.Golang.Ints.{big_endian, put_uint64}
use proto_ip.Golang.Text.{Text}

-- `invalid` is the zero Addr; `ip6` holds 128 bits and a zone, empty for none.
pub data Addr : Type 0 where
  invalid : Addr
  ip4 : ℕ → Addr
  ip6 : ℕ → Text → Addr

-- The values that `netip.Addr` can hold.
abbrev pub IsAddr : Addr → Type 0
IsAddr invalid = Unit
IsAddr (ip4 x) = x < 2 ^ 32
IsAddr (ip6 x zone) = x < 2 ^ 128

-- bits_plus_one is 0 in the zero Prefix; no prefix stores a zone.
pub record Prefix : Type 0 where
  pub addr : Addr
  pub bits_plus_one : ℕ

abbrev pub zero_prefix : Prefix
zero_prefix = record { addr = invalid; bits_plus_one = 0 }

unfoldable pub is4 : Addr → Bool
is4 (ip4 x) = true
is4 _ = false

unfoldable pub bit_len : Addr → ℕ
bit_len invalid = 0
bit_len (ip4 x) = 32
bit_len (ip6 x zone) = 128

unfoldable pub has_zone : Addr → Bool
has_zone (ip6 x zone) = not (is_empty zone)
has_zone _ = false

-- ip.Unmap()
unfoldable pub unmap : Addr → Addr
unmap (ip6 x zone) = if x / 2 ^ 32 == 0xffff then ip4 (x % 2 ^ 32) else ip6 x zone
unmap a = a

-- netip.AddrFrom16
unfoldable pub addr_from_16 : List ℕ → Addr
addr_from_16 b = ip6 (big_endian 0 b) []

-- ip.As16(): the first and the last eight bytes
unfoldable pub as_16 : Addr → List ℕ
as_16 invalid = put_uint64 0 ++ put_uint64 0
as_16 (ip4 x) = put_uint64 0 ++ put_uint64 (0xffff * 2 ^ 32 + x)
as_16 (ip6 x zone) = put_uint64 (x / 2 ^ 64) ++ put_uint64 (x % 2 ^ 64)

-- The number with all but its first `b` of `w` bits cleared.
unfoldable pub keep_bits : ℕ → ℕ → ℕ → ℕ
keep_bits w b x = x / 2 ^ (w - b) * 2 ^ (w - b)

-- ip.Prefix(b); none is an error.
unfoldable pub addr_prefix : Addr → ℕ → Option Prefix
unfolding keep_bits
addr_prefix invalid b = some zero_prefix
addr_prefix (ip4 x) b =
    if leb b 32
    then some (record { addr = ip4 (keep_bits 32 b x); bits_plus_one = suc b })
    else none
addr_prefix (ip6 x zone) b =
    if leb b 128
    then some (record { addr = ip6 (keep_bits 128 b x) []; bits_plus_one = suc b })
    else none

masked_from : Addr → ℕ → Prefix
unfolding addr_prefix
masked_from a zero = zero_prefix
masked_from a (suc b) = elim (addr_prefix a b) [ none ↦ zero_prefix | some p ↦ p ]

-- p.Masked()
unfoldable pub masked : Prefix → Prefix
unfolding masked_from
masked p = masked_from p.addr p.bits_plus_one

-- Whether two numbers of `w` bits share their first `b` bits.
unfoldable pub same_bits : ℕ → ℕ → ℕ → ℕ → Bool
same_bits w b x y = x / 2 ^ (w - b) == y / 2 ^ (w - b)

contains_bits : Addr → ℕ → Addr → Bool
unfolding same_bits
contains_bits p zero a = false
contains_bits (ip4 x) (suc b) (ip4 y) = same_bits 32 b x y
contains_bits (ip6 x zone) (suc b) (ip6 y zone') =
    if is_empty zone' then same_bits 128 b x y else false
contains_bits _ (suc b) _ = false

-- p.Contains(ip): an address with a zone is in no prefix, nor one of the other family.
unfoldable pub contains : Prefix → Addr → Bool
unfolding contains_bits
contains p a = contains_bits p.addr p.bits_plus_one a

-- The order of strings.
unfoldable pub text_less : Text → Text → Bool
text_less [] [] = false
text_less [] (d ∷ t) = true
text_less (c ∷ s) [] = false
text_less (c ∷ s) (d ∷ t) =
    let rest = text_less s t in if ltb c d then true else if c == d then rest else false

-- ip.Less(ip2): by family, then number, then zone.
unfoldable pub less : Addr → Addr → Bool
unfolding text_less
less invalid invalid = false
less invalid _ = true
less (ip4 x) invalid = false
less (ip4 x) (ip4 y) = ltb x y
less (ip4 x) (ip6 y zone) = true
less (ip6 x zone) (ip6 y zone') =
    if ltb x y then true else if x == y then text_less zone zone' else false
less (ip6 x zone) _ = false

unfoldable pub addr_beq : Addr → Addr → Bool
addr_beq invalid invalid = true
addr_beq (ip4 x) (ip4 y) = x == y
addr_beq (ip6 x zone) (ip6 y zone') = x == y && zone == zone'
addr_beq _ _ = false

pub addr_beq_iff : (a b : Addr) → (addr_beq a b ≡ true) ↔ (a ≡ b)
unfolding addr_beq
addr_beq_iff invalid invalid = ground arith
addr_beq_iff (ip4 x) (ip4 y) = ground arith
addr_beq_iff (ip6 x zone) (ip6 y zone') = ground (arith, list_beq_iff zone zone')
addr_beq_iff _ _ = ground arith

instance abbrev pub addr_eq : Eq Addr
addr_eq = record { beq = addr_beq; beq_iff = addr_beq_iff }

unfoldable pub prefix_beq : Prefix → Prefix → Bool
unfolding addr_beq
prefix_beq p q = addr_beq p.addr q.addr && p.bits_plus_one == q.bits_plus_one

pub prefix_beq_iff : (p q : Prefix) → (prefix_beq p q ≡ true) ↔ (p ≡ q)
unfolding prefix_beq
prefix_beq_iff p q = ground (arith, addr_beq_iff p.addr q.addr)

instance abbrev pub prefix_eq : Eq Prefix
prefix_eq = record { beq = prefix_beq; beq_iff = prefix_beq_iff }
