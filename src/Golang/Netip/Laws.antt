-- ===== src/Golang/Netip/Laws.antt =====
-- Masked prefixes, and what they contain.
use native.Mathlib.Nat.{mul-div_cancel, one-le-pow}
use proto_ip.Prelude.{
  [], ap, arith, list_eq, nat_eq, suc, zero, ℕ, ◌*◌, ◌-◌, ◌/◌, ◌<◌, ◌==◌, ◌^◌, ◌≡◌, ◌≤◌,
}
use proto_ip.Golang.Netip.{
  Addr, Prefix, addr_prefix, contains, contains_bits, invalid, ip4, ip6, keep_bits, masked,
  masked_from, same_bits,
}

-- A masked prefix with a length of its family and no zone.
abbrev pub IsNetworkOf : Addr → ℕ → Type 0
IsNetworkOf (ip4 x) (suc b) = (b ≤ 32) × (keep_bits 32 b x ≡ x)
IsNetworkOf (ip6 x zone) (suc b) = (b ≤ 128) × (keep_bits 128 b x ≡ x) × (zone ≡ [])
IsNetworkOf _ _ = ⊥

abbrev pub IsNetwork : Prefix → Type 0
IsNetwork p = IsNetworkOf p.addr p.bits_plus_one

-- The prefixes that `netip.ParsePrefix` gives: a length of the family, and no zone.
abbrev IsValidOf : Addr → ℕ → Type 0
IsValidOf (ip4 x) (suc b) = b ≤ 32
IsValidOf (ip6 x zone) (suc b) = (b ≤ 128) × (zone ≡ [])
IsValidOf _ _ = ⊥

abbrev pub IsValid : Prefix → Type 0
IsValid p = IsValidOf p.addr p.bits_plus_one

keep_bits-keep_bits : (w b x : ℕ) → keep_bits w b (keep_bits w b x) ≡ keep_bits w b x
unfolding keep_bits
keep_bits-keep_bits w b x =
    ap (λ (t : ℕ). t * 2 ^ (w - b))
      (mul-div_cancel (x / 2 ^ (w - b)) (one-le-pow (w - b) 2 (omega arith)))

same_bits-keep_bits : (w b x y : ℕ) → same_bits w b (keep_bits w b x) y ≡ same_bits w b x y
unfolding keep_bits same_bits
same_bits-keep_bits w b x y =
    rw (mul-div_cancel (x / 2 ^ (w - b)) (one-le-pow (w - b) 2 (omega arith)))

round-eq : (m x y : ℕ) → 0 < m → x / m * m ≡ x → (y / m * m == x) ≡ (x / m == y / m)
round-eq m x y h p = ground (arith, mul-div_cancel (y / m) h)

pub keep_bits-eq-same_bits :
    (w b x y : ℕ) → keep_bits w b x ≡ x → (keep_bits w b y == x) ≡ same_bits w b x y
unfolding keep_bits same_bits
keep_bits-eq-same_bits w b x y h = round-eq _ x y (one-le-pow (w - b) 2 (omega arith)) h

masked_from-IsNetwork : (a : Addr) (n : ℕ) → IsValidOf a n → IsNetwork (masked_from a n)
unfolding masked_from addr_prefix
masked_from-IsNetwork invalid n h = elim h [ ]
masked_from-IsNetwork (ip4 x) zero h = elim h [ ]
masked_from-IsNetwork (ip4 x) (suc b) h = ground (arith, keep_bits-keep_bits 32 b x)
masked_from-IsNetwork (ip6 x zone) zero h = elim h [ ]
masked_from-IsNetwork (ip6 x zone) (suc b) h = ground (arith, keep_bits-keep_bits 128 b x)

pub masked-IsNetwork : (p : Prefix) → IsValid p → IsNetwork (masked p)
unfolding masked
masked-IsNetwork p = masked_from-IsNetwork p.addr p.bits_plus_one

contains-masked_from :
    (p : Addr) (n : ℕ) (a : Addr)
    → IsValidOf p n
    → contains (masked_from p n) a ≡ contains (record { addr = p; bits_plus_one = n }) a
unfolding masked_from addr_prefix contains contains_bits
contains-masked_from invalid n a h = elim h [ ]
contains-masked_from (ip4 x) zero a h = elim h [ ]
contains-masked_from (ip4 x) (suc b) (ip4 y) h = ground (arith, same_bits-keep_bits 32 b x y)
contains-masked_from (ip4 x) (suc b) _ h = ground arith
contains-masked_from (ip6 x zone) zero a h = elim h [ ]
contains-masked_from (ip6 x zone) (suc b) (ip6 y z) h =
    ground (arith, same_bits-keep_bits 128 b x y)
contains-masked_from (ip6 x zone) (suc b) _ h = ground arith

-- Masking a prefix leaves its addresses.
pub contains-masked : (p : Prefix) (a : Addr) → IsValid p → contains (masked p) a ≡ contains p a
unfolding masked
contains-masked p a h = contains-masked_from p.addr p.bits_plus_one a h
