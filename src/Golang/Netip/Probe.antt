-- ===== src/Golang/Netip/Probe.antt =====
-- Maps keyed by masked prefixes, probed by the prefixes of an address.
use proto_ip.Prelude.{
  [], arith, false, list_beq, list_eq, nat_eq, refl, some, suc, true, zero, ℕ, ◌&&◌, ◌==◌, ◌≡◌, ◌≤◌,
}
use proto_ip.Golang.Netip.{
  Addr, Prefix, addr_beq, addr_prefix, bit_len, contains, contains_bits, has_zone, invalid, ip4,
  ip6, keep_bits, prefix_beq, prefix_eq, zero_prefix,
}
use proto_ip.Golang.Netip.Laws.{IsNetwork, IsNetworkOf, keep_bits-eq-same_bits}

probe_of :
    (p : Addr) (n : ℕ) (a : Addr) (b : ℕ) (q : Prefix)
    → IsNetworkOf p n
    → has_zone a ≡ false
    → addr_prefix a b ≡ some q
    → prefix_beq (record { addr = p; bits_plus_one = n }) q
      ≡ (contains (record { addr = p; bits_plus_one = n }) a && n == suc b)
unfolding prefix_beq addr_beq contains contains_bits addr_prefix has_zone list_beq
probe_of invalid n a b q h z e = elim h [ ]
probe_of (ip4 x) zero a b q h z e = elim h [ ]
probe_of (ip4 x) (suc n) invalid b q h z e = ground arith
probe_of (ip4 x) (suc n) (ip4 y) b q h z e = ground (arith, keep_bits-eq-same_bits 32 n x y h.1)
probe_of (ip4 x) (suc n) (ip6 y z') b q h z e = ground arith
probe_of (ip6 x zone) zero a b q h z e = elim h [ ]
probe_of (ip6 x zone) (suc n) invalid b q h z e = ground arith
probe_of (ip6 x zone) (suc n) (ip4 y) b q h z e = ground arith
probe_of (ip6 x zone) (suc n) (ip6 y z') b q h z e =
    ground (arith, keep_bits-eq-same_bits 128 n x y h.1)

-- The probe at length `b` finds the key `p` exactly if `p` contains the address at that length.
pub probe-eq-contains :
    (p : Prefix) (a : Addr) (b : ℕ) (q : Prefix)
    → IsNetwork p
    → has_zone a ≡ false
    → addr_prefix a b ≡ some q
    → (p == q) ≡ (contains p a && p.bits_plus_one == suc b)
probe-eq-contains p a b q = probe_of p.addr p.bits_plus_one a b q

-- Every length that the loop tries gives a prefix.
pub addr_prefix_total :
    (a : Addr) (b : ℕ) → b ≤ bit_len a → (q : Prefix) × (addr_prefix a b ≡ some q)
unfolding addr_prefix bit_len
addr_prefix_total invalid b h = (zero_prefix, refl)
addr_prefix_total (ip4 x) b h =
    (record { addr = ip4 (keep_bits 32 b x); bits_plus_one = suc b }, ground arith)
addr_prefix_total (ip6 x zone) b h =
    (record { addr = ip6 (keep_bits 128 b x) []; bits_plus_one = suc b }, ground arith)

-- A prefix that contains an address is no longer than the address.
pub bits_plus_one-le-bit_len :
    (p : Prefix) (a : Addr) → IsNetwork p → contains p a ≡ true → p.bits_plus_one ≤ suc (bit_len a)
bits_plus_one-le-bit_len p a = of p.addr p.bits_plus_one a
  where
    of :
        (x : Addr) (n : ℕ) (a : Addr)
        → IsNetworkOf x n
        → contains (record { addr = x; bits_plus_one = n }) a ≡ true
        → n ≤ suc (bit_len a)
    of invalid n a h e = elim h [ ]
    of (ip4 x) zero a h e = elim h [ ]
    of (ip4 x) (suc n) (ip4 y) h e = unfold bit_len in omega arith
    of (ip4 x) (suc n) _ h e = unfold contains contains_bits in cc
    of (ip6 x zone) zero a h e = elim h [ ]
    of (ip6 x zone) (suc n) (ip6 y z) h e = unfold bit_len in omega arith
    of (ip6 x zone) (suc n) _ h e = unfold contains contains_bits in cc
