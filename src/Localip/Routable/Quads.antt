-- ===== src/Localip/Routable/Quads.antt =====
-- The special-purpose blocks of IPv4, byte by byte.
use proto_ip.Prelude.{
  Bool, List, [], any, arith, false, if◌then◌else◌, list_beq, list_eq, nat_eq, not, refl, suc, sym,
  true, ℕ, ◌&&◌, ◌*◌, ◌++◌, ◌+◌, ◌/◌, ◌<◌, ◌==◌, ◌^◌, ◌||◌, ◌∙◌, ◌∷◌, ◌≡◌,
}
use proto_ip.Golang.Ints.{big_endian}
use proto_ip.Golang.Ints.Bytes.{Bytes}
use proto_ip.Golang.NetIp.{
  NetIp, equal, is_link_local_multicast, is_link_local_unicast, is_loopback, is_private,
  is_unspecified, to4,
}
use proto_ip.Golang.Netip.{Prefix, addr_eq, contains, ip4, prefix_eq, same_bits}
use proto_ip.Localip.{is_routable}

abbrev block4 : ℕ → ℕ → Prefix
block4 x len = record { addr = ip4 x; bits_plus_one = suc len }

-- 127.0.0.0/8; 0.0.0.0/32; 169.254.0.0/16; 224.0.0.0/24; 10.0.0.0/8, 172.16.0.0/12 and 192.168.0.0/16
abbrev pub special4 : List Prefix
special4 =
    block4 (127 * 2 ^ 24) 8
    ∷ block4 0 32
    ∷ block4 ((169 * 256 + 254) * 2 ^ 16) 16
    ∷ block4 (224 * 2 ^ 24) 24
    ∷ block4 (10 * 2 ^ 24) 8
    ∷ block4 ((172 * 256 + 16) * 2 ^ 16) 12
    ∷ block4 ((192 * 256 + 168) * 2 ^ 16) 16
    ∷ []

-- The tests of is_routable in its order.
routable_test :
    (l u k m p : Bool)
    → (if l || u then false else if k || m then false else if p then false else true)
      ≡ not (l || (u || (k || (m || p))))
routable_test true u k m p = refl
routable_test false true k m p = refl
routable_test false false true m p = refl
routable_test false false false true p = refl
routable_test false false false false true = refl
routable_test false false false false false = refl

pub is_routable-tests :
    (ip : NetIp)
    → is_routable ip
      ≡ not (
          is_loopback ip
          || (is_unspecified ip
              || (is_link_local_unicast ip || (is_link_local_multicast ip || is_private ip))))
unfolding is_routable
is_routable-tests ip =
    routable_test (is_loopback ip) (is_unspecified ip) (is_link_local_unicast ip)
      (is_link_local_multicast ip) (is_private ip)

or_three : (a b c : Bool) → (a || b || c) ≡ (a || (b || (c || false)))
or_three true b c = refl
or_three false true c = refl
or_three false false true = refl
or_three false false false = refl

pub or_false : (b : Bool) → (b || false) ≡ b
or_false true = refl
or_false false = refl

pub any-append :
    (q : Prefix → Bool) (xs ys : List Prefix) → any q (xs ++ ys) ≡ (any q xs || any q ys)
any-append q [] ys = refl
any-append q (x ∷ xs) ys = ground (arith, any-append q xs ys)

module _ (a b c d : ℕ) (w : Bytes (a ∷ b ∷ c ∷ d ∷ [])) where
  unfoldable pub in_block : Prefix → Bool
  in_block p = contains p (ip4 (big_endian 0 (a ∷ b ∷ c ∷ d ∷ [])))

  -- Each block by the bytes of the address.
  one_byte : (k : ℕ) → in_block (block4 (k * 2 ^ 24) 8) ≡ (a == k)
  unfolding in_block contains same_bits big_endian
  one_byte k = ground (arith, w)

  two_bytes :
      (k l : ℕ)
      → k < 256
      → l < 256
      → in_block (block4 ((k * 256 + l) * 2 ^ 16) 16) ≡ (a == k && b == l)
  unfolding in_block contains same_bits big_endian
  two_bytes k l hk hl = ground (arith, w)

  shared_network : in_block (block4 ((172 * 256 + 16) * 2 ^ 16) 12) ≡ (a == 172 && b / 16 == 1)
  unfolding in_block contains same_bits big_endian
  shared_network = ground (arith, w)

  local_multicast : in_block (block4 (224 * 2 ^ 24) 24) ≡ (a == 224 && b == 0 && c == 0)
  unfolding in_block contains same_bits big_endian
  local_multicast = ground (arith, w)

  unspecified : in_block (block4 0 32) ≡ (a ∷ b ∷ c ∷ d ∷ [] == 0 ∷ 0 ∷ 0 ∷ 0 ∷ [])
  unfolding in_block contains same_bits big_endian list_beq
  unspecified = ground (arith, w)

  quad_loopback : is_loopback (a ∷ b ∷ c ∷ d ∷ []) ≡ in_block (block4 (127 * 2 ^ 24) 8)
  unfolding is_loopback to4
  quad_loopback = sym (one_byte 127)

  quad_unspecified : is_unspecified (a ∷ b ∷ c ∷ d ∷ []) ≡ in_block (block4 0 32)
  unfolding is_unspecified equal list_beq
  quad_unspecified = or_false _ ∙ sym unspecified

  quad_unicast :
      is_link_local_unicast (a ∷ b ∷ c ∷ d ∷ []) ≡ in_block (block4 ((169 * 256 + 254) * 2 ^ 16) 16)
  unfolding is_link_local_unicast to4
  quad_unicast = sym (two_bytes 169 254 (omega arith) (omega arith))

  quad_multicast :
      is_link_local_multicast (a ∷ b ∷ c ∷ d ∷ []) ≡ in_block (block4 (224 * 2 ^ 24) 24)
  unfolding is_link_local_multicast to4
  quad_multicast = sym local_multicast

  quad_private : is_private (a ∷ b ∷ c ∷ d ∷ []) ≡ (
      in_block (block4 (10 * 2 ^ 24) 8)
      || (in_block (block4 ((172 * 256 + 16) * 2 ^ 16) 12)
          || (in_block (block4 ((192 * 256 + 168) * 2 ^ 16) 16) || false)))
  unfolding is_private to4
  quad_private =
      rw (one_byte 10, shared_network, two_bytes 192 168 (omega arith) (omega arith))
        (or_three (a == 10) (a == 172 && b / 16 == 1) (a == 192 && b == 168))

  -- A quad is routable by the code just if no special block contains it.
  pub quad_routable : is_routable (a ∷ b ∷ c ∷ d ∷ []) ≡ not (any in_block special4)
  quad_routable =
      is_routable-tests (a ∷ b ∷ c ∷ d ∷ [])
      ∙ rw (quad_loopback, quad_unspecified, quad_unicast, quad_multicast, quad_private) refl
