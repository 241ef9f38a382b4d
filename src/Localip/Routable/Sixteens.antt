-- ===== src/Localip/Routable/Sixteens.antt =====
-- The special-purpose blocks of IPv6, byte by byte.
use proto_ip.Prelude.{
  Bool, Bool-cases, List, [], any, ap, arith, beq→eq, false, inl, inr, length, list_beq, list_eq,
  ltb, nat_eq, none, not, refl, some, suc, sym, zero, ℕ, ◌%◌, ◌&&◌, ◌*◌, ◌++◌, ◌+◌, ◌/◌, ◌==◌, ◌^◌,
  ◌||◌, ◌∙◌, ◌∷◌, ◌≡◌, ◌≤◌,
}
use proto_ip.Golang.Ints.{big_endian}
use proto_ip.Golang.Ints.Bytes.{Bytes, big_endian_beq}
use proto_ip.Golang.NetIp.{
  NetIp, drop, equal, is_link_local_multicast, is_link_local_unicast, is_loopback, is_private,
  is_unspecified, take, to4, v4_in_v6_prefix,
}
use proto_ip.Golang.Netip.{Prefix, addr_eq, contains, ip6, prefix_eq, same_bits}
use proto_ip.Localip.{is_routable}
use proto_ip.Localip.Routable.Quads.{any-append, is_routable-tests, or_false}

-- The first two bytes of the network, the other ones 0.
abbrev block6 : ℕ → ℕ → Prefix
block6 top len = record { addr = ip6 (top * 2 ^ 112) []; bits_plus_one = suc len }

-- The number of sixteen bytes by the first two of them.
top_two :
    (a b c d e f g h i j k l m n o p : ℕ)
    → Bytes (a ∷ b ∷ c ∷ d ∷ e ∷ f ∷ g ∷ h ∷ i ∷ j ∷ k ∷ l ∷ m ∷ n ∷ o ∷ p ∷ [])
    → big_endian 0 (a ∷ b ∷ c ∷ d ∷ e ∷ f ∷ g ∷ h ∷ i ∷ j ∷ k ∷ l ∷ m ∷ n ∷ o ∷ p ∷ []) / 2 ^ 112
      ≡ a * 256 + b
unfolding big_endian
top_two a b c d e f g h i j k l m n o p w = omega (arith, w)

pub last_four :
    (a b c d e f g h i j k l m n o p : ℕ)
    → Bytes (a ∷ b ∷ c ∷ d ∷ e ∷ f ∷ g ∷ h ∷ i ∷ j ∷ k ∷ l ∷ m ∷ n ∷ o ∷ p ∷ [])
    → big_endian 0 (a ∷ b ∷ c ∷ d ∷ e ∷ f ∷ g ∷ h ∷ i ∷ j ∷ k ∷ l ∷ m ∷ n ∷ o ∷ p ∷ []) / 2 ^ 32
      ≡ big_endian 0 (a ∷ b ∷ c ∷ d ∷ e ∷ f ∷ g ∷ h ∷ i ∷ j ∷ k ∷ l ∷ [])
unfolding big_endian
last_four a b c d e f g h i j k l m n o p w = omega (arith, w)

-- ::1/128, ::/128, fe80::/10, the scope of one link in ff00::/8 for each of the sixteen flags, and fc00::/7
abbrev pub multicast6 : ℕ → List Prefix
multicast6 zero = []
multicast6 (suc n) = block6 (0xff02 + 16 * n) 16 ∷ multicast6 n

abbrev pub special6 : List Prefix
special6 =
    record { addr = ip6 1 []; bits_plus_one = 129 }
    ∷ record { addr = ip6 0 []; bits_plus_one = 129 }
    ∷ block6 0xfe80 10
    ∷ (multicast6 16 ++ block6 0xfc00 7 ∷ [])

abbrev one : NetIp
one = 0 ∷ 0 ∷ 0 ∷ 0 ∷ 0 ∷ 0 ∷ 0 ∷ 0 ∷ 0 ∷ 0 ∷ 0 ∷ 0 ∷ 0 ∷ 0 ∷ 0 ∷ 1 ∷ []

abbrev none_set : NetIp
none_set = 0 ∷ 0 ∷ 0 ∷ 0 ∷ 0 ∷ 0 ∷ 0 ∷ 0 ∷ 0 ∷ 0 ∷ 0 ∷ 0 ∷ 0 ∷ 0 ∷ 0 ∷ 0 ∷ []

module _ (a b c d e f g h i j k l m n o p : ℕ)
    (w : Bytes (a ∷ b ∷ c ∷ d ∷ e ∷ f ∷ g ∷ h ∷ i ∷ j ∷ k ∷ l ∷ m ∷ n ∷ o ∷ p ∷ [])) where
  abbrev full : NetIp
  full = a ∷ b ∷ c ∷ d ∷ e ∷ f ∷ g ∷ h ∷ i ∷ j ∷ k ∷ l ∷ m ∷ n ∷ o ∷ p ∷ []

  unfoldable pub in_block6 : Prefix → Bool
  in_block6 q = contains q (ip6 (big_endian 0 full) [])

  host6 :
      (x : ℕ)
      → in_block6 (record { addr = ip6 x []; bits_plus_one = 129 }) ≡ (big_endian 0 full == x)
  unfolding in_block6 contains same_bits
  host6 x = ground arith

  network6 : (top : ℕ) → in_block6 (block6 top 16) ≡ (a * 256 + b == top)
  unfolding in_block6 contains same_bits
  network6 top = rw (top_two a b c d e f g h i j k l m n o p w) (ground arith)

  unicast6 : in_block6 (block6 0xfe80 10) ≡ (a == 0xfe && b / 64 == 2)
  unfolding in_block6 contains same_bits
  unicast6 = ground (arith, w, top_two a b c d e f g h i j k l m n o p w)

  private6 : in_block6 (block6 0xfc00 7) ≡ (a / 2 == 126)
  unfolding in_block6 contains same_bits
  private6 = ground (arith, w, top_two a b c d e f g h i j k l m n o p w)

  multicast_upto :
      (r : ℕ)
      → r ≤ 16
      → any in_block6 (multicast6 r) ≡ (a == 0xff && (b % 16 == 2 && ltb (b / 16) r))
  multicast_upto zero le = ground arith
  multicast_upto (suc r) le =
      rw (network6 (0xff02 + 16 * r), multicast_upto r (omega arith)) (ground (arith, w))

  any_multicast : any in_block6 (multicast6 16) ≡ (a == 0xff && b % 16 == 2)
  any_multicast = multicast_upto 16 (omega arith) ∙ ground (arith, w)

  same_bytes6 :
      (ys : List ℕ)
      → length ys ≡ 16
      → Bytes ys
      → (full == ys) ≡ in_block6 (record { addr = ip6 (big_endian 0 ys) []; bits_plus_one = 129 })
  same_bytes6 ys e v = big_endian_beq full ys (sym e) w v ∙ sym (host6 (big_endian 0 ys))

  -- Bytes other than those of a mapped IPv4 address.
  module _ (six : to4 full ≡ none) where
    six_loopback : is_loopback full ≡ in_block6 (record { addr = ip6 1 []; bits_plus_one = 129 })
    unfolding is_loopback equal big_endian
    six_loopback = rw (six, is_loopback) (same_bytes6 one refl (ground arith))

    not_mapped : (full == v4_in_v6_prefix ++ (0 ∷ 0 ∷ 0 ∷ 0 ∷ [])) ≡ false
    unfolding to4 take drop list_beq
    not_mapped = elim (Bool-cases (full == v4_in_v6_prefix ++ (0 ∷ 0 ∷ 0 ∷ 0 ∷ []))) [
      | inl same ↦
          let mapped : to4 full ≡ some (0 ∷ 0 ∷ 0 ∷ 0 ∷ []) =
            ap to4 (beq→eq full (v4_in_v6_prefix ++ (0 ∷ 0 ∷ 0 ∷ 0 ∷ [])) same) in
          absurd (cc (six, mapped))
      | inr differs ↦ differs
    ]

    six_unspecified :
        is_unspecified full ≡ in_block6 (record { addr = ip6 0 []; bits_plus_one = 129 })
    unfolding is_unspecified equal big_endian
    six_unspecified = rw (not_mapped, is_unspecified) (same_bytes6 none_set refl (ground arith))

    six_unicast : is_link_local_unicast full ≡ in_block6 (block6 0xfe80 10)
    unfolding is_link_local_unicast
    six_unicast = rw (six, is_link_local_unicast) (sym unicast6)

    six_multicast : is_link_local_multicast full ≡ any in_block6 (multicast6 16)
    unfolding is_link_local_multicast
    six_multicast = rw (six, is_link_local_multicast) (sym any_multicast)

    six_private : is_private full ≡ in_block6 (block6 0xfc00 7)
    unfolding is_private
    six_private = rw (six, is_private) (sym private6)

    pub six_routable : is_routable full ≡ not (any in_block6 special6)
    six_routable =
        is_routable-tests full
        ∙ rw (six_loopback, six_unspecified, six_unicast, six_multicast, six_private)
            (ap
              (λ (r : Bool). not (
                in_block6 (record { addr = ip6 1 []; bits_plus_one = 129 })
                || (in_block6 (record { addr = ip6 0 []; bits_plus_one = 129 })
                    || (in_block6 (block6 0xfe80 10) || r))))
              (sym (
                any-append in_block6 (multicast6 16) (block6 0xfc00 7 ∷ [])
                ∙ ap (λ (r : Bool). any in_block6 (multicast6 16) || r) (or_false _))))
