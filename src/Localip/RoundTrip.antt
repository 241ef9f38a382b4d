-- ===== src/Localip/RoundTrip.antt =====
-- Addresses in messages and back.
use proto_ip.Prelude.{
  All, Bool-cases, [], ap, arith, beq→eq, false, inl, inr, list_eq, nat_eq, none, refl, some, sym,
  true, ℕ, ◌++◌, ◌<◌, ◌==◌, ◌^◌, ◌∙◌, ◌∷◌, ◌≡◌, ◌⊎◌,
}
use proto_ip.Golang.Ints.{
  big_endian, int64, pos, put_uint64, put_uint64-big_endian, uint64, uint64-int64,
}
use proto_ip.Golang.NetIp.{NetIp, drop, take, to16, to4, v4_in_v6_prefix}
use proto_ip.Golang.Text.{Text}
use proto_ip.Localip.{ip_from_proto, low_half, to_ip}
use proto_ip.Messages.Ip.{Ip, Ipv6Address, dotted_decimal, v4, v6}

-- The slices that are addresses: bytes, four or sixteen of them.
pub data IsNetIp : NetIp → Type 0 where
  four : {a b c d : ℕ} → All (λ x. x < 256) (a ∷ b ∷ c ∷ d ∷ []) → IsNetIp (a ∷ b ∷ c ∷ d ∷ [])
  sixteen :
      {a b c d e f g h i j k l m n o p : ℕ}
      → All (λ x. x < 256) (a ∷ b ∷ c ∷ d ∷ e ∷ f ∷ g ∷ h ∷ [])
      → All (λ x. x < 256) (i ∷ j ∷ k ∷ l ∷ m ∷ n ∷ o ∷ p ∷ [])
      → IsNetIp (a ∷ b ∷ c ∷ d ∷ e ∷ f ∷ g ∷ h ∷ i ∷ j ∷ k ∷ l ∷ m ∷ n ∷ o ∷ p ∷ [])

big_endian-lt :
    (a b c d e f g h : ℕ)
    → All (λ x. x < 256) (a ∷ b ∷ c ∷ d ∷ e ∷ f ∷ g ∷ h ∷ [])
    → big_endian 0 (a ∷ b ∷ c ∷ d ∷ e ∷ f ∷ g ∷ h ∷ []) < 2 ^ 64
unfolding big_endian
big_endian-lt a b c d e f g h w = omega arith

put_half :
    (a b c d e f g h : ℕ)
    → All (λ x. x < 256) (a ∷ b ∷ c ∷ d ∷ e ∷ f ∷ g ∷ h ∷ [])
    → put_uint64 (uint64 (int64 (big_endian 0 (a ∷ b ∷ c ∷ d ∷ e ∷ f ∷ g ∷ h ∷ []))))
      ≡ a ∷ b ∷ c ∷ d ∷ e ∷ f ∷ g ∷ h ∷ []
put_half a b c d e f g h w =
    ap put_uint64 (uint64-int64 _ (big_endian-lt a b c d e f g h w))
    ∙ put_uint64-big_endian a b c d e f g h w

-- The low half of an IPv4-mapped address.
put_quad :
    (a b c d : ℕ)
    → All (λ x. x < 256) (a ∷ b ∷ c ∷ d ∷ [])
    → put_uint64 (uint64 (int64 (low_half (a ∷ b ∷ c ∷ d ∷ []))))
      ≡ 0 ∷ 0 ∷ 0xff ∷ 0xff ∷ a ∷ b ∷ c ∷ d ∷ []
unfolding low_half big_endian
put_quad a b c d w =
    put_half 0 0 0xff 0xff a b c d (omega arith, (omega arith, (omega arith, (omega arith, w))))

put_zero : put_uint64 (uint64 (pos 0)) ≡ 0 ∷ 0 ∷ 0 ∷ 0 ∷ 0 ∷ 0 ∷ 0 ∷ 0 ∷ []
unfolding put_uint64 uint64
put_zero = refl

module _ (ip_string : NetIp → Text) (ip : NetIp) where
  to_ip_mapped :
      (quad : NetIp)
      → to4 ip ≡ some quad
      → to_ip ip_string ip ≡ record {
        network_prefix = pos 0;
        interface_identifier = int64 (low_half quad);
        version = v4 (dotted_decimal (ip_string quad));
      }
  unfolding to_ip
  to_ip_mapped quad e = rw (e, to_ip)

  to_ip_full :
      (full : NetIp)
      → to4 ip ≡ none
      → to16 ip ≡ some full
      → to_ip ip_string ip ≡ record {
        network_prefix = int64 (big_endian 0 (take 8 full));
        interface_identifier = int64 (big_endian 0 (drop 8 full));
        version = v6 (Ipv6Address.text (ip_string full));
      }
  unfolding to_ip
  to_ip_full full e f = rw (e, f, to_ip)

  to_ip-v4 :
      (quad : NetIp)
      → to4 ip ≡ some quad
      → ip_from_proto (some (to_ip ip_string ip))
        ≡ some (put_uint64 (uint64 (pos 0)) ++ put_uint64 (uint64 (int64 (low_half quad))))
  unfolding ip_from_proto
  to_ip-v4 quad e = ap (λ (t : Ip). ip_from_proto (some t)) (to_ip_mapped quad e)

  to_ip-v6 :
      (full : NetIp)
      → to4 ip ≡ none
      → to16 ip ≡ some full
      → ip_from_proto (some (to_ip ip_string ip))
        ≡ some (
            put_uint64 (uint64 (int64 (big_endian 0 (take 8 full))))
            ++ put_uint64 (uint64 (int64 (big_endian 0 (drop 8 full)))))
  unfolding ip_from_proto
  to_ip-v6 full e f = ap (λ (t : Ip). ip_from_proto (some t)) (to_ip_full full e f)

  to_ip-quad :
      (a b c d : ℕ)
      → All (λ x. x < 256) (a ∷ b ∷ c ∷ d ∷ [])
      → to4 ip ≡ some (a ∷ b ∷ c ∷ d ∷ [])
      → ip_from_proto (some (to_ip ip_string ip)) ≡ some (v4_in_v6_prefix ++ a ∷ b ∷ c ∷ d ∷ [])
  to_ip-quad a b c d w e = to_ip-v4 _ e ∙ rw (put_zero, put_quad a b c d w)

-- An address of four or sixteen bytes put into a message and rebuilt from its halves is the address in 16-byte form.
pub ip_from_proto-to_ip :
    (ip_string : NetIp → Text) (ip : NetIp)
    → IsNetIp ip
    → ip_from_proto (some (to_ip ip_string ip)) ≡ to16 ip
ip_from_proto-to_ip ip_string ip (four {a = a} {b = b} {c = c} {d = d} w) =
    unfold to4 to16 in to_ip-quad ip_string ip a b c d w refl
ip_from_proto-to_ip ip_string ip
      (sixteen {a = a} {b = b} {c = c} {d = d} {e = e} {f = f} {g = g} {h = h} {i = i} {j = j}
        {k = k} {l = l} {m = m} {n = n} {o = o} {p = p} v w) =
    mapped (Bool-cases (a ∷ b ∷ c ∷ d ∷ e ∷ f ∷ g ∷ h ∷ i ∷ j ∷ k ∷ l ∷ [] == v4_in_v6_prefix))
  where
    full : to16 ip ≡ some ip
    full = unfold to16 in refl

    mapped :
        ((a ∷ b ∷ c ∷ d ∷ e ∷ f ∷ g ∷ h ∷ i ∷ j ∷ k ∷ l ∷ [] == v4_in_v6_prefix) ≡ true)
          ⊎ ((a ∷ b ∷ c ∷ d ∷ e ∷ f ∷ g ∷ h ∷ i ∷ j ∷ k ∷ l ∷ [] == v4_in_v6_prefix) ≡ false)
        → ip_from_proto (some (to_ip ip_string ip)) ≡ to16 ip
    mapped (inl q) =
        to_ip-quad ip_string ip m n o p (w.1.1.1.1) (unfold to4 take drop in rw q)
        ∙ sym (full ∙ ap (λ (t : NetIp). some (t ++ m ∷ n ∷ o ∷ p ∷ [])) (beq→eq _ _ q))
    mapped (inr q) =
        to_ip-v6 ip_string ip ip (unfold to4 take drop in rw q) full
        ∙ (unfold take drop in
            rw (put_half a b c d e f g h v, put_half i j k l m n o p w) (sym full))
