-- ===== src/Geoip/Wire/Bytes.antt =====
-- The bytes of a net.IP on their way through a message.
use mathlib.Core.Option.{some-injective}
use proto_ip.Prelude.{
  All, [], ap, arith, if◌then◌else◌, length, list_eq, nat_eq, ok, refl, some, ℕ, ◌++◌, ◌<◌, ◌==◌,
  ◌∙◌, ◌∷◌, ◌≡◌,
}
use proto_ip.Geoip.Wire.{addr_from_proto}
use proto_ip.Golang.Ints.{big_endian}
use proto_ip.Golang.NetIp.{NetIp, to16, v4_in_v6_prefix}
use proto_ip.Golang.Netip.{Addr, addr_eq, addr_from_16, ip4, ip6, unmap}
use proto_ip.Golang.Text.{Text}
use proto_ip.Localip.{to_ip}
use proto_ip.Localip.RoundTrip.{IsNetIp, four, ip_from_proto-to_ip, sixteen}
use proto_ip.Messages.Ip.{Ip}
use proto_ip.Localip

-- The address that some bytes stand for, as netip.AddrFromSlice and Unmap give it.
unfoldable pub addr_of : NetIp → Addr
addr_of ip = if length ip == 4 then ip4 (big_endian 0 ip) else unmap (ip6 (big_endian 0 ip) [])

-- The service rebuilds the same bytes as the listing does.
addr_of_bytes :
    (m : Ip) (full : NetIp)
    → Localip.ip_from_proto (some m) ≡ some full
    → addr_from_proto (some m) ≡ ok (unmap (ip6 (big_endian 0 full) []))
unfolding Localip.ip_from_proto addr_from_proto addr_from_16
addr_of_bytes m full h =
    ap (λ (b : NetIp). ok (unmap (ip6 (big_endian 0 b) []))) (some-injective _ _ h)

pub unmap_quad :
    (a b c d : ℕ)
    → All (λ x. x < 256) (a ∷ b ∷ c ∷ d ∷ [])
    → unmap (ip6 (big_endian 0 (v4_in_v6_prefix ++ a ∷ b ∷ c ∷ d ∷ [])) [])
      ≡ ip4 (big_endian 0 (a ∷ b ∷ c ∷ d ∷ []))
unfolding unmap big_endian
unmap_quad a b c d w = ground (arith, w)

-- An address of four or sixteen bytes put into a message is received as the address of its bytes,
-- an IPv4-mapped one as IPv4.
pub addr_from_proto-to_ip :
    (ip_string : NetIp → Text) (ip : NetIp)
    → IsNetIp ip
    → addr_from_proto (some (to_ip ip_string ip)) ≡ ok (addr_of ip)
unfolding addr_of
addr_from_proto-to_ip ip_string ip (four {a = a} {b = b} {c = c} {d = d} w) =
    addr_of_bytes (to_ip ip_string ip) (v4_in_v6_prefix ++ ip)
      (ip_from_proto-to_ip ip_string ip (four w) ∙ (unfold to16 in refl))
    ∙ ap ok (unmap_quad a b c d w)
addr_from_proto-to_ip ip_string ip (sixteen v w) =
    addr_of_bytes (to_ip ip_string ip) ip
      (ip_from_proto-to_ip ip_string ip (sixteen v w) ∙ (unfold to16 in refl))
