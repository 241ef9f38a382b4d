-- ===== src/Geoip/Wire.antt =====
-- geoip/server.go `addrFromProto` and geoip/geofeed.go `protoFromAddr`.
pub mod Bytes
use proto_ip.Prelude.{
  Option, Result, [], ap, arith, err, none, ok, refl, some, ℕ, ◌%◌, ◌*◌, ◌++◌, ◌+◌, ◌/◌, ◌<◌, ◌^◌,
  ◌∙◌, ◌≡◌, ◌≢◌,
}
use proto_ip.Golang.Ints.{
  big_endian, big_endian-halves, big_endian-put_uint64, int64, put_uint64, uint64, uint64-int64,
}
use proto_ip.Golang.NetIp.{drop, take}
use proto_ip.Golang.Netip.{Addr, IsAddr, addr_from_16, as_16, invalid, ip4, ip6, unmap}
use proto_ip.Golang.Text.{Text, codes}
use proto_ip.Messages.Ip.{Ip, Version}

unfoldable pub addr_from_proto : Option Ip → Result Text Addr
addr_from_proto none = err (codes "nil IP message")
addr_from_proto (some ip) = ok (
    unmap (
      addr_from_16
        (put_uint64 (uint64 ip.network_prefix) ++ put_uint64 (uint64 ip.interface_identifier))))

unfoldable pub proto_from_addr : Addr → Ip
proto_from_addr a = record {
  network_prefix = int64 (big_endian 0 (take 8 (as_16 a)));
  interface_identifier = int64 (big_endian 0 (drop 8 (as_16 a)));
  version = Version.unset;
}

-- The address with its zone left out; the wire form has none.
unfoldable pub without_zone : Addr → Addr
without_zone (ip6 x zone) = ip6 x []
without_zone a = a

-- The two halves that `proto_from_addr` takes of the sixteen bytes.
halves :
    (h l : ℕ)
    → h < 2 ^ 64
    → l < 2 ^ 64
    → (big_endian 0 (take 8 (put_uint64 h ++ put_uint64 l)) ≡ h)
      × (big_endian 0 (drop 8 (put_uint64 h ++ put_uint64 l)) ≡ l)
halves h l hh hl = (
  (unfold put_uint64 take in big_endian-put_uint64 h hh),
  (unfold put_uint64 drop in big_endian-put_uint64 l hl),
)

-- A message whose halves hold `h` and `l` gives the address of both together.
addr_of_halves :
    (h l : ℕ) (ip : Ip)
    → h < 2 ^ 64
    → l < 2 ^ 64
    → ip.network_prefix ≡ int64 h
    → ip.interface_identifier ≡ int64 l
    → addr_from_proto (some ip) ≡ ok (unmap (ip6 (h * 2 ^ 64 + l) []))
unfolding addr_from_proto addr_from_16
addr_of_halves h l ip hh hl p q =
    ap (λ (t : ℕ). ok (unmap (ip6 t [])))
      (rw (p, q, uint64-int64 h hh, uint64-int64 l hl) (big_endian-halves h l hh hl))

-- A valid address sent on the wire comes back without its zone, and an IPv4-mapped IPv6 address as the
-- IPv4 address; every other address comes back as it was.
pub addr_from_proto-proto_from_addr :
    (a : Addr)
    → IsAddr a
    → a ≢ invalid
    → addr_from_proto (some (proto_from_addr a)) ≡ ok (unmap (without_zone a))
addr_from_proto-proto_from_addr invalid w ne = absurd (ne refl)
addr_from_proto-proto_from_addr (ip4 x) w ne =
    addr_of_halves 0 (0xffff * 2 ^ 32 + x) (proto_from_addr (ip4 x)) (omega arith) (omega arith)
      (unfold proto_from_addr as_16 in
        ap int64 (halves 0 (0xffff * 2 ^ 32 + x) (omega arith) (omega arith)).0)
      (unfold proto_from_addr as_16 in
        ap int64 (halves 0 (0xffff * 2 ^ 32 + x) (omega arith) (omega arith)).1)
    ∙ (unfold unmap without_zone in ground arith)
addr_from_proto-proto_from_addr (ip6 x zone) w ne =
    addr_of_halves (x / 2 ^ 64) (x % 2 ^ 64) (proto_from_addr (ip6 x zone)) (omega arith)
      (omega arith)
      (unfold proto_from_addr as_16 in
        ap int64 (halves (x / 2 ^ 64) (x % 2 ^ 64) (omega arith) (omega arith)).0)
      (unfold proto_from_addr as_16 in
        ap int64 (halves (x / 2 ^ 64) (x % 2 ^ 64) (omega arith) (omega arith)).1)
    ∙ ap (λ (t : ℕ). ok (unmap (ip6 t []))) whole
    ∙ (unfold without_zone in refl)
  where
    whole : x / 2 ^ 64 * 2 ^ 64 + x % 2 ^ 64 ≡ x
    whole = omega arith
