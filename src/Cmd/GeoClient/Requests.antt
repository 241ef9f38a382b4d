-- ===== src/Cmd/GeoClient/Requests.antt =====
-- cmd/geo-client/main.go: its own parseIP, parseCIDR and netIPToProto.
use proto_ip.Prelude.{Option, Result, err, none, ok, refl, some, ◌%◌, ◌++◌, ◌>>=◌, ◌^◌, ◌≡◌}
use proto_ip.Cmd.Arguments.{Reading, Stop, fatal, net_ip_to_proto, or_panic, parse_cidr, parse_ip}
use proto_ip.Golang.Ints.{big_endian, int64, pos}
use proto_ip.Golang.NetIp.{NetIp, drop, mask_size, take, to16, to4}
use proto_ip.Golang.Text.{Text, codes}
use proto_ip.Messages.Ip.{Cidr, Ip, Ipv6Address, Version, dotted_decimal, prefix_length}
use proto_ip.Rdap.Query.{parsed}

-- netIPToProto; none is the panic of a slice of nil.
unfoldable pub request_ip : (NetIp → Text) → NetIp → Option Ip
request_ip ip_string ip = elim (to4 ip) [
  | some quad ↦ some (record {
    network_prefix = pos 0;
    interface_identifier = int64 (big_endian 0xffff quad);
    version = Version.v4 (dotted_decimal (ip_string quad));
  })
  | none ↦ elim (to16 ip) [
    | none ↦ none
    | some full ↦ some (record {
      network_prefix = int64 (big_endian 0 (take 8 full));
      interface_identifier = int64 (big_endian 0 (drop 8 full));
      version = Version.v6 (Ipv6Address.text (ip_string full));
    })
  ]
]

-- parseIP
unfoldable pub requested_ip : Reading → Text → Result Stop Ip
requested_ip r s = elim (r.parse_ip_text s) [
  | none ↦ err (fatal (codes "invalid IP address: " ++ r.quote s))
  | some ip ↦ or_panic (request_ip r.ip_string ip)
]

-- parseCIDR
unfoldable pub requested_cidr : Reading → Text → Result Stop Cidr
requested_cidr r s = elim (r.parse_cidr_text s) [
  | err e ↦ err (fatal (codes "invalid CIDR: " ++ (r.quote s ++ (codes ": " ++ e))))
  | ok parsed ↦ do
    ip ← or_panic (request_ip r.ip_string parsed.0)
    ok (record { ip = some ip; subnet = some (prefix_length (mask_size parsed.1.mask % 2 ^ 32)) })
]

-- The two clients parse their arguments alike.
pub request_ip-same :
    (ip_string : NetIp → Text) (ip : NetIp) → request_ip ip_string ip ≡ net_ip_to_proto ip_string ip
unfolding request_ip net_ip_to_proto
request_ip-same ip_string ip = refl

pub requested_ip-same : (r : Reading) (s : Text) → requested_ip r s ≡ parse_ip r s
unfolding requested_ip parse_ip request_ip net_ip_to_proto
requested_ip-same r s = refl

pub requested_cidr-same : (r : Reading) (s : Text) → requested_cidr r s ≡ parse_cidr r s
unfolding requested_cidr parse_cidr request_ip net_ip_to_proto
requested_cidr-same r s = refl
