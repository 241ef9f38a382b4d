-- ===== src/Cmd/Arguments.antt =====
-- cmd/rdap-client/main.go and cmd/geo-client/main.go: what the two clients make of their arguments.
-- The functions net.ParseIP, net.ParseCIDR and fmt.Sscanf are parameters.
use proto_ip.Prelude.{
  Option, Result, err, if◌then◌else◌, list_eq, nat_eq, none, ok, some, ℕ, ◌%◌, ◌++◌, ◌==◌, ◌>>=◌,
  ◌^◌,
}
use proto_ip.Golang.Ints.{big_endian, int64, pos}
use proto_ip.Golang.NetIp.{IpNet, NetIp, drop, mask_size, take, to16, to4}
use proto_ip.Golang.Text.{Text, codes, trim_prefix}
use proto_ip.Messages.Ip.{Cidr, Ip, Ipv6Address, Version, dotted_decimal, prefix_length}
use proto_ip.Rdap.Query.{parsed}

pub record Reading : Type 0 where
  -- net.ParseIP; none is nil
  pub parse_ip_text : Text → Option NetIp
  -- net.ParseCIDR
  pub parse_cidr_text : Text → Result Text (NetIp × IpNet)
  -- fmt.Sscanf of "%d" into a uint32
  pub scan_uint32 : Text → Result Text ℕ
  -- the verb %q, and net.IP.String
  pub quote : Text → Text
  pub ip_string : NetIp → Text

-- netIPToProto; none is the panic of a slice of nil.
unfoldable pub net_ip_to_proto : (NetIp → Text) → NetIp → Option Ip
net_ip_to_proto ip_string ip = elim (to4 ip) [
  | some quad ↦ some (record {
    network_prefix = pos 0;
    interface_identifier = int64 (big_endian 0xffff quad);
    version = Version.v4 (dotted_decimal (ip_string quad));
  })
  | none ↦ elim (to16 ip) [
    | none ↦ none
    | some full ↦ some (record {
      network_prefix = int64 (big_endian 0 (take 8 full));
      interface_identifier = int64 (big_endian 0 (drop 8 full));
      version = Version.v6 (Ipv6Address.text (ip_string full));
    })
  ]
]

-- Where a program stops before its request: log.Fatalf with its message, or the panic.
pub data Stop : Type 0 where
  fatal : Text → Stop
  panicked : Stop

unfoldable pub or_panic {ℓ} : {A : Type ℓ} → Option A → Result Stop A
or_panic none = err panicked
or_panic (some a) = ok a

-- parseIP
unfoldable pub parse_ip : Reading → Text → Result Stop Ip
parse_ip r s = elim (r.parse_ip_text s) [
  | none ↦ err (fatal (codes "invalid IP address: " ++ r.quote s))
  | some ip ↦ or_panic (net_ip_to_proto r.ip_string ip)
]

unfoldable pub invalid_asn : Reading → Text → Stop
invalid_asn r s = fatal (codes "invalid ASN: " ++ r.quote s)

-- parseASN
unfoldable pub parse_asn : Reading → Text → Result Stop ℕ
parse_asn r s = elim (r.scan_uint32 (trim_prefix s (codes "AS"))) [
  | err e ↦ err (invalid_asn r s)
  | ok n ↦ if n == 0 then err (invalid_asn r s) else ok n
]

-- parseCIDR
unfoldable pub parse_cidr : Reading → Text → Result Stop Cidr
parse_cidr r s = elim (r.parse_cidr_text s) [
  | err e ↦ err (fatal (codes "invalid CIDR: " ++ (r.quote s ++ (codes ": " ++ e))))
  | ok parsed ↦ do
    ip ← or_panic (net_ip_to_proto r.ip_string parsed.0)
    ok (record { ip = some ip; subnet = some (prefix_length (mask_size parsed.1.mask % 2 ^ 32)) })
]
