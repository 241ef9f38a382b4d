-- ===== src/Rdap/Wire.antt =====
-- rdap/client.go, the helpers on addresses and subnets.
use proto_ip.Prelude.{Option, none, some, ◌++◌}
use proto_ip.Golang.Ints.{put_uint64, uint64}
use proto_ip.Golang.NetIp.{NetIp}
use proto_ip.Messages.Ip.{Ip}

-- ipFromProto: the 16 bytes of the two halves.
unfoldable pub ip_from_proto : Option Ip → Option NetIp
ip_from_proto none = none
ip_from_proto (some ip) =
    some (put_uint64 (uint64 ip.network_prefix) ++ put_uint64 (uint64 ip.interface_identifier))
