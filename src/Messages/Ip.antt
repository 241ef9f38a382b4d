-- ===== src/Messages/Ip.antt =====
-- proto/ippb/ip.pb.go, ipv4.pb.go, ipv6.pb.go, subnet.pb.go and cidr.pb.go.
use proto_ip.Prelude.{List, Option, ℕ}
use proto_ip.Golang.Ints.{ℤ}
use proto_ip.Golang.Text.{Text}

-- The oneof `format` of an IPv4Address; `unset` where none is set.
pub data Ipv4Address : Type 0 where
  unset : Ipv4Address
  dotted_decimal : Text → Ipv4Address
  num : ℕ → Ipv4Address
  octets : List ℕ → Ipv4Address
  inet_aton : Text → Ipv4Address

-- The oneof `format` of an IPv6Address.
pub data Ipv6Address : Type 0 where
  unset : Ipv6Address
  text : Text → Ipv6Address
  octets : List ℕ → Ipv6Address
  zone_id : Text → Ipv6Address

-- The oneof `version` of an IP.
pub data Version : Type 0 where
  unset : Version
  v4 : Ipv4Address → Version
  v6 : Ipv6Address → Version
  versionless : Version

pub record Ip : Type 0 where
  pub network_prefix : ℤ
  pub interface_identifier : ℤ
  pub version : Version

-- The oneof `format` of a Subnet.
pub data Subnet : Type 0 where
  unset : Subnet
  text : Text → Subnet
  prefix_length : ℕ → Subnet
  netmask : Text → Subnet

pub record Cidr : Type 0 where
  pub ip : Option Ip
  pub subnet : Option Subnet
