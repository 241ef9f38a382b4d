-- ===== src/Localip/Routable.antt =====
-- Routable addresses by the registry of special-purpose addresses.
mod Quads
mod Sixteens
use proto_ip.Prelude.{
  Bool, List, any, if◌then◌else◌, length, list_eq, ltb, nat_eq, none, not, some, suc, true, zero,
  ◌%◌, ◌&&◌, ◌*◌, ◌++◌, ◌+◌, ◌/◌, ◌^◌, ◌||◌, ◌≤◌,
}
use proto_ip.Golang.Ints.Bytes.{Bytes}
use proto_ip.Golang.NetIp.{
  NetIp, is_link_local_multicast, is_link_local_unicast, is_loopback, is_private, is_unspecified,
}
use proto_ip.Golang.Netip.{Addr, Prefix, addr_eq, contains, prefix_eq, same_bits}
use proto_ip.Localip.Routable.Quads.{special4}
use proto_ip.Localip.Routable.Sixteens.{special6}

abbrev pub special_blocks : List Prefix
special_blocks = special4 ++ special6

-- Whether an address is in no special-purpose block.
abbrev pub outside : Addr → Bool
outside a = not (any (λ q. contains q a) special_blocks)
