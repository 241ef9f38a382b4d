-- ===== src/Localip.antt =====
-- localip/list.go: the host's interfaces as messages. `net.Interfaces` is a parameter, and so are
-- the texts of addresses (`ip_string`) and the lower case of characters beyond ASCII (`unicode`).
pub mod Listing
pub mod RoundTrip
pub mod Routable
use proto_ip.Prelude.{
  Bool, List, Option, Result, [], any, err, false, if◌then◌else◌, is_empty, list_beq, list_eq,
  nat_eq, none, not, ok, some, true, ℕ, ◌%◌, ◌&&◌, ◌++◌, ◌/◌, ◌==◌, ◌>>=◌, ◌||◌, ◌∷◌,
}
use proto_ip.Golang.Ints.{big_endian, int64, pos, put_uint64, uint64}
use proto_ip.Golang.NetIp.{
  IpNet, NetIp, drop, is_link_local_multicast, is_link_local_unicast, is_loopback, is_private,
  is_unspecified, mask_size, take, to16, to4,
}
use proto_ip.Golang.Text.{Text, codes, has_prefix, to_lower}
use proto_ip.Messages.Ip.{Cidr, Ip, Ipv6Address, Version, dotted_decimal, prefix_length, v4, v6}
use proto_ip.Messages.Local.{
  Interface, InterfaceClass, LookupFilter, class_number, ethernet, loopback, tunnel, virtual,
  wireless,
}

-- An address of an interface: a *net.IPNet, or another type of net.Addr.
pub data NetAddr : Type 0 where
  ip_net : IpNet → NetAddr
  other : NetAddr

-- net.Interface, with what ni.Addrs() returns.
pub record NetInterface : Type 0 where
  pub name : Text
  pub hardware_addr : List ℕ
  pub flags : ℕ
  pub addrs : Result Text (List NetAddr)

-- ni.Flags&net.FlagUp != 0
abbrev pub is_up : ℕ → Bool
is_up flags = flags % 2 == 1

-- ni.Flags&net.FlagLoopback != 0, the bit 1 << 2
abbrev pub is_loopback_flag : ℕ → Bool
is_loopback_flag flags = flags / 4 % 2 == 1

-- isRoutable
unfoldable pub is_routable : NetIp → Bool
unfolding is_loopback is_unspecified is_link_local_unicast is_link_local_multicast is_private
is_routable ip =
    if is_loopback ip || is_unspecified ip
    then false
    else if is_link_local_unicast ip || is_link_local_multicast ip
    then false
    else if is_private ip
    then false
    else true

-- ipFromProto
unfoldable pub ip_from_proto : Option Ip → Option NetIp
ip_from_proto none = none
ip_from_proto (some ip) =
    some (put_uint64 (uint64 ip.network_prefix) ++ put_uint64 (uint64 ip.interface_identifier))

abbrev has_any_prefix : List Text → Text → Bool
has_any_prefix ps name = any (λ p. has_prefix name p) ps

abbrev tunnel_prefixes : List Text
tunnel_prefixes =
    codes "utun"
    ∷ codes "tun"
    ∷ codes "tap"
    ∷ codes "wg"
    ∷ codes "ipsec"
    ∷ codes "gif"
    ∷ codes "stf"
    ∷ []

abbrev virtual_prefixes : List Text
virtual_prefixes =
    codes "bridge"
    ∷ codes "br"
    ∷ codes "awdl"
    ∷ codes "llw"
    ∷ codes "anpi"
    ∷ codes "ap"
    ∷ codes "vmnet"
    ∷ codes "veth"
    ∷ codes "docker"
    ∷ codes "vlan"
    ∷ []

abbrev wireless_prefixes : List Text
wireless_prefixes = codes "wlan" ∷ codes "wifi" ∷ codes "wlp" ∷ []

abbrev ethernet_prefixes : List Text
ethernet_prefixes = codes "eth" ∷ codes "en" ∷ codes "enp" ∷ codes "ens" ∷ []

-- The switch of `classify` on the lower-case name.
unfoldable pub classify_name : Text → InterfaceClass
unfolding has_prefix
classify_name name =
    if has_any_prefix tunnel_prefixes name
    then tunnel
    else if has_any_prefix virtual_prefixes name
    then virtual
    else if has_any_prefix wireless_prefixes name
    then wireless
    else if has_any_prefix ethernet_prefixes name
    then ethernet
    else InterfaceClass.unknown

-- classify
unfoldable pub classify : (Text → Text) → NetInterface → InterfaceClass
classify unicode ni =
    if is_loopback_flag ni.flags then loopback else classify_name (to_lower unicode ni.name)

-- uint64(0xFFFF)<<32 | the four bytes; the bits are disjoint.
unfoldable pub low_half : List ℕ → ℕ
low_half quad = big_endian 0xffff quad

unfoldable pub empty_ip : Ip
empty_ip = record { network_prefix = pos 0; interface_identifier = pos 0; version = Version.unset }

-- toIP
unfoldable pub to_ip : (NetIp → Text) → NetIp → Ip
unfolding low_half empty_ip
to_ip ip_string ip = elim (to4 ip) [
  | some quad ↦ record {
    network_prefix = pos 0;
    interface_identifier = int64 (low_half quad);
    version = v4 (dotted_decimal (ip_string quad));
  }
  | none ↦ elim (to16 ip) [
    | none ↦ empty_ip
    | some full ↦ record {
      network_prefix = int64 (big_endian 0 (take 8 full));
      interface_identifier = int64 (big_endian 0 (drop 8 full));
      version = v6 (Ipv6Address.text (ip_string full));
    }
  ]
]

-- toCIDR
unfoldable pub to_cidr : (NetIp → Text) → IpNet → Cidr
to_cidr ip_string n = record {
  ip = some (to_ip ip_string n.ip);
  subnet = some (prefix_length (mask_size n.mask));
}

unfoldable pub cidrs_of : (NetIp → Text) → List NetAddr → List Cidr
cidrs_of ip_string [] = []
cidrs_of ip_string (ip_net n ∷ rest) = to_cidr ip_string n ∷ cidrs_of ip_string rest
cidrs_of ip_string (other ∷ rest) = cidrs_of ip_string rest

-- `if err != nil { addrs = nil }`
abbrev addrs_or_nil : Result Text (List NetAddr) → List NetAddr
addrs_or_nil (ok found) = found
addrs_or_nil (err e) = []

-- convertInterface
unfoldable pub convert_interface :
    (NetIp → Text) → (Text → Text) → NetInterface → Result Text Interface
convert_interface ip_string unicode ni = ok (record {
  class = classify unicode ni;
  name = ni.name;
  hardware_address = ni.hardware_addr;
  addresses = cidrs_of ip_string (addrs_or_nil ni.addrs);
  up = is_up ni.flags;
})

unfoldable pub has_class : List InterfaceClass → InterfaceClass → Bool
unfolding class_number
has_class classes c = any (λ d. class_number d == class_number c) classes

unfoldable pub has_name : List Text → Text → Bool
unfolding list_beq
has_name names n = any (λ m. m == n) names

-- `ip != nil && isRoutable(ip)`
unfoldable pub routable_address : Cidr → Bool
routable_address c = elim (ip_from_proto c.ip) [ none ↦ false | some ip ↦ is_routable ip ]

-- accepts
unfoldable pub accepts : Option LookupFilter → Interface → Bool
accepts none iface = true
accepts (some f) iface =
    if not (is_empty f.classes) && not (has_class f.classes iface.class)
    then false
    else if not (is_empty f.names) && not (has_name f.names iface.name)
    then false
    else if f.only_routable && not (any routable_address iface.addresses)
    then false
    else true

-- The loop of `List`: a failed conversion fails the listing.
unfoldable pub convert_all :
    (NetIp → Text)
    → (Text → Text)
    → Option LookupFilter
    → List NetInterface
    → Result Text (List Interface)
convert_all ip_string unicode f [] = ok []
convert_all ip_string unicode f (ni ∷ nis) =
    let rest = convert_all ip_string unicode f nis in
    do
      iface ← convert_interface ip_string unicode ni
      out ← rest
      ok (if not (accepts f iface) then out else iface ∷ out)

-- List; `interfaces` is what net.Interfaces() returns.
unfoldable pub list :
    (NetIp → Text)
    → (Text → Text)
    → Result Text (List NetInterface)
    → Option LookupFilter
    → Result Text (List Interface)
list ip_string unicode (err e) f = err (codes "net.Interfaces: " ++ e)
list ip_string unicode (ok nis) f = convert_all ip_string unicode f nis
