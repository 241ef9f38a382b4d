-- ===== src/Rdap/Client.antt =====
-- rdap/client.go: which registry a lookup asks and by which URL. The query itself is an argument of
-- the lookups, and fmt.Sscanf, net.ParseIP and the quotes of %q are parameters.
pub mod Queries
use proto_ip.Prelude.{
  Option, Result, [], err, if◌then◌else◌, list_eq, map_err, nat_eq, none, ok, some, ℕ, ◌++◌, ◌==◌,
  ◌∷◌,
}
use proto_ip.Golang.NetIp.{NetIp, mask_size, to4}
use proto_ip.Golang.NetText.{NetText}
use proto_ip.Golang.Text.{Text, codes, decimal}
use proto_ip.Messages.{get}
use proto_ip.Messages.Ip.{Cidr, Ip, Subnet, netmask, prefix_length}
use proto_ip.Rdap.Bootstrap.{Bootstrap, resolve, resolve_asn}
use proto_ip.Rdap.Wire.{ip_from_proto}

pub record SubnetText : Type 0 where
  -- fmt.Sscanf "%d" into a uint32, or its error
  pub scan_number : Text → Result Text ℕ
  pub parse_ip : Text → Option NetIp
  pub quote : Text → Text

pub data SubnetError : Type 0 where
  nil_subnet no_format : SubnetError
  bad_prefix_text : Text → Text → SubnetError
  bad_netmask : Text → SubnetError

-- `if len(txt) > 0 && txt[0] == '/' { txt = txt[1:] }`
unfoldable pub drop_slash : Text → Text
drop_slash [] = []
drop_slash (c ∷ s) = if c == b'/' then s else c ∷ s

unfoldable pub scanned_prefix : SubnetText → Text → Result SubnetError ℕ
scanned_prefix n x = map_err (bad_prefix_text x) (n.scan_number (drop_slash x))

unfoldable pub netmask_prefix : SubnetText → Text → Result SubnetError ℕ
netmask_prefix n x = elim (n.parse_ip x) [
  | none ↦ err (bad_netmask x)
  | some ip ↦ elim (to4 ip) [ none ↦ err (bad_netmask x) | some quad ↦ ok (mask_size quad) ]
]

-- subnetPrefixLen
unfoldable pub subnet_prefix_len : SubnetText → Option Subnet → Result SubnetError ℕ
subnet_prefix_len n none = err nil_subnet
subnet_prefix_len n (some (prefix_length p)) = ok p
subnet_prefix_len n (some (Subnet.text x)) = scanned_prefix n x
subnet_prefix_len n (some (netmask x)) = netmask_prefix n x
subnet_prefix_len n (some Subnet.unset) = err no_format

-- renderNetIP
unfoldable pub render_net_ip : NetText → NetIp → Text
render_net_ip t ip = elim (to4 ip) [ some quad ↦ t.ip_string quad | none ↦ t.ip_string ip ]

unfoldable pub subnet_error_text : SubnetText → SubnetError → Text
subnet_error_text n nil_subnet = codes "nil subnet"
subnet_error_text n no_format = codes "subnet has no format set"
subnet_error_text n (bad_prefix_text x e) =
    codes "invalid prefix text " ++ n.quote x ++ codes ": " ++ e
subnet_error_text n (bad_netmask x) = codes "invalid netmask " ++ n.quote x

module _ {W A : Type 0} (t : NetText) (b : Bootstrap)
    (query : Text → Text → W → Result Text A × W) where
  -- The query for a path at the registry of an address.
  unfoldable pub query_at : NetIp → Text → W → Result Text A × W
  query_at ip path w = elim (resolve t b ip) [
    | err e ↦ (err e, w)
    | ok base ↦ query (base ++ path) base w
  ]

  -- LookupIP
  unfoldable pub lookup_ip : Option Ip → W → Result Text A × W
  lookup_ip ip w = elim (ip_from_proto ip) [
    | none ↦ (err (codes "invalid IP message"), w)
    | some nip ↦ query_at nip (codes "ip/" ++ render_net_ip t nip) w
  ]

  -- LookupCIDR
  unfoldable pub lookup_cidr : SubnetText → Option Cidr → W → Result Text A × W
  lookup_cidr n cidr w = elim (ip_from_proto (get none (λ (c : Cidr). c.ip) cidr)) [
    | none ↦ (err (codes "invalid CIDR IP"), w)
    | some nip ↦ elim (subnet_prefix_len n (get none (λ (c : Cidr). c.subnet) cidr)) [
      | err e ↦ (err (subnet_error_text n e), w)
      | ok p ↦ query_at nip (codes "ip/" ++ render_net_ip t nip ++ codes "/" ++ decimal p) w
    ]
  ]

  -- LookupAutnum; the number of a nil message is 0.
  unfoldable pub lookup_autnum : ℕ → W → Result Text A × W
  lookup_autnum asn w = elim (resolve_asn b asn) [
    | err e ↦ (err e, w)
    | ok base ↦ query (base ++ codes "autnum/" ++ decimal asn) base w
  ]
