-- ===== src/Tests/Wires.antt =====
-- Addresses on the wire, and the listing of an interface.
use proto_ip.Prelude.{[], arith, err, false, ok, some, true, ◌>>=◌, ◌↔◌, ◌∷◌, ◌≡◌}
use proto_ip.Geoip.Wire.{
  addr_from_proto, addr_from_proto-proto_from_addr, proto_from_addr, without_zone,
}
use proto_ip.Golang.NetIp.{NetIp, to16}
use proto_ip.Golang.Netip.{unmap}
use proto_ip.Golang.Text.{Text, codes}
use proto_ip.Localip.{NetAddr, NetInterface, accepts, ip_from_proto, ip_net, to_ip}
use proto_ip.Localip.Listing.{Meets, accepts_iff, converted}
use proto_ip.Localip.RoundTrip.{IsNetIp, ip_from_proto-to_ip}
use proto_ip.Messages.Local.{LookupFilter, tunnel}
use proto_ip.Tests.Samples.{host}

addr_from_proto-proto_from_addr_example :
    addr_from_proto (some (proto_from_addr host)) ≡ ok (unmap (without_zone host))
addr_from_proto-proto_from_addr_example =
    addr_from_proto-proto_from_addr host (omega arith) (λ e. cc)

abbrev ten_ip : NetIp
ten_ip = 10 ∷ 1 ∷ 2 ∷ 3 ∷ []

abbrev dotted : NetIp → Text
dotted _ = codes "10.1.2.3"

ip_from_proto-to_ip_example : ip_from_proto (some (to_ip dotted ten_ip)) ≡ to16 ten_ip
ip_from_proto-to_ip_example = ip_from_proto-to_ip dotted ten_ip (IsNetIp.four (omega arith))

abbrev nic : NetInterface
nic = record {
  name = codes "Eth0";
  hardware_addr = [];
  flags = 1;
  addrs = ok (ip_net (record { ip = ten_ip; mask = 255 ∷ 0 ∷ 0 ∷ 0 ∷ [] }) ∷ NetAddr.other ∷ []);
}

abbrev broken : NetInterface
broken = record { name = codes "wg0"; hardware_addr = []; flags = 0; addrs = err (codes "gone") }

abbrev tunnels : LookupFilter
tunnels = record { classes = tunnel ∷ []; names = []; only_routable = false }

accepts_iff_example :
    (accepts (some tunnels) (converted dotted (λ x. x) broken) ≡ true)
    ↔ Meets tunnels (converted dotted (λ x. x) broken)
accepts_iff_example = accepts_iff tunnels (converted dotted (λ x. x) broken)
