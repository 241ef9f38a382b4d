-- ===== src/Cmd/Servers/Copies.antt =====
-- The two copies of the LocalLookup service.
use proto_ip.Prelude.{List, Option, Result, [], err, map, ok, refl, sym, ◌∙◌, ◌∷◌, ◌≡◌}
use proto_ip.Cmd.Servers.{
  local_addresses, local_interfaces, local_ips, send_addresses, send_interfaces,
}
use proto_ip.Golang.Text.{Text}
use proto_ip.Messages.Ip.{Cidr, Ip}
use proto_ip.Messages.Local.{Interface}
use proto_ip.Service.{and_then, list_interfaces, list_ips, send_all, send_ips}
use proto_ip.Service.Sending.{and_then_assoc, and_then_congr}

module _ {W : Type 0} where
  same_interfaces :
      (send : Interface → W → Option Text × W) (ifs : List Interface) (w : W)
      → send_interfaces send ifs w ≡ send_all send ifs w
  unfolding send_interfaces send_all
  same_interfaces send [] w = refl
  same_interfaces send (iface ∷ ifs) w =
      and_then_congr (send iface w) _ _ (same_interfaces send ifs)

  -- The inner loop and what follows it.
  send_addresses-after :
      (send : Option Ip → W → Option Text × W) (cs : List Cidr) (after : W → Option Text × W)
      (w : W)
      → send_addresses send cs after w
        ≡ and_then (send_all send (map (λ (c : Cidr). c.ip) cs) w) after
  unfolding send_addresses send_all and_then
  send_addresses-after send [] after w = refl
  send_addresses-after send (c ∷ cs) after w =
      and_then_congr (send c.ip w) _ _ (send_addresses-after send cs after)
      ∙ sym (and_then_assoc (send c.ip w) (send_all send (map (λ (x : Cidr). x.ip) cs)) after)

  same_addresses :
      (send : Option Ip → W → Option Text × W) (ifs : List Interface) (w : W)
      → local_addresses send ifs w ≡ send_ips send ifs w
  unfolding local_addresses send_ips
  same_addresses send [] w = refl
  same_addresses send (iface ∷ ifs) w =
      send_addresses-after send iface.addresses (local_addresses send ifs) w
      ∙ and_then_congr (send_all send (map (λ (c : Cidr). c.ip) iface.addresses) w) _ _
          (same_addresses send ifs)

  -- The stand-alone server and the service of Register answer alike: they stream the same messages
  -- and stop at the same first error, whatever the listing gives and the streams do.
  pub local_server-register :
      (listed : Result Text (List Interface)) (send : Interface → W → Option Text × W)
      (send_ip : Option Ip → W → Option Text × W) (w : W)
      → (local_interfaces listed send w ≡ list_interfaces listed send w)
        × (local_ips listed send_ip w ≡ list_ips listed send_ip w)
  unfolding local_interfaces list_interfaces local_ips list_ips
  local_server-register (err e) send send_ip w = (refl, refl)
  local_server-register (ok ifs) send send_ip w =
      (same_interfaces send ifs w, same_addresses send_ip ifs w)
