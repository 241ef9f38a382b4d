-- ===== src/Service.antt =====
-- service/register.go: the LocalLookup service. The stream is a function that sends one message in
-- a world `W` or fails, and `List` of localip/list.go comes with its result.
pub mod Register
pub mod Sending
use proto_ip.Prelude.{List, Option, Result, [], err, map, none, ok, some, ◌∷◌}
use proto_ip.Golang.Text.{Text}
use proto_ip.Messages.Ip.{Cidr, Ip}
use proto_ip.Messages.Local.{Interface}

module _ {W : Type 0} where
  -- What follows a step unless the step failed: `if err != nil { return err }`.
  unfoldable pub and_then : Option Text × W → (W → Option Text × W) → Option Text × W
  and_then (none, w) next = next w
  and_then (some e, w) next = (some e, w)

  -- The loop of the handlers: the first error of stream.Send ends it.
  unfoldable pub send_all {ℓ} :
      {A : Type ℓ} → (A → W → Option Text × W) → List A → W → Option Text × W
  send_all send [] w = (none, w)
  send_all send (x ∷ xs) w = and_then (send x w) (send_all send xs)

  -- ListInterfaces; none is no error.
  unfoldable pub list_interfaces :
      Result Text (List Interface) → (Interface → W → Option Text × W) → W → Option Text × W
  list_interfaces (err e) send w = (some e, w)
  list_interfaces (ok ifs) send w = send_all send ifs w

  -- The two loops of `ListIPs`.
  unfoldable pub send_ips : (Option Ip → W → Option Text × W) → List Interface → W → Option Text × W
  send_ips send [] w = (none, w)
  send_ips send (iface ∷ ifs) w =
      and_then (send_all send (map (λ (c : Cidr). c.ip) iface.addresses) w) (send_ips send ifs)

  -- ListIPs
  unfoldable pub list_ips :
      Result Text (List Interface) → (Option Ip → W → Option Text × W) → W → Option Text × W
  list_ips (err e) send w = (some e, w)
  list_ips (ok ifs) send w = send_ips send ifs w
