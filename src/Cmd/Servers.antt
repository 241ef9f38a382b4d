-- ===== src/Cmd/Servers.antt =====
-- cmd/server/main.go, cmd/rdap-server/main.go and the end of cmd/geo-server/main.go: what the servers
-- bind and serve. A TCP listener and grpc.Server are parameters.
pub mod Ends
pub mod Copies
use proto_ip.Prelude.{List, Option, Result, [], err, none, ok, some, suc, ◌++◌, ◌∷◌}
use proto_ip.Geoip.Setup.{Setup}
use proto_ip.Golang.Ints.{negsuc, pos, ℤ}
use proto_ip.Golang.Text.{Text, codes, decimal}
use proto_ip.Messages.Ip.{Cidr, Ip}
use proto_ip.Messages.Local.{Interface}
use proto_ip.Rdap.Bootstrap.{Bootstrap}
use proto_ip.Service.{and_then}

-- The verb %d for an int
unfoldable pub int_text : ℤ → Text
int_text (pos n) = decimal n
int_text (negsuc n) = codes "-" ++ decimal (suc n)

-- What main uses of net and of grpc.Server, to which the services `S` are registered.
pub record Network (L S : Type 0) : Type 0 where
  -- net.Listen("tcp", addr)
  pub listen : Text → Result Text L
  -- srv.Serve(lis); none is its return without an error, as once a signal has stopped it
  pub serve : L → S → Option Text

-- The end of a server: it was stopped, or log.Fatal with a text.
pub data ServerEnd : Type 0 where
  ended_well : ServerEnd
  died : Text → ServerEnd

module _ {L S : Type 0} (n : Network L S) where
  unfoldable pub serve_on : L → S → ServerEnd
  serve_on lis services = elim (n.serve lis services) [
    | none ↦ ended_well
    | some e ↦ died (codes "serve: " ++ e)
  ]

  -- From the address to the end of main.
  unfoldable pub bind_and_serve : ℤ → S → ServerEnd
  bind_and_serve port services =
      let addr = codes ":" ++ int_text port in
      elim (n.listen addr) [
        | err e ↦ died (codes "listen " ++ (addr ++ (codes ": " ++ e)))
        | ok lis ↦ serve_on lis services
      ]

module _ {W : Type 0} where
  -- The loop of ListInterfaces of cmd/server
  unfoldable pub send_interfaces :
      (Interface → W → Option Text × W) → List Interface → W → Option Text × W
  send_interfaces send [] w = (none, w)
  send_interfaces send (iface ∷ ifs) w = and_then (send iface w) (send_interfaces send ifs)

  -- ListInterfaces of cmd/server
  unfoldable pub local_interfaces :
      Result Text (List Interface) → (Interface → W → Option Text × W) → W → Option Text × W
  local_interfaces (err e) send w = (some e, w)
  local_interfaces (ok ifs) send w = send_interfaces send ifs w

  -- The inner loop of ListIPs of cmd/server, and what follows it.
  unfoldable pub send_addresses :
      (Option Ip → W → Option Text × W) → List Cidr → (W → Option Text × W) → W → Option Text × W
  send_addresses send [] after w = after w
  send_addresses send (c ∷ cs) after w = and_then (send c.ip w) (send_addresses send cs after)

  unfoldable pub local_addresses :
      (Option Ip → W → Option Text × W) → List Interface → W → Option Text × W
  local_addresses send [] w = (none, w)
  local_addresses send (iface ∷ ifs) w =
      send_addresses send iface.addresses (local_addresses send ifs) w

  -- ListIPs of cmd/server
  unfoldable pub local_ips :
      Result Text (List Interface) → (Option Ip → W → Option Text × W) → W → Option Text × W
  local_ips (err e) send w = (some e, w)
  local_ips (ok ifs) send w = local_addresses send ifs w

-- The main of cmd/server; LocalLookup has no configuration.
unfoldable pub local_server : {L : Type 0} → Network L Unit → ℤ → ServerEnd
local_server n port = bind_and_serve n port _

-- The main of cmd/rdap-server, with the result of NewBootstrap.
unfoldable pub rdap_server :
    {L : Type 0} → Network L Bootstrap → ℤ → Result Text Bootstrap → ServerEnd
rdap_server n port boot = elim boot [
  | err e ↦ died (codes "bootstrap: " ++ e)
  | ok b ↦ bind_and_serve n port b
]

-- The main of cmd/geo-server, with the server it builds or the log.Fatal before.
unfoldable pub run_geo_server : {L : Type 0} → Network L Setup → ℤ → Result Text Setup → ServerEnd
run_geo_server n port built = elim built [ err e ↦ died e | ok setup ↦ bind_and_serve n port setup ]
