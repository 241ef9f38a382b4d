-- ===== src/Cmd/GeoClient/Typed.antt =====
-- From a typed argument to the lines printed.
use proto_ip.Prelude.{[], list_beq, map_err, ok, refl, some, ◌<◌, ◌^◌, ◌∷◌, ◌≡◌}
use proto_ip.Cmd.Arguments.{Reading, or_panic}
use proto_ip.Cmd.GeoClient.{GeoStub, print_geo_response, run_geo_client, run_geo_subcommand}
use proto_ip.Cmd.GeoClient.Requests.{request_ip-same, requested_cidr-same, requested_ip}
use proto_ip.Cmd.Programs.{asked_for, printed}
use proto_ip.Cmd.RdapClient.Typed.{net_ip_to_proto-to_ip, typed_cidr}
use proto_ip.Geoip.Server.{GeoServer, lookup_addr, lookup_cidr, lookup_ip}
use proto_ip.Geoip.Wire.Bytes.{addr_from_proto-to_ip, addr_of}
use proto_ip.Golang.Grpc.{Status}
use proto_ip.Golang.NetIp.{IpNet, NetIp, mask_size, to16}
use proto_ip.Golang.NetText.{NetText}
use proto_ip.Golang.Print.{Format}
use proto_ip.Golang.Text.{Text, codes}
use proto_ip.Localip.{to_ip}
use proto_ip.Localip.RoundTrip.{IsNetIp}

-- The stub of a connection to the service in the state `w`; gRPC carries the messages and the status.
unfoldable pub connected : {W : Type 0} → NetText → GeoServer W → (Status → Text) → W → GeoStub
connected t s error_text w = record {
  lookup_ip_call = λ ip. map_err error_text (lookup_ip t s (some ip) w).0;
  lookup_cidr_call = λ c. map_err error_text (lookup_cidr t s (some c) w).0;
}

module _ {W : Type 0} (r : Reading) (f : Format) (t : NetText) (s : GeoServer W)
    (error_text : Status → Text) (w : W) where
  typed_ip :
      (x : Text) (ip full : NetIp)
      → r.parse_ip_text x ≡ some ip
      → to16 ip ≡ some full
      → requested_ip r x ≡ ok (to_ip r.ip_string ip)
  unfolding requested_ip or_panic
  typed_ip x ip full h e =
      rw
        (
          h,
          requested_ip,
          request_ip-same r.ip_string ip,
          net_ip_to_proto-to_ip r.ip_string ip full e,
        )
        refl

  answered_ip :
      (ip : NetIp)
      → IsNetIp ip
      → (lookup_ip t s (some (to_ip r.ip_string ip)) w).0 ≡ ok (lookup_addr t s (addr_of ip) w).0
  unfolding lookup_ip
  answered_ip ip shape = rw (addr_from_proto-to_ip r.ip_string ip shape, lookup_ip) refl

  -- An address typed at geo-client, whose text parses to four or sixteen bytes, has printed what the
  -- service knows of the address of these bytes, an IPv4-mapped one as IPv4; a typed prefix has
  -- printed the same for the address typed with it, whatever its mask of fewer than 2 ^ 32 ones.
  pub run_geo_client-typed :
      (x y : Text) (ip full : NetIp) (net : IpNet)
      → r.parse_ip_text x ≡ some ip
      → r.parse_cidr_text y ≡ ok (ip, net)
      → IsNetIp ip
      → to16 ip ≡ some full
      → mask_size net.mask < 2 ^ 32
      → (run_geo_client r f (connected t s error_text w) (codes "ip" ∷ x ∷ [])
          ≡ printed (print_geo_response f (lookup_addr t s (addr_of ip) w).0))
        × (run_geo_client r f (connected t s error_text w) (codes "cidr" ∷ y ∷ [])
            ≡ printed (print_geo_response f (lookup_addr t s (addr_of ip) w).0))
  unfolding run_geo_client run_geo_subcommand asked_for list_beq connected lookup_cidr
  run_geo_client-typed x y ip full net hx hy shape e lt = (
    rw (typed_ip x ip full hx e, asked_for, answered_ip ip shape, asked_for) refl,
    rw
        (
          requested_cidr-same r y,
          typed_cidr r y ip full net hy e lt,
          asked_for,
          answered_ip ip shape,
          asked_for,
        )
        refl,
  )
