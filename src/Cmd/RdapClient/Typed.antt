-- ===== src/Cmd/RdapClient/Typed.antt =====
-- From a typed argument to the registry's query.
use proto_ip.Prelude.{
  Option-cases, Result, [], ap, arith, err, inl, inr, list_beq, map_err, ok, refl, some, ℕ, ◌++◌,
  ◌<◌, ◌^◌, ◌∙◌, ◌∷◌, ◌≡◌, ◌⊎◌,
}
use proto_ip.Cmd.Arguments.{Reading, fatal, net_ip_to_proto, or_panic, parse_cidr}
use proto_ip.Cmd.Programs.{Outcome, asked_for, printed, stopped}
use proto_ip.Cmd.RdapClient.{RdapStub, failed_call, print_response, run_client, run_subcommand}
use proto_ip.Golang.Grpc.{Status, unavailable}
use proto_ip.Golang.NetIp.{IpNet, NetIp, mask_size, to16, to4}
use proto_ip.Golang.NetText.{NetText}
use proto_ip.Golang.Print.{Format}
use proto_ip.Golang.Text.{Text, codes, decimal}
use proto_ip.Localip.{low_half, to_ip}
use proto_ip.Localip.RoundTrip.{IsNetIp, ip_from_proto-to_ip}
use proto_ip.Messages.Ip.{prefix_length}
use proto_ip.Messages.Rdap.{RdapResponse}
use proto_ip.Rdap.Bootstrap.{Bootstrap}
use proto_ip.Rdap.Client.{SubnetText, lookup_cidr, query_at, render_net_ip, subnet_prefix_len}
use proto_ip.Rdap.Client.Queries.{same_bytes}
use proto_ip.Rdap.Query.{query}
use proto_ip.Rdap.Server.{answered_by, serve_cidr, unavailable_error}
use proto_ip.Rdap.Server.Rendering.{render-to16}
use proto_ip.Rdap.Wire.{ip_from_proto}

-- The clients put an address into a message as the listing of local interfaces does.
pub net_ip_to_proto-to_ip :
    (ip_string : NetIp → Text) (ip full : NetIp)
    → to16 ip ≡ some full
    → net_ip_to_proto ip_string ip ≡ some (to_ip ip_string ip)
unfolding net_ip_to_proto to_ip low_half
net_ip_to_proto-to_ip ip_string ip full h = elim (Option-cases (to4 ip)) [
  | inl six ↦ rw (six, h, net_ip_to_proto, to_ip) refl
  | inr (quad, four) ↦ rw (four, net_ip_to_proto, to_ip) refl
]

pub typed_cidr :
    (r : Reading) (x : Text) (ip full : NetIp) (net : IpNet)
    → r.parse_cidr_text x ≡ ok (ip, net)
    → to16 ip ≡ some full
    → mask_size net.mask < 2 ^ 32
    → parse_cidr r x
      ≡ ok (record {
        ip = some (to_ip r.ip_string ip);
        subnet = some (prefix_length (mask_size net.mask));
      })
unfolding parse_cidr or_panic
typed_cidr r x ip full net h e lt =
    rw (h, parse_cidr, net_ip_to_proto-to_ip r.ip_string ip full e)
      (ap
        (λ (k : ℕ).
          ok (record { ip = some (to_ip r.ip_string ip); subnet = some (prefix_length k) }))
        (omega arith))

-- The request for a typed prefix.
asked_cidr :
    {W A : Type 0} (t : NetText) (b : Bootstrap) (query : Text → Text → W → Result Text A × W)
    (n : SubnetText) (ip_string : NetIp → Text) (ip full : NetIp) (ones : ℕ) (w : W)
    → IsNetIp ip
    → to16 ip ≡ some full
    → lookup_cidr t b query n
        (some (record { ip = some (to_ip ip_string ip); subnet = some (prefix_length ones) }))
        w
      ≡ query_at t b query full (codes "ip/" ++ render_net_ip t ip ++ codes "/" ++ decimal ones) w
unfolding lookup_cidr subnet_prefix_len
asked_cidr t b query n ip_string ip full ones w h e =
    let same : ip_from_proto (some (to_ip ip_string ip)) ≡ some full =
      same_bytes _ ∙ ip_from_proto-to_ip ip_string ip h ∙ e in
    rw (same, lookup_cidr, render-to16 t ip full h e) refl

-- The stub of a connection to the server of rdap/server.go in a world: a status is passed on as the
-- error that gRPC makes of it.
abbrev pub connected :
    {W : Type 0}
    → RdapStub
    → NetText
    → Bootstrap
    → (Text → Text → W → Result Text RdapResponse × W)
    → SubnetText
    → (Status → Text)
    → W
    → RdapStub
connected stub t b query n status_text w = record stub {
  lookup_cidr_call = λ c. map_err status_text (serve_cidr t b query n (some c) w).0;
}

-- The handler's answer to the request for a typed prefix.
served_cidr :
    {W A : Type 0} (t : NetText) (b : Bootstrap) (query : Text → Text → W → Result Text A × W)
    (n : SubnetText) (ip_string : NetIp → Text) (ip full : NetIp) (ones : ℕ) (w : W)
    → IsNetIp ip
    → to16 ip ≡ some full
    → (serve_cidr t b query n
        (some (record { ip = some (to_ip ip_string ip); subnet = some (prefix_length ones) }))
        w).0
      ≡ answered_by
          (codes "RDAP lookup: ")
          (query_at t b query full
            (codes "ip/" ++ render_net_ip t ip ++ codes "/" ++ decimal ones)
            w).0
unfolding serve_cidr
served_cidr t b query n ip_string ip full ones w h e =
    rw (asked_cidr t b query n ip_string ip full ones w h e) refl

-- How a run ends with what the registry gave.
abbrev pub EndsWith : Format → (Status → Text) → Text → Result Text RdapResponse → Outcome → Type 0
EndsWith f status_text x reply out =
    ((resp : RdapResponse) × (reply ≡ ok resp) × (out ≡ printed (print_response f resp)))
    ⊎ ((e : Text) × (reply ≡ err e)
        × (out
            ≡ stopped (
                fatal (
                  codes "LookupCIDR"
                  ++ (codes "("
                      ++ (x
                          ++ (codes "): "
                              ++ status_text (record {
                                code = unavailable;
                                message = codes "RDAP lookup: " ++ e;
                              }))))))))

asked_for-EndsWith :
    {A : Type 0} (f : Format) (status_text : Status → Text) (x : Text)
    (reply : Result Text RdapResponse) (ask : A → Result Text RdapResponse) (a : A)
    → ask a ≡ map_err status_text (answered_by (codes "RDAP lookup: ") reply)
    → EndsWith f status_text x reply
        (asked_for (ok a) ask (failed_call (codes "LookupCIDR") x) (print_response f))
unfolding asked_for failed_call answered_by unavailable_error
asked_for-EndsWith f status_text x (ok resp) ask a h = inl (resp, refl, rw (h, asked_for) refl)
asked_for-EndsWith f status_text x (err e) ask a h = inr (e, refl, rw (h, asked_for) refl)

-- A prefix typed at rdap-client, whose text parses to an address of four or sixteen bytes and a
-- network whose mask has fewer than 2 ^ 32 ones, is asked for by the server that the client is
-- connected to, at the registry of the typed address, not the network's, with the length of the
-- network's mask. Either the registry answers, and the answer is printed; or there is an error, and
-- the program ends with it, as the unavailable status that the server makes of it.
pub run_client-cidr :
    {W : Type 0} (r : Reading) (f : Format) (stub : RdapStub) (t : NetText) (b : Bootstrap)
    (query : Text → Text → W → Result Text RdapResponse × W) (n : SubnetText)
    (status_text : Status → Text) (x : Text) (ip full : NetIp) (net : IpNet) (w : W)
    → r.parse_cidr_text x ≡ ok (ip, net)
    → IsNetIp ip
    → to16 ip ≡ some full
    → mask_size net.mask < 2 ^ 32
    → EndsWith f status_text x
        (query_at t b query full
          (codes "ip/" ++ render_net_ip t ip ++ codes "/" ++ decimal (mask_size net.mask))
          w).0
        (run_client r f (connected stub t b query n status_text w) (codes "cidr" ∷ x ∷ []))
unfolding run_client run_subcommand list_beq
run_client-cidr r f stub t b query n status_text x ip full net w h shape e lt =
    rw (typed_cidr r x ip full net h e lt) (
      asked_for-EndsWith f status_text x _
        (λ c. map_err status_text (serve_cidr t b query n (some c) w).0) _
        (ap (map_err status_text)
          (served_cidr t b query n r.ip_string ip full (mask_size net.mask) w shape e)))
