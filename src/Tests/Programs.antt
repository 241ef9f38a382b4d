-- ===== src/Tests/Programs.antt =====
-- Arguments typed at rdap-client and at geo-client.
use proto_ip.Prelude.{
  Result, [], arith, err, length, list_beq, list_eq, nat_eq, none, ok, refl, some, ℕ, ◌++◌, ◌<◌,
  ◌^◌, ◌∷◌, ◌≡◌,
}
use proto_ip.Cmd.Arguments.{Reading}
use proto_ip.Cmd.GeoClient.{print_geo_response, run_geo_client}
use proto_ip.Cmd.GeoClient.Typed.{connected, run_geo_client-typed}
use proto_ip.Cmd.Programs.{printed, short_enum}
use proto_ip.Cmd.RdapClient.{RdapStub, run_client}
use proto_ip.Cmd.RdapClient.Typed
use proto_ip.Cmd.RdapClient.Typed.{EndsWith, run_client-cidr}
use proto_ip.Geoip.Server.{lookup_addr}
use proto_ip.Geoip.Wire.Bytes.{addr_of}
use proto_ip.Golang.Grpc.{Status}
use proto_ip.Golang.Ints.{big_endian}
use proto_ip.Golang.Maps.{lookup}
use proto_ip.Golang.NetIp.{IpNet, NetIp, mask_size, to16, v4_in_v6_prefix}
use proto_ip.Golang.Print.{Format}
use proto_ip.Golang.Text.{Text, codes, cut_prefix, decimal, to_lower, trim_prefix}
use proto_ip.Localip.RoundTrip.{IsNetIp}
use proto_ip.Messages.Names.{status_string}
use proto_ip.Messages.Rdap.{RdapResponse, RdapStatus}
use proto_ip.Rdap.Bootstrap.{Bootstrap}
use proto_ip.Rdap.Client.{SubnetText, query_at, render_net_ip}
use proto_ip.Rdap.Tables.{status_of}
use proto_ip.Tests.Answers.{server}
use proto_ip.Tests.Samples.{host, texts}

abbrev quad : NetIp
quad = 10 ∷ 1 ∷ 2 ∷ 3 ∷ []

abbrev quad_net : IpNet
quad_net = record { ip = 10 ∷ 1 ∷ 0 ∷ 0 ∷ []; mask = 255 ∷ 255 ∷ 0 ∷ 0 ∷ [] }

abbrev reading : Reading
reading = record {
  parse_ip_text = λ _. some quad;
  parse_cidr_text = λ _. ok (quad, quad_net);
  scan_uint32 = λ _. ok 64500;
  quote = λ s. s;
  ip_string = λ _. codes "10.1.2.3";
}

abbrev format : Format
format = record { quote = λ s. s; fixed_four = decimal; characters = length }

abbrev silent_stub : RdapStub
silent_stub = record {
  lookup_ip_call = λ _. err (codes "silent");
  lookup_cidr_call = λ _. err (codes "silent");
  lookup_autnum_call = λ _. err (codes "silent");
}

abbrev no_registry : Bootstrap
no_registry = record { v4 = []; v6 = []; asn = [] }

abbrev silent_query : Text → Text → ℕ → Result Text RdapResponse × ℕ
silent_query _ _ w = (err (codes "silent"), w)

abbrev subnets : SubnetText
subnets = record {
  scan_number = λ _. err (codes "no number");
  parse_ip = λ _. none;
  quote = λ s. s;
}

quad-IsNetIp : IsNetIp quad
quad-IsNetIp = IsNetIp.four (omega arith, (omega arith, (omega arith, (omega arith, tt))))

quad_full : to16 quad ≡ some (v4_in_v6_prefix ++ quad)
unfolding to16
quad_full = refl

small_mask : mask_size quad_net.mask < 2 ^ 32
unfolding mask_size
small_mask = omega arith

abbrev status_text : Status → Text
status_text e = e.message

run_client-cidr_example :
    EndsWith format status_text
      (codes "10.1.2.3/16")
      (query_at texts no_registry silent_query
        (v4_in_v6_prefix ++ quad)
        (codes "ip/" ++ render_net_ip texts quad ++ codes "/" ++ decimal (mask_size quad_net.mask))
        0).0
      (run_client reading format
        (Typed.connected silent_stub texts no_registry silent_query subnets status_text 0)
        (codes "cidr" ∷ codes "10.1.2.3/16" ∷ []))
run_client-cidr_example =
    run_client-cidr reading format silent_stub texts no_registry silent_query subnets status_text
      (codes "10.1.2.3/16") quad (v4_in_v6_prefix ++ quad) quad_net 0 refl quad-IsNetIp quad_full
      small_mask

run_geo_client-typed_example :
    (run_geo_client reading format
        (connected texts server status_text 0)
        (codes "ip" ∷ codes "10.1.2.3" ∷ [])
      ≡ printed (print_geo_response format (lookup_addr texts server (addr_of quad) 0).0))
    × (run_geo_client reading format
          (connected texts server status_text 0)
          (codes "cidr" ∷ codes "10.1.2.3/16" ∷ [])
        ≡ printed (print_geo_response format (lookup_addr texts server (addr_of quad) 0).0))
run_geo_client-typed_example =
    run_geo_client-typed reading format texts server status_text 0 (codes "10.1.2.3")
      (codes "10.1.2.3/16") quad (v4_in_v6_prefix ++ quad) quad_net refl refl quad-IsNetIp quad_full
      small_mask

-- The address of the four bytes.
quad_addr : addr_of quad ≡ host
unfolding addr_of big_endian
quad_addr = refl

-- The name of a status of two words is not the word of the JSON.
abbrev pending : Text
pending = short_enum (status_string RdapStatus.pending_create) (codes "RDAP_STATUS_")

pending_word : status_of pending ≡ RdapStatus.rdap_status_unknown
unfolding short_enum status_string status_of to_lower trim_prefix cut_prefix list_beq lookup
pending_word = refl
