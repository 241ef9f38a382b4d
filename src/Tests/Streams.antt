-- ===== src/Tests/Streams.antt =====
-- The services on the wire: a stream that breaks, and queries that are counted.
use proto_ip.Prelude.{
  All, IsBest, List, Option, Result, [], arith, err, false, filter, if◌then◌else◌, list_eq, map,
  nat_eq, none, ok, refl, some, suc, true, ℕ, ◌++◌, ◌==◌, ◌↔◌, ◌∷◌, ◌≡◌, ◌≢◌, ◌⊎◌,
}
use proto_ip.Golang.Grpc.{Status, invalid_argument, unavailable}
use proto_ip.Golang.NetIp.{IpNet, NetIp, mask_size, to16, v4_in_v6_prefix}
use proto_ip.Golang.Text.{Text, codes, decimal, has_suffix}
use proto_ip.Localip.{NetInterface, accepts, ip_net, list, to_cidr, to_ip}
use proto_ip.Localip.Listing.{converted}
use proto_ip.Localip.RoundTrip.{IsNetIp}
use proto_ip.Messages.Ip.{Cidr, Ip}
use proto_ip.Messages.Local.{Interface}
use proto_ip.Rdap.Bootstrap.{
  Bootstrap, BsEntry, entries_for, entry_contains, entry_ones, with_slash,
}
use proto_ip.Rdap.Client.{SubnetText, lookup_cidr, lookup_ip, render_net_ip}
use proto_ip.Rdap.Client.Queries.{lookup_ip-to_ip}
use proto_ip.Rdap.Server.{render_cidr, serve_cidr}
use proto_ip.Rdap.Server.Codes.{serve_cidr-code}
use proto_ip.Rdap.Server.Rendering.{render_cidr-to_cidr}
use proto_ip.Tests.Samples.{texts}

abbrev ten_ip : NetIp
ten_ip = 10 ∷ 1 ∷ 2 ∷ 3 ∷ []

abbrev ten_net : IpNet
ten_net = record { ip = ten_ip; mask = 255 ∷ 0 ∷ 0 ∷ 0 ∷ [] }

abbrev nic : NetInterface
nic = record {
  name = codes "eth0";
  hardware_addr = [];
  flags = 1;
  addrs = ok (ip_net ten_net ∷ ip_net ten_net ∷ []);
}

-- A stream that takes one message.
abbrev one_only : Option Ip → ℕ → Option Text × ℕ
one_only ip w = if w == 0 then (none, suc w) else (some (codes "broken"), w)

-- A stream that takes every interface.
abbrev all_taken : Interface → ℕ → Option Text × ℕ
all_taken iface w = (none, suc w)

abbrev listed : Result Text (List Interface)
listed = list texts.ip_string (λ x. x) (ok (nic ∷ [])) none

abbrev streamed : List Interface
streamed = filter (accepts none) (map (converted texts.ip_string (λ x. x)) (nic ∷ []))

abbrev subnets : SubnetText
subnets = record { scan_number = λ x. ok 8; parse_ip = λ x. none; quote = λ x. x }

render_cidr-to_cidr_example :
    render_cidr texts subnets (some (to_cidr texts.ip_string ten_net))
    ≡ render_net_ip texts ten_net.ip ++ codes "/" ++ decimal (mask_size ten_net.mask)
render_cidr-to_cidr_example = render_cidr-to_cidr texts subnets ten_net (IsNetIp.four (omega arith))

abbrev registry : Bootstrap
registry = record {
  v4 =
      record {
        prefix = record { ip = 10 ∷ 0 ∷ 0 ∷ 0 ∷ []; mask = 255 ∷ 0 ∷ 0 ∷ 0 ∷ [] };
        url = codes "https://rdap.example.net";
        mirrors = [];
      }
      ∷ [];
  v6 = [];
  asn = [];
}

-- A query that answers with its URL and counts.
abbrev echo : Text → Text → ℕ → Result Text Text × ℕ
echo url server w = (ok url, suc w)

abbrev full : NetIp
full = v4_in_v6_prefix ++ ten_ip

full_form : to16 ten_ip ≡ some full
unfolding to16
full_form = refl

lookup_of_ten :
    (All (λ e. entry_contains full e ≡ false) (entries_for registry full)
      × (lookup_ip texts registry echo (some (to_ip texts.ip_string ten_ip)) 0
          ≡ (err (codes "no RDAP server found for " ++ texts.ip_string full), 0)))
    ⊎ ((e : BsEntry) × IsBest (entry_contains full) entry_ones (entries_for registry full) e
        × (has_suffix (with_slash e.url) (codes "/") ≡ true)
        × (lookup_ip texts registry echo (some (to_ip texts.ip_string ten_ip)) 0
            ≡ echo
                (with_slash e.url ++ (codes "ip/" ++ render_net_ip texts full))
                (with_slash e.url)
                0))
lookup_of_ten =
    lookup_ip-to_ip texts registry echo ten_ip full 0 (IsNetIp.four (omega arith)) full_form

abbrev bare_cidr : Cidr
bare_cidr = record { ip = some (to_ip texts.ip_string ten_ip); subnet = none }

serve_cidr-code_example :
    (((bare_cidr.ip ≡ none) ⊎ (bare_cidr.subnet ≡ none))
      × (s : Status) × (serve_cidr texts registry echo subnets (some bare_cidr) 0 ≡ (err s, 0))
      × (s.code ≡ invalid_argument))
    ⊎ ((bare_cidr.ip ≢ none)
        × (bare_cidr.subnet ≢ none)
        × ((serve_cidr texts registry echo subnets (some bare_cidr) 0).1
            ≡ (lookup_cidr texts registry echo subnets (some bare_cidr) 0).1)
        × ((x : Text)
            → ((serve_cidr texts registry echo subnets (some bare_cidr) 0).0 ≡ ok x)
              ↔ ((lookup_cidr texts registry echo subnets (some bare_cidr) 0).0 ≡ ok x))
        × ((s : Status)
            → (serve_cidr texts registry echo subnets (some bare_cidr) 0).0 ≡ err s
            → s.code ≡ unavailable))
serve_cidr-code_example = serve_cidr-code texts registry echo subnets bare_cidr 0
