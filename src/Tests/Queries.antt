-- ===== src/Tests/Queries.antt =====
-- A registry that answers every request with one network, and a card of one telephone number.
use proto_ip.Prelude.{
  IsBest, List, Option, [], arith, best_from, err, if◌then◌else◌, length, list_beq, list_eq, nat_eq,
  none, ok, refl, some, suc, ℕ, ◌++◌, ◌+◌, ◌<◌, ◌==◌, ◌↔◌, ◌∷◌, ◌≡◌, ◌≤◌,
}
use proto_ip.Golang.Choice.{first_text, given, last_text}
use proto_ip.Golang.Ints.{big_endian, int64, put_uint64, uint64}
use proto_ip.Golang.NetIp.{NetIp, drop, mask_size, net_contains, take, to16, to4, v4_in_v6_prefix}
use proto_ip.Golang.Scanner.{Reader}
use proto_ip.Golang.Text.{Text, codes, cut_prefix, has_prefix, has_suffix}
use proto_ip.Localip.{low_half, to_ip}
use proto_ip.Localip.RoundTrip.{IsNetIp}
use proto_ip.Messages.Rdap.{RdapResponse}
use proto_ip.Rdap.Bootstrap.{
  Bootstrap, BsEntry, entries_for, entry_contains, entry_ones, resolve, with_slash,
}
use proto_ip.Rdap.Client.{lookup_ip, query_at, render_net_ip}
use proto_ip.Rdap.Parse.{RdapJson, network_of}
use proto_ip.Rdap.Query.{RdapNet, body_of, get_body, parsed, query, read_body, truncate}
use proto_ip.Rdap.Query.Answers.{IsReply, query_iff}
use proto_ip.Rdap.Query.Registry.{lookup_ip-IsReply}
use proto_ip.Rdap.Query.Truncate.{truncate_lem}
use proto_ip.Rdap.Vcard.{
  Entry, JsonText, Property, email, entry_of_fields, or_kept, parse_vcard, property_of, raw_entries,
  read_entry, take_entries, take_entry, take_property, take_raw, tel,
}
use proto_ip.Rdap.Vcard.Fields.{entries_of, labels, parse_vcard-fields, values}
use proto_ip.Tests.Samples.{texts}

abbrev no_json : JsonText
no_json = record { array = λ _. none; string = λ _. none; label = λ _. none }

abbrev network_json : RdapJson
network_json = record {
  handle = codes "NET-10";
  name = codes "TEN";
  type = [];
  start_address = codes "10.0.0.0";
  end_address = codes "10.255.255.255";
  ip_version = codes "v4";
  country = [];
  status = codes "active" ∷ [];
  entities = [];
  events = [];
  links = [];
  parent_handle = [];
  cidr0_cidrs = [];
  rdap_conformance = [];
}

abbrev body : Reader
body = record { content = codes "{}"; failure = none }

abbrev net : RdapNet ℕ
net = record {
  request_error = λ _. none;
  http = λ _ w. (ok (200, body), suc w);
  json = no_json;
  decode_network = λ _. ok network_json;
  decode_autnum = λ _. err (codes "no number");
}

abbrev base : Text
base = codes "https://rdap.example.net/"

abbrev response : RdapResponse
response = record { network = network_of no_json network_json base; raw_json = codes "{}" }

query_iff_example :
    ((query net (codes "https://rdap.example.net/ip/10.1.2.3") base 0).0 ≡ ok response)
    ↔ IsReply net (codes "https://rdap.example.net/ip/10.1.2.3") base 0 response
query_iff_example = query_iff net (codes "https://rdap.example.net/ip/10.1.2.3") base 0 response

truncate_lem_example :
    (length (truncate (codes "abcdef") 4) ≤ 4 + 3)
    × (length (codes "abcdef") ≤ 4 → truncate (codes "abcdef") 4 ≡ codes "abcdef")
    × (4 < length (codes "abcdef")
        → (take 4 (truncate (codes "abcdef") 4) ≡ take 4 (codes "abcdef"))
          × (length (truncate (codes "abcdef") 4) ≡ 4 + 3))
truncate_lem_example = truncate_lem (codes "abcdef") 4

abbrev registry : Bootstrap
registry = record {
  v4 =
      record {
        prefix = record { ip = 10 ∷ 0 ∷ 0 ∷ 0 ∷ []; mask = 255 ∷ 0 ∷ 0 ∷ 0 ∷ [] };
        url = codes "https://rdap.example.net";
        mirrors = [];
      }
      ∷ [];
  v6 = [];
  asn = [];
}

abbrev ten_ip : NetIp
ten_ip = 10 ∷ 1 ∷ 2 ∷ 3 ∷ []

ten_ip-IsNetIp : IsNetIp ten_ip
ten_ip-IsNetIp = IsNetIp.four (omega arith, (omega arith, (omega arith, (omega arith, tt))))

full_form : to16 ten_ip ≡ some (v4_in_v6_prefix ++ ten_ip)
unfolding to16
full_form = refl

answer :
    (lookup_ip texts registry (query net) (some (to_ip texts.ip_string ten_ip)) 0).0 ≡ ok response
unfolding lookup_ip query to_ip proto_ip.Rdap.Wire.ip_from_proto query_at resolve best_from
    entries_for to4 put_uint64 uint64 int64 big_endian net_contains get_body body_of read_body
    parsed with_slash has_suffix drop mask_size take to16 cut_prefix has_prefix low_half list_beq
    render_net_ip network_of
answer = refl

lookup_ip-IsReply_example :
    (e : BsEntry) × IsBest
      (entry_contains (v4_in_v6_prefix ++ ten_ip))
      entry_ones
      (entries_for registry (v4_in_v6_prefix ++ ten_ip))
      e
    × IsReply net
        (with_slash e.url ++ (codes "ip/" ++ render_net_ip texts (v4_in_v6_prefix ++ ten_ip)))
        (with_slash e.url)
        0
        response
    × (response.network.rdap_server ≡ with_slash e.url)
lookup_ip-IsReply_example =
    lookup_ip-IsReply texts registry net ten_ip (v4_in_v6_prefix ++ ten_ip) 0 response
      ten_ip-IsNetIp full_form answer

-- The raw texts of a card are named by their first byte: its array, its entries, one entry.
abbrev card_array : Text → Option (List Text)
card_array raw =
    if raw == codes "card"
    then some (codes "vcard" ∷ codes "entries" ∷ [])
    else if raw == codes "entries"
    then some (codes "broken" ∷ codes "entry" ∷ [])
    else if raw == codes "entry"
    then some (codes "tel" ∷ codes "params" ∷ codes "text" ∷ codes "+1" ∷ [])
    else none

abbrev card_json : JsonText
card_json = record { array = card_array; string = λ raw. some raw; label = λ _. none }

abbrev entries : List Entry
entries = entries_of card_json (raw_entries card_json (codes "card"))

parse_vcard-fields_example :
    ((parse_vcard card_json (codes "card")).fn
      ≡ last_text [] (values card_json Property.fn entries))
    × ((parse_vcard card_json (codes "card")).kind
        ≡ last_text [] (values card_json Property.kind entries))
    × ((parse_vcard card_json (codes "card")).org
        ≡ last_text [] (values card_json Property.org entries))
    × ((parse_vcard card_json (codes "card")).address
        ≡ last_text [] (given (labels card_json entries)))
    × ((parse_vcard card_json (codes "card")).phone ≡ first_text (values card_json tel entries))
    × ((parse_vcard card_json (codes "card")).emails ≡ given (values card_json email entries))
parse_vcard-fields_example = parse_vcard-fields card_json (codes "card")

phone_read : (parse_vcard card_json (codes "card")).phone ≡ codes "+1"
unfolding parse_vcard raw_entries take_entries take_raw read_entry entry_of_fields property_of
    take_entry take_property or_kept list_beq
phone_read = refl
