-- ===== src/Tests/Feeds.antt =====
-- A geofeed of one row, found in the RDAP answer and fetched.
use proto_ip.Prelude.{
  IsBest, List, [], arith, best_from, err, if◌then◌else◌, list_beq, list_eq, ltb, nat_eq, none, ok,
  refl, some, suc, ℕ, ◌-◌, ◌==◌, ◌∷◌, ◌≡◌, ◌≢◌,
}
use proto_ip.Geoip.Geofeed.{
  FeedNet, answer, discover, discover_in, feed_result, fetch, geofeed_lookup, geofeed_ttl, get_feed,
  lookup_url, put_feed, read_feed, received, records, store,
}
use proto_ip.Geoip.Geofeed.Caching.{get_feed-put_feed, records-records}
use proto_ip.Geoip.Geofeed.Matching.{geofeed_lookup-IsBest}
use proto_ip.Geoip.GeofeedCsv.{
  GeofeedRecord, longest_match, parse_geofeed, parse_line, parse_lines, parse_row, record_of,
}
use proto_ip.Golang.Maps.{insert, lookup}
use proto_ip.Golang.Netip.{addr_prefix, contains, keep_bits, masked, same_bits}
use proto_ip.Golang.Scanner.{limit_reader, scan_err, scan_lines}
use proto_ip.Golang.Text.{Text, before_byte, codes, split, trim_space, trim_suffix}
use proto_ip.Messages.Rdap.{RdapIpVersion, RdapNetwork}
use proto_ip.Tests.Samples.{host, narrow, texts}

abbrev feed_url : Text
feed_url = codes "https://example.net/feed"

abbrev network : RdapNetwork
network = record {
  handle = [];
  name = [];
  type = [];
  start_address = [];
  end_address = [];
  ip_version = RdapIpVersion.version_v4;
  country = [];
  status = [];
  entities = [];
  events = [];
  links = [];
  rdap_server = [];
  parent_handle = [];
  cidr_blocks = [];
  rdap_conformance = [];
}

-- The world is a number of nanoseconds; a request takes one.
abbrev net : FeedNet ℕ
net = record {
  now = λ w. w;
  rdap = λ ip w. (ok (record { network = network; raw_json = codes "geofeed" }), suc w);
  whois = λ host query w. (err (codes "refused"), w);
  request_error = λ url. none;
  http = λ url w. (ok (200, record { content = codes "10.1.0.0/16,FR"; failure = none }), suc w);
  feed_url = λ raw. some feed_url;
  port43 = λ raw. [];
}

abbrev row : GeofeedRecord
row = record { prefix = narrow; country = codes "FR"; region = []; city = []; postal = [] }

feed_read_back : get_feed 9 feed_url (put_feed 5 feed_url (row ∷ []) []) ≡ (
    if feed_url == feed_url
    then (if ltb geofeed_ttl (9 - 5) then none else some (row ∷ []))
    else get_feed 9 feed_url [])
feed_read_back = get_feed-put_feed 5 9 feed_url feed_url (row ∷ []) []

program : Unit {0}
unfolding geofeed_lookup lookup_url records get_feed fetch store lookup received read_feed
    parse_geofeed scan_err split limit_reader parse_lines scan_lines parse_line trim_space
    before_byte trim_suffix parse_row list_beq record_of masked addr_prefix keep_bits put_feed
    insert discover discover_in answer longest_match best_from contains same_bits
program = tt

not_cached : get_feed 0 feed_url [] ≡ none
unfolding program
not_cached = refl

fetched : (records texts net feed_url [] 0).0.0 ≡ ok (row ∷ [])
unfolding program
fetched = refl

asked_at : (records texts net feed_url [] 0).1 ≡ 1
unfolding program
asked_at = refl

records-records_example :
    records texts net feed_url (records texts net feed_url [] 0).0.1 9
    ≡ ((ok (row ∷ []), (records texts net feed_url [] 0).0.1), 9)
records-records_example =
    records-records texts net feed_url (row ∷ []) [] 0 9 not_cached fetched
      (omega (arith, asked_at))

found_answer : (geofeed_lookup texts net host [] 0).0.0 ≡ ok (some (feed_result texts row))
unfolding program
found_answer = refl

geofeed_lookup-IsBest_example :
    (url : Text) × (recs : List GeofeedRecord) × (rec : GeofeedRecord) × ((discover texts net host
        0).0
      ≡ ok url)
    × (url ≢ [])
    × ((records texts net url [] (discover texts net host 0).1).0.0 ≡ ok recs)
    × IsBest
        (λ (x : GeofeedRecord). contains x.prefix host)
        (λ (x : GeofeedRecord). x.prefix.bits_plus_one)
        recs
        rec
    × (feed_result texts row ≡ feed_result texts rec)
geofeed_lookup-IsBest_example =
    geofeed_lookup-IsBest texts net host [] 0 (feed_result texts row) found_answer
