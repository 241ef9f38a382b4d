-- ===== src/Geoip/Geofeed.antt =====
-- geoip/geofeed.go and the cache of geoip/cache.go: the source that finds, fetches and caches a
-- geofeed. RDAP, whois, HTTP, the clock, the regular expression and the JSON decoder are parameters.
pub mod Caching
pub mod Matching
use proto_ip.Prelude.{
  List, Option, Result, [], err, if◌then◌else◌, is_empty, list_eq, ltb, nat_eq, none, ok, some,
  true, ℕ, ◌*◌, ◌-◌, ◌==◌, ◌^◌,
}
use proto_ip.Geoip.GeofeedCsv.{GeofeedRecord, longest_match, parse_geofeed}
use proto_ip.Geoip.Source.{granularity_from_fields}
use proto_ip.Geoip.Wire.{proto_from_addr}
use proto_ip.Golang.Maps.{insert, lookup}
use proto_ip.Golang.NetText.{NetText}
use proto_ip.Golang.Netip.{Addr, addr_eq}
use proto_ip.Golang.Scanner.{Reader, ScanError, limit_reader}
use proto_ip.Golang.Text.{Text, codes}
use proto_ip.Messages.Geo.{
  GeoConfidence, GeoLocation, GeoSourceResult, geofeed, granularity_unknown,
}
use proto_ip.Messages.Ip.{Ip}
use proto_ip.Messages.Rdap.{RdapResponse}
use mathlib.Core.Option

-- geofeedEntry; `fetched` is in nanoseconds.
pub record GeofeedEntry : Type 0 where
  pub recs : List GeofeedRecord
  pub fetched : ℕ

abbrev pub GeofeedCache : Type 0
GeofeedCache = List (Text × GeofeedEntry)

abbrev pub geofeed_ttl : ℕ
geofeed_ttl = 3600 * 10 ^ 9

-- get at the time `now`; a negative time.Since is not above the limit.
unfoldable pub get_feed : ℕ → Text → GeofeedCache → Option (List GeofeedRecord)
get_feed now url cache = elim (lookup url cache) [
  | none ↦ none
  | some e ↦ if ltb geofeed_ttl (now - e.fetched) then none else some e.recs
]

-- put at the time `now`
unfoldable pub put_feed : ℕ → Text → List GeofeedRecord → GeofeedCache → GeofeedCache
put_feed now url recs cache = insert url (record { recs = recs; fetched = now }) cache

pub data FeedError : Type 0 where
  rdap_discovery whois_discovery bad_request get_failed : Text → FeedError
  http_status : ℕ → FeedError
  bad_feed : ScanError → FeedError

-- What the source calls, in a world `W`.
pub record FeedNet (W : Type 0) : Type 0 where
  pub now : W → ℕ
  pub rdap : Ip → W → Result Text RdapResponse × W
  pub whois : Text → Text → W → Result Text Text × W
  -- http.NewRequestWithContext: none, or its error
  pub request_error : Text → Option Text
  -- g.http.Do: the status and the body
  pub http : Text → W → Result Text (ℕ × Reader) × W
  -- the group of geofeedURLRe in its first match
  pub feed_url : Text → Option Text
  -- the "port43" member of a JSON object, empty without one
  pub port43 : Text → Text

abbrev pub body_limit : ℕ
body_limit = 64 * 1024 * 1024

-- fetch, on the status and the body
unfoldable pub read_feed : NetText → ℕ × Reader → Result FeedError (List GeofeedRecord)
read_feed t resp =
    if resp.0 == 200
    then (elim (parse_geofeed t (limit_reader body_limit resp.1)).1 [
      | some e ↦ err (bad_feed e)
      | none ↦ ok (parse_geofeed t (limit_reader body_limit resp.1)).0
    ])
    else err (http_status resp.0)

unfoldable pub received : NetText → Result Text (ℕ × Reader) → Result FeedError (List GeofeedRecord)
received t (err e) = err (get_failed e)
received t (ok resp) = read_feed t resp

-- The feed of an address: its records' best match as a result.
unfoldable pub feed_result : NetText → GeofeedRecord → GeoSourceResult
feed_result t rec =
    let loc : GeoLocation = record {
      latitude = none;
      longitude = none;
      country = rec.country;
      region = rec.region;
      city = rec.city;
      postal_code = rec.postal;
      time_zone = [];
      granularity = granularity_unknown;
    } in
    record {
      source = geofeed;
      location = some (record loc { granularity = granularity_from_fields loc });
      matched_prefix = t.prefix_string rec.prefix;
      authoritative = true;
      attribution = codes "Geofeed (RFC 8805), self-published by the network operator";
      confidence = GeoConfidence.high;
      asn = 0;
      network = [];
    }

-- The URL in a whois answer; empty where none is published.
unfoldable pub url_in : (Text → Option Text) → Result Text Text → Result FeedError Text
url_in feed_url (err e) = err (whois_discovery e)
url_in feed_url (ok text) = ok (elim (feed_url text) [ none ↦ [] | some u ↦ u ])

module _ {W : Type 0} (t : NetText) (n : FeedNet W) where
  -- The second channel, on the RDAP body.
  unfoldable pub discover_whois : Addr → Text → W → Result FeedError Text × W
  discover_whois a raw w = if is_empty (n.port43 raw) then (ok [], w) else (
    url_in n.feed_url (n.whois (n.port43 raw) (t.addr_string a) w).0,
    (n.whois (n.port43 raw) (t.addr_string a) w).1,
  )

  unfoldable pub discover_in : Addr → Result Text RdapResponse → W → Result FeedError Text × W
  discover_in a (err e) w = (err (rdap_discovery e), w)
  discover_in a (ok resp) w = elim (n.feed_url resp.raw_json) [
    | some u ↦ (ok u, w)
    | none ↦ discover_whois a resp.raw_json w
  ]

  -- discover
  unfoldable pub discover : Addr → W → Result FeedError Text × W
  discover a w = discover_in a (n.rdap (proto_from_addr a) w).0 (n.rdap (proto_from_addr a) w).1

  -- fetch
  unfoldable pub fetch : Text → W → Result FeedError (List GeofeedRecord) × W
  fetch url w = elim (n.request_error url) [
    | some e ↦ (err (bad_request e), w)
    | none ↦ (received t (n.http url w).0, (n.http url w).1)
  ]

  -- What a fetch leaves in the cache, at the time behind it.
  unfoldable pub store :
      Text
      → ℕ
      → Result FeedError (List GeofeedRecord)
      → GeofeedCache
      → Result FeedError (List GeofeedRecord) × GeofeedCache
  store url now (err e) cache = (err e, cache)
  store url now (ok recs) cache = (ok recs, put_feed now url recs cache)

  -- The records of a URL: from the cache, or fetched and put there.
  unfoldable pub records :
      Text → GeofeedCache → W → (Result FeedError (List GeofeedRecord) × GeofeedCache) × W
  records url cache w = elim (get_feed (n.now w) url cache) [
    | some recs ↦ ((ok recs, cache), w)
    | none ↦ (store url (n.now (fetch url w).1) (fetch url w).0 cache, (fetch url w).1)
  ]

  -- The answer for an address from the records.
  unfoldable pub answer :
      Addr → Result FeedError (List GeofeedRecord) → Result FeedError (Option GeoSourceResult)
  answer a (err e) = err e
  answer a (ok recs) = ok (Option.map (feed_result t) (longest_match recs a))

  unfoldable pub lookup_url :
      Addr
      → Result FeedError Text
      → GeofeedCache
      → W
      → (Result FeedError (Option GeoSourceResult) × GeofeedCache) × W
  lookup_url a (err e) cache w = ((err e, cache), w)
  lookup_url a (ok url) cache w =
      if is_empty url
      then ((ok none, cache), w)
      else (let got = records url cache w in ((answer a got.0.0, got.0.1), got.1))

  -- Lookup
  unfoldable pub geofeed_lookup :
      Addr → GeofeedCache → W → (Result FeedError (Option GeoSourceResult) × GeofeedCache) × W
  geofeed_lookup a cache w = lookup_url a (discover a w).0 cache (discover a w).1
