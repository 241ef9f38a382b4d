-- ===== src/Geoip/Ipmap.antt =====
-- geoip/ipmap.go: measured locations of single addresses.
pub mod Rows
use proto_ip.Prelude.{
  List, Option, [], false, if◌then◌else◌, is_empty, length, ltb, none, some, suc, ℕ, ◌*◌, ◌-◌, ◌∷◌,
}
use proto_ip.Geoip.Wire.{without_zone}
use proto_ip.Golang.Maps.{insert, lookup}
use proto_ip.Golang.NetText.{NetText}
use proto_ip.Golang.Netip.{Addr, addr_eq, bit_len}
use proto_ip.Golang.Scanner.{Reader, ScanError, scan_err, scan_lines}
use proto_ip.Golang.Text.{Text, codes, nth, split, trim_space}
use proto_ip.Messages.Geo.{Float64, GeoConfidence, GeoSourceResult, coordinates, ipmap}
use mathlib.Core.Option

pub record IpmapEntry : Type 0 where
  pub city : Text
  pub country : Text
  pub lat : Float64
  pub lon : Float64

abbrev pub ipmap_attribution : Text
ipmap_attribution =
    codes "Infrastructure geolocation by RIPE IPmap (https://ipmap.ripe.net), RIPE NCC ToS"

-- The columns behind the country name are counted from the end of the row.
unfoldable pub entry_of : List Text → Float64 → Float64 → IpmapEntry
entry_of f lat lon = record {
  city = trim_space (nth 2 f);
  country = trim_space (nth (length f - 5) f);
  lat = lat;
  lon = lon;
}

unfoldable pub parse_entry : NetText → List Text → Option (Addr × IpmapEntry)
parse_entry t f = elim (t.parse_prefix (trim_space (nth 0 f))) [
  | none ↦ none
  | some p ↦ elim (t.parse_float (trim_space (nth (length f - 3) f))) [
    | none ↦ none
    | some lat ↦
        Option.map (λ lon. (p.addr, entry_of f lat lon))
          (t.parse_float (trim_space (nth (length f - 2) f)))
  ]
]

-- One round of the loop of `parseIPMap`: none where it continues.
unfoldable pub parse_ipmap_line : NetText → Text → Option (Addr × IpmapEntry)
parse_ipmap_line t line =
    if is_empty line
    then none
    else let f = split line b',' in if ltb (length f) 9 then none else parse_entry t f

unfoldable pub parse_ipmap_lines :
    NetText → List Text → List (Addr × IpmapEntry) → List (Addr × IpmapEntry)
parse_ipmap_lines t [] m = m
parse_ipmap_lines t (l ∷ ls) m =
    parse_ipmap_lines t ls
      (elim (parse_ipmap_line t l) [ none ↦ m | some row ↦ insert row.0 row.1 m ])

abbrev pub ipmap_line_limit : ℕ
ipmap_line_limit = 1024 * 1024

-- parseIPMap
unfoldable pub parse_ipmap : NetText → Reader → List (Addr × IpmapEntry) × Option ScanError
parse_ipmap t r =
    (parse_ipmap_lines t (scan_lines ipmap_line_limit r) [], scan_err ipmap_line_limit r)

unfoldable pub entry_result : NetText → Addr → IpmapEntry → GeoSourceResult
entry_result t a e = record {
  source = ipmap;
  location = some (record {
    latitude = some e.lat;
    longitude = some e.lon;
    country = e.country;
    region = [];
    city = e.city;
    postal_code = [];
    time_zone = [];
    granularity = coordinates;
  });
  matched_prefix =
      t.prefix_string (record { addr = without_zone a; bits_plus_one = suc (bit_len a) });
  authoritative = false;
  attribution = ipmap_attribution;
  confidence = GeoConfidence.high;
  asn = 0;
  network = [];
}

-- Lookup
unfoldable pub ipmap_lookup : NetText → List (Addr × IpmapEntry) → Addr → Option GeoSourceResult
ipmap_lookup t m a = Option.map (entry_result t a) (lookup a m)
