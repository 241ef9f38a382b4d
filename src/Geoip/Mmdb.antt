-- ===== src/Geoip/Mmdb.antt =====
-- geoip/mmdb.go: the GeoIP2-City schema. The database reader is a parameter: what it finds for an
-- address is a decoded record with the prefix that matched.
use proto_ip.Prelude.{
  Bool, List, Option, Result, [], err, false, if◌then◌else◌, is_empty, list_eq, nat_eq, none, not,
  ok, some, ◌&&◌, ◌++◌, ◌==◌, ◌^◌, ◌||◌, ◌∷◌,
}
use proto_ip.Geoip.Source.{granularity_from_fields}
use proto_ip.Golang.Maps.{lookup}
use proto_ip.Golang.NetText.{NetText}
use proto_ip.Golang.Netip.{Addr, Prefix, addr_eq, prefix_eq}
use proto_ip.Golang.Text.{Text, codes}
use proto_ip.Messages.Geo.{
  Float64, GeoConfidence, GeoLocation, GeoSource, GeoSourceResult, coordinates, granularity_unknown,
}

-- cityRecord, the fields that are read; `names` is the map of city names.
pub record CityRecord : Type 0 where
  pub country_code : Text
  pub subdivisions : List Text
  pub names : List (Text × Text)
  pub latitude : Float64
  pub longitude : Float64
  pub time_zone : Text
  pub postal : Text

-- What res := db.Lookup(ip) and res.Decode give.
pub data Found : Type 0 where
  lookup_failed : Text → Found
  absent : Found
  decode_failed : Text → Found
  found : CityRecord → Prefix → Found

pub record MmdbSource : Type 0 where
  pub db : Addr → Found
  pub kind : GeoSource
  pub attribution : Text

-- v != 0 for a float64: false at the bits of 0 and of -0.
unfoldable pub nonzero : Float64 → Bool
nonzero v = not (v == 0) && not (v == 2 ^ 63)

unfoldable pub last_of : Text → List Text → Text
last_of d [] = d
last_of d (x ∷ xs) = last_of x xs

-- The ISO 3166-2 region of the country and the last subdivision.
unfoldable pub region_of : CityRecord → Text
region_of rec =
    let sub = last_of [] rec.subdivisions in
    if is_empty sub
    then []
    else if is_empty rec.country_code
    then sub
    else rec.country_code ++ codes "-" ++ sub

unfoldable pub names_en : CityRecord → Text
names_en rec = elim (lookup (codes "en") rec.names) [ none ↦ [] | some n ↦ n ]

unfoldable pub location_of : CityRecord → GeoLocation
location_of rec =
    let loc : GeoLocation = record {
      latitude = none;
      longitude = none;
      country = rec.country_code;
      region = region_of rec;
      city = names_en rec;
      postal_code = rec.postal;
      time_zone = rec.time_zone;
      granularity = granularity_unknown;
    } in
    if nonzero rec.latitude || nonzero rec.longitude
    then record loc {
      latitude = some rec.latitude;
      longitude = some rec.longitude;
      granularity = coordinates;
    }
    else record loc { granularity = granularity_from_fields loc }

-- Lookup
unfoldable pub mmdb_lookup : NetText → MmdbSource → Addr → Result Text (Option GeoSourceResult)
mmdb_lookup t s a = elim (s.db a) [
  | lookup_failed e ↦ err e
  | absent ↦ ok none
  | decode_failed e ↦ err e
  | found rec p ↦ ok (
      some (record {
        source = s.kind;
        location = some (location_of rec);
        matched_prefix = t.prefix_string p;
        authoritative = false;
        attribution = s.attribution;
        confidence = GeoConfidence.medium;
        asn = 0;
        network = [];
      }))
]
