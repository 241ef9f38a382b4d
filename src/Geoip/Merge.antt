-- ===== src/Geoip/Merge.antt =====
-- geoip/merge.go: one best location from the results of the sources. A nil result is `none`.
pub mod Base
pub mod Best
pub mod Admin
pub mod Origin
pub mod Fields
pub mod Ties
use proto_ip.Prelude.{
  Bool, List, Option, [], false, find?, if◌then◌else◌, is_empty, list_eq, ltb, nat_eq, none, not,
  some, ℕ, ◌==◌, ◌∷◌,
}
use proto_ip.Geoip.Mmdb.{found}
use proto_ip.Golang.Text.{Text}
use proto_ip.Messages.{get}
use proto_ip.Messages.Geo.{
  Float64, GeoLocation, GeoResponse, GeoSourceResult, city, confidence_unknown, coordinates,
  country, get_asn, get_authoritative, get_latitude, get_location, get_longitude,
  granularity_number, granularity_unknown, region, source_unknown,
}

-- x.GetLocation().GetGranularity() as a number
pub granularity_of : GeoSourceResult → ℕ
unfolding granularity_number
granularity_of r =
    granularity_number (get granularity_unknown (λ (l : GeoLocation). l.granularity) r.location)

-- One round of the loop that picks the base: a later result must be strictly finer.
pub better : Option GeoSourceResult → GeoSourceResult → Option GeoSourceResult
unfolding granularity_of
better none r = elim r.location [ none ↦ none | some _ ↦ some r ]
better (some b) r = elim r.location [
  | none ↦ some b
  | some _ ↦ if ltb (granularity_of b) (granularity_of r) then some r else some b
]

pub pick_base : Option GeoSourceResult → List (Option GeoSourceResult) → Option GeoSourceResult
unfolding better
pick_base base [] = base
pick_base base (none ∷ rs) = pick_base base rs
pick_base base (some r ∷ rs) = pick_base (better base r) rs

pub has_asn : Option GeoSourceResult → Bool
has_asn r = not (get_asn r == 0)

-- `if v != "" { field = v }`
pub prefer : Text → Text → Text
prefer v field = if is_empty v then field else v

-- The location of an authoritative result, if it has one.
unfoldable pub authoritative_location : Option GeoSourceResult → Option GeoLocation
authoritative_location r = if get_authoritative r then get_location r else none

pub with_admin : GeoLocation → GeoLocation → GeoLocation
unfolding prefer
with_admin loc merged = record merged {
  country = prefer loc.country merged.country;
  region = prefer loc.region merged.region;
  city = prefer loc.city merged.city;
  postal_code = prefer loc.postal_code merged.postal_code;
}

-- The loop over authoritative results: the first one with a location ends it.
pub prefer_admin : List (Option GeoSourceResult) → GeoLocation → GeoLocation
unfolding authoritative_location with_admin
prefer_admin [] merged = merged
prefer_admin (r ∷ rs) merged =
    let rest = prefer_admin rs merged in
    elim (authoritative_location r) [ none ↦ rest | some loc ↦ with_admin loc merged ]

-- The latitude of a result, if it has a location with one.
pub latitude_of : Option GeoSourceResult → Option Float64
latitude_of r = elim (get_location r) [ none ↦ none | some loc ↦ loc.latitude ]

pub with_coordinates : GeoLocation → GeoLocation → GeoLocation
with_coordinates loc merged = record merged {
  latitude = some (get_latitude loc);
  longitude = some (get_longitude loc);
  time_zone = if is_empty merged.time_zone then loc.time_zone else merged.time_zone;
  granularity = coordinates;
}

-- The loop that fills missing coordinates, with the result they come from.
pub fill_coordinates :
    List (Option GeoSourceResult) → GeoLocation → GeoSourceResult → GeoLocation × GeoSourceResult
unfolding with_coordinates
fill_coordinates [] merged best = (merged, best)
fill_coordinates (none ∷ rs) merged best = fill_coordinates rs merged best
fill_coordinates (some r ∷ rs) merged best =
    let rest = fill_coordinates rs merged best in
    elim r.location [
      | none ↦ rest
      | some loc ↦ elim loc.latitude [ none ↦ rest | some _ ↦ (with_coordinates loc merged, r) ]
    ]

pub complete :
    List (Option GeoSourceResult) → GeoLocation → GeoSourceResult → GeoLocation × GeoSourceResult
unfolding fill_coordinates
complete results merged best = elim merged.latitude [
  | none ↦ fill_coordinates results merged best
  | some _ ↦ (merged, best)
]

unfoldable pub with_best : GeoResponse → GeoLocation × GeoSourceResult → GeoResponse
with_best resp done = record resp {
  best = some done.0;
  best_source = done.1.source;
  confidence = done.1.confidence;
}

-- The response before a best location is chosen: the sources, and the first AS number.
unfoldable pub with_origin : List (Option GeoSourceResult) → GeoResponse
unfolding find? has_asn
with_origin results = record {
  best = none;
  best_source = source_unknown;
  sources = results;
  asn = get_asn (get none (λ r. r) (find? has_asn results));
  network = get [] (λ (r : GeoSourceResult). r.network) (get none (λ r. r) (find? has_asn results));
  anycast = false;
  confidence = confidence_unknown;
  network_info = none;
}

pub with_base : List (Option GeoSourceResult) → GeoResponse → Option GeoSourceResult → GeoResponse
unfolding prefer_admin complete with_best
with_base results resp none = resp
with_base results resp (some base) = elim base.location [
  | none ↦ resp
  | some loc ↦ with_best resp (complete results (prefer_admin results loc) base)
]

unfoldable pub merge : List (Option GeoSourceResult) → GeoResponse
unfolding with_base with_origin pick_base
merge results = with_base results (with_origin results) (pick_base none results)
