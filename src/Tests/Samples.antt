-- ===== src/Tests/Samples.antt =====
-- Results, VRPs and texts that the examples share.
use mathlib.Core.Option.{some-injective}
use mathlib.Core.Path.{subst}
use proto_ip.Prelude.{
  Bool, List, Option, [], arith, false, if◌then◌else◌, list_eq, nat_eq, none, some, true, ◌==◌, ◌∷◌,
  ◌≡◌,
}
use proto_ip.Golang.NetText.{NetText}
use proto_ip.Golang.Netip.{Addr, Prefix, addr_eq, ip4, prefix_eq}
use proto_ip.Golang.Netip.Laws.{IsValid}
use proto_ip.Golang.Text.{Text, codes}
use proto_ip.Messages.Geo.{
  GeoConfidence, GeoGranularity, GeoLocation, GeoSourceResult, dbip_lite, geofeed, iptoasn,
}

-- 10.0.0.0, 10.1.0.0 and 10.1.2.3
abbrev pub ten : Addr
ten = ip4 0x0a000000

abbrev pub ten_one : Addr
ten_one = ip4 0x0a010000

abbrev pub host : Addr
host = ip4 0x0a010203

abbrev pub wide : Prefix
wide = record { addr = ten; bits_plus_one = 9 }

abbrev pub narrow : Prefix
narrow = record { addr = ten_one; bits_plus_one = 17 }

-- A grammar of two prefixes.
abbrev pub sample_parse : Text → Option Prefix
sample_parse x =
    if x == codes "10.0.0.0/8"
    then some wide
    else if x == codes "10.1.0.0/16"
    then some narrow
    else none

abbrev pub texts : NetText
texts = record {
  parse_prefix = sample_parse;
  parse_addr = λ _. none;
  parse_float = λ _. none;
  prefix_string = λ _. [];
  addr_string = λ _. [];
  ip_string = λ _. codes "10.1.2.3";
}

pub sample-IsValid : (x : Text) (p : Prefix) → texts.parse_prefix x ≡ some p → IsValid p
sample-IsValid x p h = one_of_two (x == codes "10.0.0.0/8") (x == codes "10.1.0.0/16") h
  where
    one_of_two :
        (b c : Bool)
        → (if b then some wide else if c then some narrow else none) ≡ some p
        → IsValid p
    one_of_two true c e = subst IsValid (some-injective _ _ e) (omega arith)
    one_of_two false true e = subst IsValid (some-injective _ _ e) (omega arith)
    one_of_two false false e = cc

abbrev pub country_only : GeoLocation
country_only = record {
  latitude = none;
  longitude = none;
  country = codes "DE";
  region = [];
  city = [];
  postal_code = [];
  time_zone = [];
  granularity = GeoGranularity.country;
}

abbrev pub city_location : GeoLocation
city_location = record {
  latitude = none;
  longitude = none;
  country = codes "FR";
  region = codes "FR-IDF";
  city = codes "Paris";
  postal_code = [];
  time_zone = [];
  granularity = GeoGranularity.city;
}

abbrev pub point : GeoLocation
point = record {
  latitude = some 4631107791820423168;
  longitude = some 4611686018427387904;
  country = codes "FR";
  region = [];
  city = [];
  postal_code = [];
  time_zone = codes "Europe/Paris";
  granularity = GeoGranularity.region;
}

abbrev pub from_feed : GeoSourceResult
from_feed = record {
  source = geofeed;
  location = some country_only;
  matched_prefix = codes "10.0.0.0/8";
  authoritative = true;
  attribution = [];
  confidence = GeoConfidence.high;
  asn = 0;
  network = [];
}

abbrev pub from_city : GeoSourceResult
from_city = record {
  source = dbip_lite;
  location = some city_location;
  matched_prefix = [];
  authoritative = false;
  attribution = [];
  confidence = GeoConfidence.medium;
  asn = 0;
  network = [];
}

abbrev pub from_point : GeoSourceResult
from_point = record {
  source = dbip_lite;
  location = some point;
  matched_prefix = [];
  authoritative = false;
  attribution = [];
  confidence = GeoConfidence.low;
  asn = 0;
  network = [];
}

abbrev pub from_table : GeoSourceResult
from_table = record {
  source = iptoasn;
  location = none;
  matched_prefix = [];
  authoritative = false;
  attribution = [];
  confidence = GeoConfidence.low;
  asn = 64500;
  network = codes "EXAMPLE";
}

-- A nil result, a feed, a table of AS numbers, a city and a point.
abbrev pub results : List (Option GeoSourceResult)
results = none ∷ some from_feed ∷ some from_table ∷ some from_city ∷ some from_point ∷ []
