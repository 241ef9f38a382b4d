-- ===== src/Messages/Geo.antt =====
-- proto/ippb/geo.pb.go.
use proto_ip.Prelude.{Bool, List, Option, false, none, some, ℕ}
use proto_ip.Golang.Text.{Text}

-- A float64 as its 64 bits.
abbrev pub Float64 : Type 0
Float64 = ℕ

pub data GeoSource : Type 0 where
  source_unknown geofeed dbip_lite ipmap ip2location_lite iptoasn : GeoSource

pub data GeoConfidence : Type 0 where
  confidence_unknown low medium high : GeoConfidence

pub data GeoGranularity : Type 0 where
  granularity_unknown country region city coordinates : GeoGranularity

-- The numbers of the enum, by which Go compares.
unfoldable pub granularity_number : GeoGranularity → ℕ
granularity_number granularity_unknown = 0
granularity_number country = 1
granularity_number region = 2
granularity_number city = 3
granularity_number coordinates = 4

pub data RpkiStatus : Type 0 where
  status_unknown valid invalid_status not_found : RpkiStatus

pub record GeoLocation : Type 0 where
  pub latitude : Option Float64
  pub longitude : Option Float64
  pub country : Text
  pub region : Text
  pub city : Text
  pub postal_code : Text
  pub time_zone : Text
  pub granularity : GeoGranularity

pub record GeoSourceResult : Type 0 where
  pub source : GeoSource
  pub location : Option GeoLocation
  pub matched_prefix : Text
  pub authoritative : Bool
  pub attribution : Text
  pub confidence : GeoConfidence
  pub asn : ℕ
  pub network : Text

pub record RpkiRoa : Type 0 where
  pub prefix : Text
  pub max_length : ℕ
  pub asn : ℕ

pub record NetworkInfo : Type 0 where
  pub asn : ℕ
  pub network : Text
  pub as_name : Text
  pub org : Text
  pub registry_country : Text
  pub abuse_email : Text
  pub rdap_handle : Text
  pub rpki_status : RpkiStatus
  pub rpki_covering_roas : List RpkiRoa
  pub reverse_dns : Text

pub record GeoResponse : Type 0 where
  pub best : Option GeoLocation
  pub best_source : GeoSource
  pub sources : List (Option GeoSourceResult)
  pub asn : ℕ
  pub network : Text
  pub anycast : Bool
  pub confidence : GeoConfidence
  pub network_info : Option NetworkInfo

-- x.GetLatitude(), x.GetLongitude(): 0 where the field is nil.
abbrev pub get_latitude : GeoLocation → Float64
get_latitude l = elim l.latitude [ none ↦ 0 | some v ↦ v ]

abbrev pub get_longitude : GeoLocation → Float64
get_longitude l = elim l.longitude [ none ↦ 0 | some v ↦ v ]

-- x.GetLocation() of a result that may be nil.
abbrev pub get_location : Option GeoSourceResult → Option GeoLocation
get_location none = none
get_location (some r) = r.location

abbrev pub get_asn : Option GeoSourceResult → ℕ
get_asn none = 0
get_asn (some r) = r.asn

abbrev pub get_authoritative : Option GeoSourceResult → Bool
get_authoritative none = false
get_authoritative (some r) = r.authoritative
