-- ===== src/Cmd/GeoClient.antt =====
-- cmd/geo-client/main.go: the subcommands and the printing. The requests over gRPC are parameters.
pub mod Requests
pub mod Typed
use proto_ip.Prelude.{
  List, Option, Result, [], false, if◌then◌else◌, is_empty, list_eq, map, nat_eq, none, some, ℕ,
  ◌++◌, ◌==◌, ◌∷◌,
}
use proto_ip.Cmd.Arguments.{Reading}
use proto_ip.Cmd.GeoClient.Requests.{requested_cidr, requested_ip}
use proto_ip.Cmd.Programs.{Outcome, asked_for, short_enum, unknown_subcommand, usage}
use proto_ip.Golang.Print.{Format, bool_text, join}
use proto_ip.Golang.Text.{Text, codes, decimal}
use proto_ip.Messages.{get}
use proto_ip.Messages.Geo.{
  GeoConfidence, GeoLocation, GeoResponse, GeoSource, GeoSourceResult, NetworkInfo, RpkiRoa,
}
use proto_ip.Messages.Ip.{Cidr, Ip}
use proto_ip.Messages.Names.{confidence_string, granularity_string, rpki_string, source_string}

-- coords
unfoldable pub coords : Format → GeoLocation → Text
coords f loc = elim loc.latitude [
  | none ↦ codes "(none)"
  | some lat ↦ elim loc.longitude [
    | none ↦ codes "(none)"
    | some lon ↦ f.fixed_four lat ++ (codes ", " ++ f.fixed_four lon)
  ]
]

unfoldable pub granularity_word : GeoLocation → Text
granularity_word loc = short_enum (granularity_string loc.granularity) (codes "GEO_GRANULARITY_")

-- printLocation
unfoldable pub print_location : Format → Option GeoLocation → List Text
print_location f none = codes "(no location)" ∷ []
print_location f (some loc) =
    (codes "coordinates:     " ++ coords f loc)
    ∷ (codes "country:         " ++ loc.country)
    ∷ (codes "region:          " ++ loc.region)
    ∷ (codes "city:            " ++ loc.city)
    ∷ (codes "postal_code:     " ++ loc.postal_code)
    ∷ (codes "time_zone:       " ++ loc.time_zone)
    ∷ (codes "granularity:     " ++ granularity_word loc)
    ∷ []

unfoldable pub admin_line : Format → GeoLocation → Text
admin_line f loc =
    codes "  admin:         country="
    ++ (f.quote loc.country
        ++ (codes " region="
            ++ (f.quote loc.region
                ++ (codes " city="
                    ++ (f.quote loc.city
                        ++ (codes " postal="
                            ++ (f.quote loc.postal_code
                                ++ (codes " tz=" ++ f.quote loc.time_zone))))))))

-- printLocationIndented
unfoldable pub print_location_indented : Format → Option GeoLocation → List Text
print_location_indented f none = codes "  location:      (none)" ∷ []
print_location_indented f (some loc) =
    (codes "  coordinates:   " ++ coords f loc)
    ∷ admin_line f loc
    ∷ (codes "  granularity:   " ++ granularity_word loc)
    ∷ []

unfoldable pub roa_text : RpkiRoa → Text
roa_text r = r.prefix ++ (codes "-" ++ (decimal r.max_length ++ (codes " AS" ++ decimal r.asn)))

-- "AS%d (%s)"
unfoldable pub as_text : ℕ → Text → Text
as_text asn network = codes "AS" ++ (decimal asn ++ (codes " (" ++ (network ++ codes ")")))

-- printNetworkInfo
unfoldable pub print_network_info : Option NetworkInfo → List Text
print_network_info none = codes "=== network ===" ∷ codes "(no network info)" ∷ []
print_network_info (some ni) =
    codes "=== network ==="
    ∷ (if ni.asn == 0
        then codes "asn:             (unknown)"
        else codes "asn:             " ++ as_text ni.asn ni.network)
    ∷ (codes "as_name:         " ++ ni.as_name)
    ∷ (codes "org:             " ++ ni.org)
    ∷ (codes "registry_country: " ++ ni.registry_country)
    ∷ (codes "abuse_email:     " ++ ni.abuse_email)
    ∷ (codes "rdap_handle:     " ++ ni.rdap_handle)
    ∷ (codes "rpki_status:     " ++ short_enum (rpki_string ni.rpki_status) (codes "RPKI_STATUS_"))
    ∷ ((if is_empty ni.rpki_covering_roas
          then []
          else (codes "rpki_roas:       " ++ join (map roa_text ni.rpki_covering_roas) (codes ", "))
            ∷ [])
        ++ (codes "reverse_dns:     " ++ ni.reverse_dns) ∷ [])

-- The body of the loop over sources, on a message that is set.
unfoldable pub source_lines : Format → GeoSourceResult → List Text
source_lines f sr =
    (codes "- source:        "
      ++ (short_enum (source_string sr.source) (codes "GEO_SOURCE_")
          ++ (codes " (authoritative="
              ++ (bool_text sr.authoritative
                  ++ (codes ", confidence="
                      ++ (short_enum (confidence_string sr.confidence) (codes "GEO_CONFIDENCE_")
                          ++ codes ")"))))))
    ∷ (codes "  matched_prefix: " ++ sr.matched_prefix)
    ∷ ((if sr.asn == 0 then [] else (codes "  asn:           " ++ as_text sr.asn sr.network) ∷ [])
        ++ (print_location_indented f sr.location
            ++ (codes "  attribution:   " ++ sr.attribution) ∷ []))

-- A nil message, of which every getter gives the zero value.
abbrev no_result : GeoSourceResult
no_result = record {
  source = GeoSource.source_unknown;
  location = none;
  matched_prefix = [];
  authoritative = false;
  attribution = [];
  confidence = GeoConfidence.confidence_unknown;
  asn = 0;
  network = [];
}

unfoldable pub sources_lines : Format → List (Option GeoSourceResult) → List Text
sources_lines f [] = []
sources_lines f (sr ∷ srs) = source_lines f (get no_result (λ r. r) sr) ++ sources_lines f srs

-- printResponse
unfoldable pub print_geo_response : Format → GeoResponse → List Text
print_geo_response f resp =
    codes "=== best ==="
    ∷ (print_location f resp.best
        ++ ((codes "best_source:     "
              ++ short_enum (source_string resp.best_source) (codes "GEO_SOURCE_"))
            ∷ (codes "confidence:      "
                ++ short_enum (confidence_string resp.confidence) (codes "GEO_CONFIDENCE_"))
            ∷ (codes "anycast:         " ++ bool_text resp.anycast)
            ∷ (print_network_info resp.network_info
                ++ (codes "=== sources ==="
                    ∷ (if is_empty resp.sources
                        then codes "(no source returned data for this address)" ∷ []
                        else sources_lines f resp.sources)))))

pub record GeoStub : Type 0 where
  pub lookup_ip_call : Ip → Result Text GeoResponse
  pub lookup_cidr_call : Cidr → Result Text GeoResponse

-- The failure of a request.
unfoldable pub failed_geo_call : Text → Text → Text → Text
failed_geo_call cmd x e = cmd ++ (codes " " ++ (x ++ (codes ": " ++ e)))

-- The switch of main.
unfoldable pub run_geo_subcommand : Reading → Format → GeoStub → Text → Text → Outcome
run_geo_subcommand r f stub cmd x =
    if cmd == codes "ip"
    then asked_for (requested_ip r x) stub.lookup_ip_call (failed_geo_call cmd x)
        (print_geo_response f)
    else if cmd == codes "cidr"
    then asked_for (requested_cidr r x) stub.lookup_cidr_call (failed_geo_call cmd x)
        (print_geo_response f)
    else unknown_subcommand cmd

-- main, on the arguments behind the flags
unfoldable pub run_geo_client : Reading → Format → GeoStub → List Text → Outcome
run_geo_client r f stub (cmd ∷ x ∷ []) = run_geo_subcommand r f stub cmd x
run_geo_client r f stub _ = usage
