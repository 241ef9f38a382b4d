-- ===== src/Tests/Answers.antt =====
-- A server of one table and one source that fails.
use proto_ip.Prelude.{
  List, Option, [], err, false, none, ok, refl, some, suc, ℕ, ◌++◌, ◌∷◌, ◌≡◌, ◌⊎◌,
}
use proto_ip.Geoip.Anycast.{anycast_contains}
use proto_ip.Geoip.NetInfo.{Enrichers, build_network_info, disabled}
use proto_ip.Geoip.NetInfo.Spine.{IsEnabled, IsInfo, build_network_info-IsInfo}
use proto_ip.Geoip.Rpki.{empty_set}
use proto_ip.Geoip.Server.{GeoServer, Lookup, flag_anycast, lookup_addr}
use proto_ip.Geoip.Server.Isolation.{IsSilent, lookup_addr-silent}
use proto_ip.Geoip.Server.Response.{Asked, IsEstimate, lookup_addr-IsEstimate}
use proto_ip.Golang.Netip.{contains, is4}
use proto_ip.Golang.Text.{codes}
use proto_ip.Messages.Geo.{
  GeoConfidence, GeoResponse, GeoSourceResult, NetworkInfo, confidence_unknown, source_unknown,
}
use proto_ip.Tests.Samples.{from_city, host, texts, wide}

abbrev failing : Lookup ℕ
failing a w = (err (codes "timeout"), w)

-- A source that counts how often it is asked.
abbrev counting : Lookup ℕ
counting a w = (ok (some from_city), suc w)

abbrev plain_enrichers : Enrichers
plain_enrichers = record { facts = none; rpki = none; ptr = none }

abbrev pub server : GeoServer ℕ
server = record {
  sources = counting ∷ failing ∷ counting ∷ [];
  anycast = some (record { v4 = wide ∷ []; v6 = [] });
  enrichers = λ _. plain_enrichers;
}

failing-IsSilent : IsSilent host failing
failing-IsSilent w = (refl, refl)

lookup_addr-silent_example :
    lookup_addr texts server host 0
    ≡ lookup_addr texts (record server { sources = (counting ∷ []) ++ counting ∷ [] }) host 0
lookup_addr-silent_example =
    lookup_addr-silent texts server (counting ∷ []) (counting ∷ []) failing host 0 failing-IsSilent
      refl

lookup_addr-IsEstimate_example :
    (rs : List (Option GeoSourceResult)) × Asked host server.sources 0 rs
      (lookup_addr texts server host 0).1
    × IsEstimate server.anycast host rs (lookup_addr texts server host 0).0
lookup_addr-IsEstimate_example = lookup_addr-IsEstimate texts server host 0

confidence_of_anycast : (lookup_addr texts server host 0).0.confidence ≡ GeoConfidence.low
unfolding lookup_addr build_network_info disabled flag_anycast anycast_contains is4 contains
confidence_of_anycast = refl

abbrev named_enrichers : Enrichers
named_enrichers = record {
  facts = none;
  rpki = some empty_set;
  ptr = some (λ _. ok (codes "host.example.net"));
}

abbrev plain_response : GeoResponse
plain_response = record {
  best = none;
  best_source = source_unknown;
  sources = [];
  asn = 64500;
  network = codes "EXAMPLE";
  anycast = false;
  confidence = confidence_unknown;
  network_info = none;
}

build_network_info-IsInfo_example :
    ((named_enrichers.facts ≡ none)
      × (named_enrichers.rpki ≡ none)
      × (named_enrichers.ptr ≡ none)
      × (build_network_info texts named_enrichers host plain_response ≡ plain_response))
    ⊎ (IsEnabled named_enrichers
        × (ni : NetworkInfo) × (build_network_info texts named_enrichers host plain_response
            ≡ record plain_response { network_info = some ni })
        × IsInfo texts named_enrichers host plain_response ni)
build_network_info-IsInfo_example =
    build_network_info-IsInfo texts named_enrichers host plain_response
