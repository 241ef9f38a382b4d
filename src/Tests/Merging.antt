-- ===== src/Tests/Merging.antt =====
-- The merge of five results: the city gives the base, the feed the country, the point the
-- coordinates and the table the AS number.
use proto_ip.Prelude.{All, IsFirst, [], none, refl, some, ◌≡◌, ◌≢◌, ◌⊎◌}
use proto_ip.Geoip.Merge.{authoritative_location, merge, with_best, with_origin}
use proto_ip.Geoip.Merge.Base.{IsBase, NoLocation}
use proto_ip.Geoip.Merge.Best.{IsCredited, merge-best}
use proto_ip.Geoip.Merge.Fields.{IsPreferred, SameFields, merge-fields}
use proto_ip.Geoip.Merge.Origin.{merge-origin, origin_of}
use proto_ip.Golang.Text.{codes}
use proto_ip.Messages.Geo.{
  GeoConfidence, GeoLocation, GeoSourceResult, confidence_unknown, coordinates, dbip_lite,
  source_unknown,
}
use proto_ip.Tests.Samples.{results}

program : Unit {0}
unfolding merge with_best with_origin
program = tt

abbrev best_of_results : GeoLocation
best_of_results = record {
  latitude = some 4631107791820423168;
  longitude = some 4611686018427387904;
  country = codes "DE";
  region = codes "FR-IDF";
  city = codes "Paris";
  postal_code = [];
  time_zone = codes "Europe/Paris";
  granularity = coordinates;
}

best_location : (merge results).best ≡ some best_of_results
unfolding program
best_location = refl

merge-best_example :
    (NoLocation results
      × ((merge results).best ≡ none)
      × ((merge results).best_source ≡ source_unknown)
      × ((merge results).confidence ≡ confidence_unknown))
    ⊎ ((loc : GeoLocation) × (r : GeoSourceResult) × IsCredited results loc r
        × ((merge results).best ≡ some loc)
        × ((merge results).best_source ≡ r.source)
        × ((merge results).confidence ≡ r.confidence))
merge-best_example = merge-best results

merge-fields_example :
    (b : GeoSourceResult) × (base : IsBase results b) × ((All
          (λ r. authoritative_location r ≡ none)
          results
        × SameFields base.location best_of_results)
      ⊎ ((admin : GeoLocation) × IsFirst authoritative_location admin results
          × IsPreferred admin base.location best_of_results))
merge-fields_example = merge-fields results best_of_results best_location

merge-origin_example :
    (All (λ r. origin_of r ≡ none) results
      × ((merge results).asn ≡ 0)
      × ((merge results).network ≡ []))
    ⊎ (IsFirst origin_of ((merge results).asn, (merge results).network) results
        × ((merge results).asn ≢ 0))
merge-origin_example = merge-origin results

best_source : (merge results).best_source ≡ dbip_lite
unfolding program
best_source = refl

confidence : (merge results).confidence ≡ GeoConfidence.low
unfolding program
confidence = refl

asn : (merge results).asn ≡ 64500
unfolding program
asn = refl
