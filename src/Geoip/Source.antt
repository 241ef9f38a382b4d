-- ===== src/Geoip/Source.antt =====
-- geoip/source.go: the granularity that the administrative fields give.
use proto_ip.Prelude.{if◌then◌else◌, is_empty, not}
use proto_ip.Messages.Geo.{GeoGranularity, GeoLocation, granularity_unknown}

-- The first non-empty field of city, region and country decides.
unfoldable pub granularity_from_fields : GeoLocation → GeoGranularity
granularity_from_fields l =
    if not (is_empty l.city)
    then GeoGranularity.city
    else if not (is_empty l.region)
    then GeoGranularity.region
    else if not (is_empty l.country)
    then GeoGranularity.country
    else granularity_unknown
