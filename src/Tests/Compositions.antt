-- ===== src/Tests/Compositions.antt =====
-- A directory that holds an IPmap dump of one row, and nothing else.
use proto_ip.Prelude.{
  Result, [], err, list_beq, list_eq, map, nat_eq, none, ok, refl, some, true, ℕ, ◌++◌, ◌==◌, ◌∷◌,
  ◌≡◌, ◌≢◌, ◌⊎◌,
}
use proto_ip.Cmd.GeoServer.{geo_server, no_sources}
use proto_ip.Cmd.GeoServer.Mirror.{NothingLoads, geo_server-register}
use proto_ip.Geoip.Disk.{Disk, find_ipmap_database}
use proto_ip.Geoip.Ipmap.{
  IpmapEntry, entry_of, entry_result, parse_entry, parse_ipmap, parse_ipmap_line, parse_ipmap_lines,
}
use proto_ip.Geoip.Loaders.{ipmap_loaded, new_ipmap_source}
use proto_ip.Geoip.Merge.{merge}
use proto_ip.Geoip.Merge.Best.{AtMost-coordinates}
use proto_ip.Geoip.Merge.Ties.{IsWinner, merge-IsWinner}
use proto_ip.Geoip.NetInfo.{AutnumFacts}
use proto_ip.Geoip.Rpki.{RpkiSet}
use proto_ip.Geoip.Server.{Lookup, lookup_addr}
use proto_ip.Geoip.Setup.{ipmap_source, kind_of, to_server}
use proto_ip.Golang.Maps.{insert, lookup}
use proto_ip.Golang.NetText.{NetText}
use proto_ip.Golang.Netip.{Addr, addr_beq, addr_eq}
use proto_ip.Golang.Scanner.{Reader, scan_err, scan_lines}
use proto_ip.Golang.Text.{Text, codes, split, trim_space, trim_suffix}
use proto_ip.Messages.Geo.{GeoLocation, GeoResponse, GeoSource, GeoSourceResult, coordinates, ipmap}
use proto_ip.Rdap.Bootstrap.{Bootstrap}
use proto_ip.Service.Register.{
  data_dir, load_anycast, load_dbip, load_ip2location, load_ipmap, load_iptoasn, load_rpki,
  register,
}
use proto_ip.Service.Register.Composition.{loaded, present, register-kinds}
use proto_ip.Service.Register.Measured.{register-ipmap}
use proto_ip.Tests.Samples.{ten, texts}

abbrev grammar : NetText
grammar = record texts { parse_float = λ _. some 5 }

abbrev dump : Reader
dump = record { content = codes "10.0.0.0/8,1,Berlin,BE,Germany,DE,DEU,5,5,9"; failure = none }

abbrev disk : Disk
disk = record {
  in_dir = λ dir name. dir ++ name;
  exists = λ p. p == codes "data/geoipipmap-geolocations-latest.csv.bz2";
  glob = λ _. ok [];
  sort_strings = λ names. names;
  open_file = λ _. ok dump;
  bunzip = λ r. r;
  open_mmdb = λ _. err (codes "no database");
  sort_ranges = λ ranges. ranges;
  quote = λ s. s;
}

abbrev no_vrps : Reader → Result Text RpkiSet
no_vrps _ = err (codes "no dump")

abbrev no_bootstrap : Result Text Bootstrap
no_bootstrap = err (codes "no network")

abbrev berlin : IpmapEntry
berlin = record { city = codes "Berlin"; country = codes "DE"; lat = 5; lon = 5 }

loads : load_ipmap grammar no_vrps disk (data_dir []) ≡ ok (ipmap_source ((ten, berlin) ∷ []))
unfolding load_ipmap data_dir find_ipmap_database list_beq new_ipmap_source ipmap_loaded parse_ipmap
    scan_err split parse_ipmap_lines scan_lines parse_ipmap_line trim_suffix parse_entry trim_space
    insert entry_of
loads = refl

abbrev no_feed : Bootstrap → Lookup ℕ
no_feed _ _ w = (ok none, w)

abbrev no_facts : ℕ → Bootstrap → ℕ → Result Text AutnumFacts
no_facts _ _ _ = err (codes "no facts")

abbrev no_names : ℕ → Addr → Result Text Text
no_names _ _ = err (codes "no name")

listed_ten : lookup ten ((ten, berlin) ∷ []) ≡ some berlin
unfolding lookup addr_beq
listed_ten = refl

abbrev response : GeoResponse
response =
    (lookup_addr grammar
      (to_server grammar no_feed no_facts no_names
        (register grammar no_vrps disk [] no_bootstrap).geo)
      ten 0).0

register-ipmap_example :
    (response.best_source ≡ ipmap)
    × ((loc : GeoLocation) × (response.best ≡ some loc)
        × (loc.latitude ≡ some 5)
        × (loc.longitude ≡ some 5)
        × (loc.granularity ≡ coordinates))
register-ipmap_example =
    register-ipmap grammar no_vrps disk [] no_bootstrap no_feed no_facts no_names
      ((ten, berlin) ∷ []) ten berlin 0 loads listed_ten

geo_server-register_example :
    ((geo_server grammar no_vrps disk (data_dir []) no_bootstrap ≡ err no_sources)
      × NothingLoads grammar no_vrps disk (data_dir []) no_bootstrap)
    ⊎ ((geo_server grammar no_vrps disk (data_dir []) no_bootstrap
          ≡ ok (register grammar no_vrps disk [] no_bootstrap).geo)
        × ((register grammar no_vrps disk [] no_bootstrap).geo.sources ≢ []))
geo_server-register_example = geo_server-register grammar no_vrps disk [] no_bootstrap

register-kinds_example :
    let made = register grammar no_vrps disk [] no_bootstrap in
    let dir = data_dir [] in
    (map kind_of made.geo.sources
      ≡ present GeoSource.ipmap (load_ipmap grammar no_vrps disk dir)
        ++ (present GeoSource.dbip_lite (load_dbip grammar no_vrps disk dir)
            ++ (present GeoSource.ip2location_lite (load_ip2location grammar no_vrps disk dir)
                ++ (present GeoSource.iptoasn (load_iptoasn grammar no_vrps disk dir)
                    ++ present GeoSource.geofeed no_bootstrap))))
    × (made.rdap ≡ loaded no_bootstrap)
    × (made.geo.enricher ≡ loaded no_bootstrap)
    × (made.geo.anycast ≡ loaded (load_anycast grammar no_vrps disk dir))
    × (made.geo.rpki ≡ loaded (load_rpki grammar no_vrps disk dir))
    × (made.geo.resolver ≡ true)
register-kinds_example = register-kinds grammar no_vrps disk [] no_bootstrap

abbrev measured : GeoSourceResult
measured = entry_result grammar ten berlin

abbrev measured_location : GeoLocation
measured_location = record {
  latitude = some 5;
  longitude = some 5;
  country = codes "DE";
  region = [];
  city = codes "Berlin";
  postal_code = [];
  time_zone = [];
  granularity = coordinates;
}

-- Two results with coordinates: the first one wins.
merge-IsWinner_example :
    IsWinner measured measured_location (merge (none ∷ some measured ∷ some measured ∷ []))
unfolding entry_result
merge-IsWinner_example =
    merge-IsWinner (none ∷ []) (some measured ∷ []) measured measured_location 5 refl refl
      ((λ l e. absurd cc), tt) (AtMost-coordinates (some measured ∷ []))
