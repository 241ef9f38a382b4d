-- ===== src/Geoip/Loaders.antt =====
-- The constructors of geoip/ that load a file: dbip.go, ip2location.go, mmdb.go, ipmap.go,
-- iptoasn.go and rpki.go.
use proto_ip.Prelude.{
  List, Option, Result, [], err, if◌then◌else◌, is_empty, length, map_err, none, ok, some, ℕ, ◌&&◌,
  ◌++◌, ◌>>=◌,
}
use proto_ip.Geoip.Disk.{Disk}
use proto_ip.Geoip.Ipmap.{IpmapEntry, parse_ipmap}
use proto_ip.Geoip.Iptoasn.{AsnRange, IptoasnSource, parse_iptoasn}
use proto_ip.Geoip.Mmdb.{MmdbSource}
use proto_ip.Geoip.Rpki.{RpkiSet}
use proto_ip.Golang.NetText.{NetText}
use proto_ip.Golang.Netip.{Addr}
use proto_ip.Golang.Scanner.{Reader, ScanError, read_failed, too_long}
use proto_ip.Golang.Text.{Text, codes, decimal}
use proto_ip.Messages.Geo.{GeoSource}
use proto_ip.Rdap.Query.{parsed}

abbrev pub dbip_attribution : Text
dbip_attribution = codes "IP Geolocation by DB-IP (https://db-ip.com), CC BY 4.0"

abbrev pub ip2location_attribution : Text
ip2location_attribution =
    codes "IP geolocation by IP2Location LITE (https://lite.ip2location.com), CC BY-SA 4.0"

-- openMMDBCity
unfoldable pub open_mmdb_city : Disk → Text → GeoSource → Text → Result Text MmdbSource
open_mmdb_city d path k attribution = elim (d.open_mmdb path) [
  | err e ↦ err (codes "open MMDB " ++ (path ++ (codes ": " ++ e)))
  | ok db ↦ ok (record { db = db; kind = k; attribution = attribution })
]

-- NewDBIPSource
unfoldable pub new_dbip_source : Disk → Text → Result Text MmdbSource
new_dbip_source d path = open_mmdb_city d path GeoSource.dbip_lite dbip_attribution

-- NewIP2LocationSource
unfoldable pub new_ip2location_source : Disk → Text → Result Text MmdbSource
new_ip2location_source d path =
    open_mmdb_city d path GeoSource.ip2location_lite ip2location_attribution

-- The text of an error of bufio.Scanner.
unfoldable pub scan_error_text : ScanError → Text
scan_error_text too_long = codes "bufio.Scanner: token too long"
scan_error_text (read_failed e) = e

unfoldable pub ipmap_loaded :
    Text → List (Addr × IpmapEntry) × Option ScanError → Result Text (List (Addr × IpmapEntry))
ipmap_loaded path parsed = elim parsed.1 [
  | some e ↦ err (codes "parse RIPE IPmap " ++ (path ++ (codes ": " ++ scan_error_text e)))
  | none ↦ ok parsed.0
]

-- NewIPMapSource
unfoldable pub new_ipmap_source : NetText → Disk → Text → Result Text (List (Addr × IpmapEntry))
new_ipmap_source t d path = do f ← d.open_file path; ipmap_loaded path (parse_ipmap t (d.bunzip f))

-- Len
unfoldable pub ipmap_len : List (Addr × IpmapEntry) → ℕ
ipmap_len m = length m

-- loadIPtoASNFile
unfoldable pub load_iptoasn_file : NetText → Disk → Text → Result Text (List AsnRange)
load_iptoasn_file t d path = do
  f ← d.open_file path
  map_err (λ e. codes "parse iptoasn " ++ (path ++ (codes ": " ++ scan_error_text e)))
      (parse_iptoasn t d.sort_ranges f)

-- A family whose path is empty is left empty.
unfoldable pub load_iptoasn_family : NetText → Disk → Text → Result Text (List AsnRange)
load_iptoasn_family t d path = if is_empty path then ok [] else load_iptoasn_file t d path

unfoldable pub usable_rows :
    Disk → Text → Text → List AsnRange → List AsnRange → Result Text IptoasnSource
usable_rows d v4_path v6_path fours sixes =
    if is_empty fours && is_empty sixes
    then err
        (codes "iptoasn: no usable rows in " ++ (d.quote v4_path ++ (codes "/" ++ d.quote v6_path)))
    else ok (record { v4 = fours; v6 = sixes })

-- NewIPtoASNSource
unfoldable pub new_iptoasn_source : NetText → Disk → Text → Text → Result Text IptoasnSource
new_iptoasn_source t d v4_path v6_path = do
  fours ← load_iptoasn_family t d v4_path
  sixes ← load_iptoasn_family t d v6_path
  usable_rows d v4_path v6_path fours sixes

-- Summary
unfoldable pub iptoasn_summary : IptoasnSource → Text
iptoasn_summary s =
    codes "v4="
    ++ (decimal (length s.v4) ++ (codes " v6=" ++ (decimal (length s.v6) ++ codes " ranges")))

-- NewRPKISet; `parse` is parseVRPs.
unfoldable pub new_rpki_set : (Reader → Result Text RpkiSet) → Disk → Text → Result Text RpkiSet
new_rpki_set parse d path = do f ← d.open_file path; parse f
