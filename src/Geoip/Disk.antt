-- ===== src/Geoip/Disk.antt =====
-- The data files of geoip/: where each is looked for. The file system is a parameter.
use proto_ip.Prelude.{
  Bool, List, Result, [], err, if◌then◌else◌, is_empty, not, ok, ◌++◌, ◌>>=◌, ◌||◌,
}
use proto_ip.Geoip.Iptoasn.{AsnRange}
use proto_ip.Geoip.Mmdb.{Found, last_of}
use proto_ip.Golang.Netip.{Addr}
use proto_ip.Golang.Scanner.{Reader}
use proto_ip.Golang.Text.{Text, codes}

pub record Disk : Type 0 where
  -- filepath.Join of a directory and a name
  pub in_dir : Text → Text → Text
  -- os.Stat gives no error
  pub exists : Text → Bool
  -- filepath.Glob
  pub glob : Text → Result Text (List Text)
  -- sort.Strings
  pub sort_strings : List Text → List Text
  -- os.Open with what reading gives, and the content behind bzip2.NewReader
  pub open_file : Text → Result Text Reader
  pub bunzip : Reader → Reader
  -- maxminddb.Open
  pub open_mmdb : Text → Result Text (Addr → Found)
  -- sort.Slice of ranges by their start
  pub sort_ranges : List AsnRange → List AsnRange
  -- the verb %q
  pub quote : Text → Text

-- FindIPMapDatabase
unfoldable pub find_ipmap_database : Disk → Text → Result Text Text
find_ipmap_database d dir =
    let p = d.in_dir dir (codes "ipmap-geolocations-latest.csv.bz2") in
    if d.exists p then ok p else err (codes "RIPE IPmap dump not found in " ++ dir)

-- FindIP2LocationDatabase
unfoldable pub find_ip2location_database : Disk → Text → Result Text Text
find_ip2location_database d dir =
    let p = d.in_dir dir (codes "ip2location-lite-db9.mmdb") in
    if d.exists p then ok p else err (codes "IP2Location LITE DB9 MMDB not found in " ++ dir)

-- FindRPKIDatabase
unfoldable pub find_rpki_database : Disk → Text → Result Text Text
find_rpki_database d dir =
    let p = d.in_dir dir (codes "rpki-vrps.json") in
    if d.exists p then ok p else err (codes "rpki: " ++ (p ++ codes " not found"))

-- The last of the names in order.
unfoldable pub newest : Disk → Text → List Text → Result Text Text
newest d dir matches =
    if is_empty matches
    then err (codes "no dbip-city-lite-*.mmdb found in " ++ dir)
    else ok (last_of [] (d.sort_strings matches))

-- FindDBIPDatabase
unfoldable pub find_dbip_database : Disk → Text → Result Text Text
find_dbip_database d dir = do
  matches ← d.glob (d.in_dir dir (codes "dbip-city-lite-*.mmdb"))
  newest d dir matches

-- The path, or the empty one for a file that is not there.
unfoldable pub path_if : Disk → Text → Text
path_if d p = if d.exists p then p else []

-- FindIPtoASNDatabases
unfoldable pub find_iptoasn_databases : Disk → Text → Text × Text × Bool
find_iptoasn_databases d dir =
    let v4 = path_if d (d.in_dir dir (codes "ip2asn-v4.tsv")) in
    let v6 = path_if d (d.in_dir dir (codes "ip2asn-v6.tsv")) in
    (v4, v6, not (is_empty v4) || not (is_empty v6))
