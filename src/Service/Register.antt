-- ===== src/Service/Register.antt =====
-- service/register.go: Register, and the same composition in the main of cmd/geo-server. The JSON of
-- the RPKI dump (`vrps`) and the bootstrap's requests (`boot`) come with their results.
pub mod Composition
pub mod Measured
use proto_ip.Prelude.{
  List, Option, Result, [], err, if◌then◌else◌, is_empty, none, ok, some, ◌++◌, ◌>>=◌, ◌∷◌,
}
use proto_ip.Geoip.Anycast.{AnycastSet, LoadError, find_anycast_files, new_anycast_set, open_failed}
use proto_ip.Geoip.Disk.{
  Disk, find_dbip_database, find_ip2location_database, find_ipmap_database, find_iptoasn_databases,
  find_rpki_database,
}
use proto_ip.Geoip.Loaders.{
  new_dbip_source, new_ip2location_source, new_ipmap_source, new_iptoasn_source, new_rpki_set,
}
use proto_ip.Geoip.Rpki.{RpkiSet}
use proto_ip.Geoip.Setup.{
  AnySource, Setup, geofeed_source, ipmap_source, iptoasn_source, mmdb_source, new_server,
  with_anycast, with_asn_enrichment, with_reverse_dns, with_rpki_set,
}
use proto_ip.Golang.NetText.{NetText}
use proto_ip.Golang.Scanner.{Reader}
use proto_ip.Golang.Text.{Text, codes}
use proto_ip.Rdap.Bootstrap.{Bootstrap}

-- What a source's constructor gives is added if there is no error.
unfoldable pub add_source : Result Text AnySource → List AnySource → List AnySource
add_source (err e) sources = sources
add_source (ok s) sources = sources ++ s ∷ []

module _ (t : NetText) (vrps : Reader → Result Text RpkiSet) (d : Disk) (dir : Text) where
  -- Each source, found and then loaded.
  unfoldable pub load_ipmap : Result Text AnySource
  load_ipmap = do p ← find_ipmap_database d dir; m ← new_ipmap_source t d p; ok (ipmap_source m)

  unfoldable pub load_dbip : Result Text AnySource
  load_dbip = do p ← find_dbip_database d dir; s ← new_dbip_source d p; ok (mmdb_source s)

  unfoldable pub load_ip2location : Result Text AnySource
  load_ip2location = do
    p ← find_ip2location_database d dir
    s ← new_ip2location_source d p
    ok (mmdb_source s)

  unfoldable pub load_iptoasn : Result Text AnySource
  load_iptoasn =
      let files = find_iptoasn_databases d dir in
      if files.2
      then (do s ← new_iptoasn_source t d files.0 files.1; ok (iptoasn_source s))
      else err (codes "not found")

  -- `if rdapClient != nil`
  unfoldable pub with_client : Result Text Bootstrap → List AnySource → List AnySource
  with_client (err e) sources = sources
  with_client (ok c) sources = sources ++ geofeed_source c ∷ []

  -- The optional parts of the server.
  unfoldable pub load_anycast : Result LoadError AnycastSet
  load_anycast =
      let files = find_anycast_files d.exists (d.in_dir dir) in
      if files.2
      then new_anycast_set t d.open_file files.0 files.1
      else err (open_failed (codes "not found"))

  unfoldable pub load_rpki : Result Text RpkiSet
  load_rpki = do p ← find_rpki_database d dir; new_rpki_set vrps d p

  -- The sources in the order in which they are asked.
  unfoldable pub all_sources : Result Text Bootstrap → List AnySource
  all_sources boot =
      let one = add_source load_ipmap [] in
      let two = add_source load_dbip one in
      let three = add_source load_ip2location two in
      let four = add_source load_iptoasn three in with_client boot four

-- `if err == nil { server = server.With…(x) }`
unfoldable pub add_anycast : Result LoadError AnycastSet → Setup → Setup
add_anycast (err e) s = s
add_anycast (ok a) s = with_anycast a s

unfoldable pub add_rpki : Result Text RpkiSet → Setup → Setup
add_rpki (err e) s = s
add_rpki (ok r) s = with_rpki_set r s

-- `if rdapClient != nil { geo = geo.WithASNEnrichment(rdapClient) }`
unfoldable pub add_enrichment : Result Text Bootstrap → Setup → Setup
add_enrichment (err e) s = s
add_enrichment (ok c) s = with_asn_enrichment c s

-- os.Getenv, with its default
unfoldable pub data_dir : Text → Text
data_dir env = if is_empty env then codes "data/geoip" else env

-- The services on the gRPC server; LocalLookup has no configuration and is always there.
pub record Services : Type 0 where
  pub rdap : Option Bootstrap
  pub geo : Setup

unfoldable pub client_of : Result Text Bootstrap → Option Bootstrap
client_of (err e) = none
client_of (ok c) = some c

-- Register, with the value of the environment variable.
unfoldable pub register :
    NetText → (Reader → Result Text RpkiSet) → Disk → Text → Result Text Bootstrap → Services
register t vrps d env boot =
    let dir = data_dir env in
    let geo = new_server (all_sources t vrps d dir boot) in
    let geo = add_anycast (load_anycast t vrps d dir) geo in
    let geo = add_rpki (load_rpki t vrps d dir) geo in
    let geo = add_enrichment boot geo in
    record { rdap = client_of boot; geo = with_reverse_dns geo }
