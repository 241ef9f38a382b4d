-- ===== src/Cmd/GeoServer.antt =====
-- cmd/geo-server/main.go: the sources and the server that main builds, up to gRPC and the signals.
pub mod Mirror
use proto_ip.Prelude.{Result, [], err, if◌then◌else◌, is_empty, ok}
use proto_ip.Geoip.Disk.{Disk}
use proto_ip.Geoip.Rpki.{RpkiSet}
use proto_ip.Geoip.Setup.{Setup, new_server, with_reverse_dns}
use proto_ip.Golang.NetText.{NetText}
use proto_ip.Golang.Scanner.{Reader}
use proto_ip.Golang.Text.{Text, codes}
use proto_ip.Rdap.Bootstrap.{Bootstrap}
use proto_ip.Service.Register.{
  add_anycast, add_enrichment, add_rpki, add_source, load_anycast, load_dbip, load_ip2location,
  load_ipmap, load_iptoasn, load_rpki, with_client,
}

abbrev pub no_sources : Text
no_sources = codes "no geolocation sources available; cannot start"

-- main; err is log.Fatal.
unfoldable pub geo_server :
    NetText
    → (Reader → Result Text RpkiSet)
    → Disk
    → Text
    → Result Text Bootstrap
    → Result Text Setup
geo_server t vrps d dir boot =
    let one = add_source (load_ipmap t vrps d dir) [] in
    let two = add_source (load_dbip t vrps d dir) one in
    let three = add_source (load_ip2location t vrps d dir) two in
    let four = add_source (load_iptoasn t vrps d dir) three in
    let sources = with_client t vrps d dir boot four in
    if is_empty sources
    then err no_sources
    else ok (
        with_reverse_dns (
          add_enrichment boot (
            add_rpki (load_rpki t vrps d dir)
              (add_anycast (load_anycast t vrps d dir) (new_server sources)))))
