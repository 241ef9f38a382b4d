-- ===== src/Geoip/Setup.antt =====
-- geoip/server.go: a server's configuration, with the sources that the package has.
use proto_ip.Prelude.{
  Bool, List, Option, Result, false, if◌then◌else◌, map, none, ok, some, true, ℕ,
}
use proto_ip.Geoip.Anycast.{AnycastSet}
use proto_ip.Geoip.Ipmap.{IpmapEntry, ipmap_lookup}
use proto_ip.Geoip.Iptoasn.{IptoasnSource, iptoasn_lookup}
use proto_ip.Geoip.Mmdb.{MmdbSource, mmdb_lookup}
use proto_ip.Geoip.NetInfo.{AutnumFacts}
use proto_ip.Geoip.Rpki.{RpkiSet}
use proto_ip.Geoip.Server.{GeoServer, Lookup}
use proto_ip.Golang.NetText.{NetText}
use proto_ip.Golang.Netip.{Addr}
use proto_ip.Golang.Text.{Text}
use proto_ip.Messages.Geo.{GeoSource}
use proto_ip.Rdap.Bootstrap.{Bootstrap}
use mathlib.Core.Option

-- A geofeed source is the RDAP client that it discovers feeds through.
pub data AnySource : Type 0 where
  ipmap_source : List (Addr × IpmapEntry) → AnySource
  mmdb_source : MmdbSource → AnySource
  iptoasn_source : IptoasnSource → AnySource
  geofeed_source : Bootstrap → AnySource

-- Kind
unfoldable pub kind_of : AnySource → GeoSource
kind_of (ipmap_source m) = GeoSource.ipmap
kind_of (mmdb_source s) = s.kind
kind_of (iptoasn_source s) = GeoSource.iptoasn
kind_of (geofeed_source c) = GeoSource.geofeed

-- Server; `enricher` is the client that newRDAPEnricher is given.
pub record Setup : Type 0 where
  pub sources : List AnySource
  pub anycast : Option AnycastSet
  pub rpki : Option RpkiSet
  pub enricher : Option Bootstrap
  pub resolver : Bool

-- NewServer
unfoldable pub new_server : List AnySource → Setup
new_server sources = record {
  sources = sources;
  anycast = none;
  rpki = none;
  enricher = none;
  resolver = false;
}

-- WithAnycast
unfoldable pub with_anycast : AnycastSet → Setup → Setup
with_anycast a s = record s { anycast = some a }

-- WithRPKI
unfoldable pub with_rpki_set : RpkiSet → Setup → Setup
with_rpki_set r s = record s { rpki = some r }

-- WithASNEnrichment
unfoldable pub with_asn_enrichment : Bootstrap → Setup → Setup
with_asn_enrichment c s = record s { enricher = some c }

-- WithReverseDNS
unfoldable pub with_reverse_dns : Setup → Setup
with_reverse_dns s = record s { resolver = true }

module _ {W : Type 0} (t : NetText) (geofeeds : Bootstrap → Lookup W) where
  -- Lookup of the interface Source; that of a geofeed source is an argument.
  unfoldable pub lookup_of : AnySource → Lookup W
  lookup_of (ipmap_source m) a w = (ok (ipmap_lookup t m a), w)
  lookup_of (mmdb_source s) a w = (mmdb_lookup t s a, w)
  lookup_of (iptoasn_source s) a w = (ok (iptoasn_lookup t s a), w)
  lookup_of (geofeed_source c) a w = geofeeds c a w

  -- The server that a configuration describes: what its RDAP client gives as the facts of an AS,
  -- and what its resolver gives, are arguments.
  unfoldable pub to_server :
      (W → Bootstrap → ℕ → Result Text AutnumFacts)
      → (W → Addr → Result Text Text)
      → Setup
      → GeoServer W
  to_server facts ptr s = record {
    sources = map lookup_of s.sources;
    anycast = s.anycast;
    enrichers = λ w. record {
      facts = Option.map (facts w) s.enricher;
      rpki = s.rpki;
      ptr = if s.resolver then some (ptr w) else none;
    };
  }
