-- ===== src/Geoip/Server.antt =====
-- geoip/server.go: the GeoLookup service over its sources and enrichers. A source answers an address
-- in a world `W` that it may change (caches, the network).
pub mod Isolation
pub mod Response
use proto_ip.Prelude.{
  Bool, List, Option, Result, [], err, false, if◌then◌else◌, none, ok, some, true, ◌++◌, ◌∷◌,
}
use proto_ip.Geoip.Anycast.{AnycastSet, anycast_contains}
use proto_ip.Geoip.Merge.{merge}
use proto_ip.Geoip.NetInfo.{Enrichers, build_network_info}
use proto_ip.Geoip.Wire.{addr_from_proto}
use proto_ip.Golang.Grpc.{Status, invalid_argument}
use proto_ip.Golang.NetText.{NetText}
use proto_ip.Golang.Netip.{Addr}
use proto_ip.Golang.Text.{Text, codes}
use proto_ip.Messages.{get}
use proto_ip.Messages.Geo.{GeoConfidence, GeoResponse, GeoSourceResult}
use proto_ip.Messages.Ip.{Cidr, Ip}

-- Source.Lookup; a nil result without an error is `ok none`.
abbrev pub Lookup : Type 0 → Type 0
Lookup W = Addr → W → Result Text (Option GeoSourceResult) × W

pub record GeoServer (W : Type 0) : Type 0 where
  pub sources : List (Lookup W)
  pub anycast : Option AnycastSet
  pub enrichers : W → Enrichers

-- The answer of one source: an error is logged and skipped, nil is no data.
abbrev pub answered : Result Text (Option GeoSourceResult) → List (Option GeoSourceResult)
answered (err e) = []
answered (ok none) = []
answered (ok (some r)) = some r ∷ []

pub in_anycast : Option AnycastSet → Addr → Bool
in_anycast none a = false
in_anycast (some s) a = anycast_contains s a

unfoldable pub flag_anycast : Option AnycastSet → Addr → GeoResponse → GeoResponse
unfolding in_anycast
flag_anycast s a resp =
    if in_anycast s a then record resp { anycast = true; confidence = GeoConfidence.low } else resp

module _ {W : Type 0} where
  -- The loop of `lookup` over the sources.
  unfoldable pub ask_all : List (Lookup W) → Addr → W → List (Option GeoSourceResult) × W
  ask_all [] a w = ([], w)
  ask_all (src ∷ srcs) a w =
      let rest = ask_all srcs a (src a w).1 in (answered (src a w).0 ++ rest.0, rest.1)

  -- lookup
  unfoldable pub lookup_addr : NetText → GeoServer W → Addr → W → GeoResponse × W
  lookup_addr t s a w =
      let asked = ask_all s.sources a w in
      (
        build_network_info t (s.enrichers asked.1) a (flag_anycast s.anycast a (merge asked.0)),
        asked.1,
      )

  -- LookupIP
  unfoldable pub lookup_ip : NetText → GeoServer W → Option Ip → W → Result Status GeoResponse × W
  lookup_ip t s ip w = elim (addr_from_proto ip) [
    | err e ↦ (err (record { code = invalid_argument; message = e }), w)
    | ok a ↦ let done = lookup_addr t s a w in (ok done.0, done.1)
  ]

  -- LookupCIDR; a nil CIDR has a nil address.
  unfoldable pub lookup_cidr :
      NetText → GeoServer W → Option Cidr → W → Result Status GeoResponse × W
  lookup_cidr t s cidr w = elim (get none (λ (c : Cidr). c.ip) cidr) [
    | none ↦ (err (record { code = invalid_argument; message = codes "CIDR.ip must be set" }), w)
    | some ip ↦ lookup_ip t s (some ip) w
  ]
