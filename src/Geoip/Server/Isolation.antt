-- ===== src/Geoip/Server/Isolation.antt =====
-- Sources that fail or have nothing to say.
use mathlib.Core.Path.{ap₂}
use proto_ip.Prelude.{List, Option, [], ap, ◌++◌, ◌∙◌, ◌∷◌, ◌≡◌}
use proto_ip.Geoip.Merge.{merge}
use proto_ip.Geoip.NetInfo.{build_network_info}
use proto_ip.Geoip.Server.{GeoServer, Lookup, answered, ask_all, flag_anycast, lookup_addr}
use proto_ip.Golang.NetText.{NetText}
use proto_ip.Golang.Netip.{Addr}
use proto_ip.Messages.Geo.{GeoSourceResult}

module _ {W : Type 0} where
  -- A source whose answer is an error or nil at this address, and which changes nothing.
  abbrev pub IsSilent : Addr → Lookup W → Type 0
  IsSilent a src = (w : W) → ((src a w).1 ≡ w) × (answered (src a w).0 ≡ [])

  ask_all-silent :
      (before after : List (Lookup W)) (src : Lookup W) (a : Addr) (w : W)
      → IsSilent a src
      → ask_all (before ++ src ∷ after) a w ≡ ask_all (before ++ after) a w
  unfolding ask_all
  ask_all-silent [] after src a w h =
      ap₂
        (λ (l : List (Option GeoSourceResult)) (v : W).
          (l ++ (ask_all after a v).0, (ask_all after a v).1))
        (h w).1 (h w).0
  ask_all-silent (x ∷ before) after src a w h =
      ap (λ (t : List (Option GeoSourceResult) × W). (answered (x a w).0 ++ t.0, t.1))
        (ask_all-silent before after src a (x a w).1 h)

  -- The response and the world behind it are the same with and without a silent source, wherever it
  -- stands in the order of the sources.
  pub lookup_addr-silent :
      (t : NetText) (s : GeoServer W) (before after : List (Lookup W)) (src : Lookup W) (a : Addr)
      (w : W)
      → IsSilent a src
      → s.sources ≡ before ++ src ∷ after
      → lookup_addr t s a w ≡ lookup_addr t (record s { sources = before ++ after }) a w
  unfolding lookup_addr
  lookup_addr-silent t s before after src a w h e =
      ap
        (λ (asked : List (Option GeoSourceResult) × W). (
          build_network_info t (s.enrichers asked.1) a (flag_anycast s.anycast a (merge asked.0)),
          asked.1,
        ))
        (ap (λ (l : List (Lookup W)). ask_all l a w) e ∙ ask_all-silent before after src a w h)
