-- ===== src/Geoip/Server/Response.antt =====
-- What a response says: the merged estimate, the anycast flag, and the network part.
use mathlib.Core.List.{Memᴰ}
use proto_ip.Prelude.{
  Bool-cases, List, Option, Result, [], any→mem, ap, err, false, if◌then◌else◌, inl, inr, mem→any,
  none, ok, refl, some, true, ◌++◌, ◌∙◌, ◌∷◌, ◌≡◌, ◌⊎◌,
}
use proto_ip.Geoip.Anycast.{AnycastSet, anycast_contains}
use proto_ip.Geoip.Merge.{merge, with_best, with_origin}
use proto_ip.Geoip.Merge.Best.{merge-cases}
use proto_ip.Geoip.NetInfo.{Enrichers, build_network_info, disabled}
use proto_ip.Geoip.Rpki.{at}
use proto_ip.Geoip.Server.{
  GeoServer, Lookup, answered, ask_all, flag_anycast, in_anycast, lookup_addr,
}
use proto_ip.Golang.NetText.{NetText}
use proto_ip.Golang.Netip.{Addr, Prefix, contains, is4}
use proto_ip.Golang.Text.{Text}
use proto_ip.Messages.Geo.{GeoConfidence, GeoResponse, GeoSourceResult}

-- The address is in a prefix of the attached set, in the list of its family.
pub record IsKnown (s : Option AnycastSet) (a : Addr) : Type 0 where
  pub set : AnycastSet
  pub attached : s ≡ some set
  pub covering : Prefix
  pub listed : Memᴰ covering (if is4 a then set.v4 else set.v6)
  pub covers : contains covering a ≡ true

-- The anycast flag forces the confidence to low, and changes nothing else of the estimate.
pub record IsEstimate (s : Option AnycastSet) (a : Addr) (results : List (Option GeoSourceResult))
    (resp : GeoResponse) : Type 0 where
  pub best_of : resp.best ≡ (merge results).best
  pub best_source_of : resp.best_source ≡ (merge results).best_source
  pub sources_of : resp.sources ≡ results
  pub asn_of : resp.asn ≡ (merge results).asn
  pub network_of : resp.network ≡ (merge results).network
  pub flagged :
      (IsKnown s a × (resp.anycast ≡ true) × (resp.confidence ≡ GeoConfidence.low))
      ⊎ (¬ IsKnown s a × (resp.anycast ≡ false) × (resp.confidence ≡ (merge results).confidence))

-- The sources asked one after the other, each in the world that the one before it left: one that
-- answers with a result contributes it, one that fails or has nothing contributes nothing.
pub data Asked {W : Type 0} (a : Addr)
    : List (Lookup W) → W → List (Option GeoSourceResult) → W → Type 0 where
  asked_all : {w : W} → Asked a [] w [] w
  answers :
      {src : Lookup W} {srcs : List (Lookup W)} {w u v : W} {r : GeoSourceResult}
      {rs : List (Option GeoSourceResult)}
      → src a w ≡ (ok (some r), u)
      → Asked a srcs u rs v
      → Asked a (src ∷ srcs) w (some r ∷ rs) v
  has_nothing :
      {src : Lookup W} {srcs : List (Lookup W)} {w u v : W} {rs : List (Option GeoSourceResult)}
      → src a w ≡ (ok none, u)
      → Asked a srcs u rs v
      → Asked a (src ∷ srcs) w rs v
  fails :
      {src : Lookup W} {srcs : List (Lookup W)} {w u v : W} {e : Text}
      {rs : List (Option GeoSourceResult)}
      → src a w ≡ (err e, u)
      → Asked a srcs u rs v
      → Asked a (src ∷ srcs) w rs v

in_anycast→IsKnown : (s : Option AnycastSet) (a : Addr) → in_anycast s a ≡ true → IsKnown s a
unfolding in_anycast anycast_contains
in_anycast→IsKnown none a h = absurd (cc)
in_anycast→IsKnown (some set) a h =
    let (p, m, c) = any→mem (λ p. contains p a) (if is4 a then set.v4 else set.v6) h in
    record { set = set; attached = refl; covering = p; listed = m; covers = c }

IsKnown→in_anycast : (s : Option AnycastSet) (a : Addr) → IsKnown s a → in_anycast s a ≡ true
unfolding in_anycast anycast_contains
IsKnown→in_anycast s a k =
    rw (k.attached, in_anycast) (mem→any (λ p. contains p a) k.listed k.covers)

merge-anycast : (rs : List (Option GeoSourceResult)) → (merge rs).anycast ≡ false
merge-anycast rs = elim (merge-cases rs) [
  | inl (h, e) ↦ ap (λ (p : GeoResponse). p.anycast) e ∙ (unfold with_origin in refl)
  | inr (b, l, base, at, e) ↦
      ap (λ (p : GeoResponse). p.anycast) e ∙ (unfold with_best with_origin in refl)
]

merge-sources : (rs : List (Option GeoSourceResult)) → (merge rs).sources ≡ rs
merge-sources rs = elim (merge-cases rs) [
  | inl (h, e) ↦ ap (λ (p : GeoResponse). p.sources) e ∙ (unfold with_origin in refl)
  | inr (b, l, base, at, e) ↦
      ap (λ (p : GeoResponse). p.sources) e ∙ (unfold with_best with_origin in refl)
]

flag_anycast-IsEstimate :
    (s : Option AnycastSet) (a : Addr) (rs : List (Option GeoSourceResult))
    → IsEstimate s a rs (flag_anycast s a (merge rs))
unfolding flag_anycast
flag_anycast-IsEstimate s a rs = elim (Bool-cases (in_anycast s a)) [
  | inl e ↦
      rw (e, flag_anycast)
        (record {
          best_of = refl;
          best_source_of = refl;
          sources_of = merge-sources rs;
          asn_of = refl;
          network_of = refl;
          flagged = inl (in_anycast→IsKnown s a e, refl, refl);
        })
  | inr e ↦
      rw (e, flag_anycast)
        (record {
          best_of = refl;
          best_source_of = refl;
          sources_of = merge-sources rs;
          asn_of = refl;
          network_of = refl;
          flagged = inr (λ k. cc (IsKnown→in_anycast s a k, e), merge-anycast rs, refl);
        })
]

build-IsEstimate :
    (t : NetText) (en : Enrichers) (s : Option AnycastSet) (a : Addr)
    (rs : List (Option GeoSourceResult)) (resp : GeoResponse)
    → IsEstimate s a rs resp
    → IsEstimate s a rs (build_network_info t en a resp)
unfolding build_network_info
build-IsEstimate t en s a rs resp h = elim (Bool-cases (disabled en)) [
  | inl e ↦ rw (e, build_network_info) h
  | inr e ↦
      rw (e, build_network_info)
        (record {
          best_of = h.best_of;
          best_source_of = h.best_source_of;
          sources_of = h.sources_of;
          asn_of = h.asn_of;
          network_of = h.network_of;
          flagged = h.flagged;
        })
]

module _ {W : Type 0} where
  answered-Asked :
      (src : Lookup W) (srcs : List (Lookup W)) (a : Addr) (w u v : W)
      (rs : List (Option GeoSourceResult)) (r : Result Text (Option GeoSourceResult))
      → src a w ≡ (r, u)
      → Asked a srcs u rs v
      → Asked a (src ∷ srcs) w (answered r ++ rs) v
  answered-Asked src srcs a w u v rs (err e) h rest = fails h rest
  answered-Asked src srcs a w u v rs (ok none) h rest = has_nothing h rest
  answered-Asked src srcs a w u v rs (ok (some r)) h rest = answers h rest

  ask_all-Asked :
      (srcs : List (Lookup W)) (a : Addr) (w : W)
      → Asked a srcs w (ask_all srcs a w).0 (ask_all srcs a w).1
  unfolding ask_all
  ask_all-Asked [] a w = asked_all
  ask_all-Asked (src ∷ srcs) a w =
      answered-Asked src srcs a w (src a w).1 _ _ (src a w).0 refl
        (ask_all-Asked srcs a (src a w).1)

  -- The estimate over what the loop collects.
  pub lookup_addr-ask_all :
      (t : NetText) (s : GeoServer W) (a : Addr) (w : W)
      → IsEstimate s.anycast a (ask_all s.sources a w).0 (lookup_addr t s a w).0
  unfolding lookup_addr
  lookup_addr-ask_all t s a w =
      build-IsEstimate t _ s.anycast a _ _ (flag_anycast-IsEstimate s.anycast a _)

  -- A lookup asks the sources one after the other, each in the world that the one before it left,
  -- and answers with the merge of the results that they gave, in that order, those that failed or
  -- had nothing left out. An address in a prefix of its family of the attached anycast set is
  -- flagged and its confidence is low; any other address is not flagged and keeps the merged
  -- confidence.
  pub lookup_addr-IsEstimate :
      (t : NetText) (s : GeoServer W) (a : Addr) (w : W)
      → (rs : List (Option GeoSourceResult)) × Asked a s.sources w rs (lookup_addr t s a w).1
        × IsEstimate s.anycast a rs (lookup_addr t s a w).0
  unfolding lookup_addr
  lookup_addr-IsEstimate t s a w =
      ((ask_all s.sources a w).0, ask_all-Asked s.sources a w, lookup_addr-ask_all t s a w)
