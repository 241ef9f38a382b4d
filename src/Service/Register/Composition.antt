-- ===== src/Service/Register/Composition.antt =====
-- Which services and sources Register composes.
use mathlib.Core.List.{map-append}
use mathlib.Core.Path.{subst}
use proto_ip.Prelude.{
  Bool-cases, List, Option, Result, [], ap, append-nil, append_assoc, err, inl, inr, map, none, ok,
  refl, some, sym, true, ◌++◌, ◌>>=◌, ◌∙◌, ◌∷◌, ◌≡◌,
}
use proto_ip.Geoip.Anycast.{AnycastSet, LoadError}
use proto_ip.Geoip.Disk.{
  Disk, find_dbip_database, find_ip2location_database, find_ipmap_database, find_iptoasn_databases,
}
use proto_ip.Geoip.Loaders.{
  dbip_attribution, ip2location_attribution, new_dbip_source, new_ip2location_source,
  new_ipmap_source, new_iptoasn_source, open_mmdb_city,
}
use proto_ip.Geoip.Mmdb.{Found, MmdbSource}
use proto_ip.Geoip.Rpki.{RpkiSet}
use proto_ip.Geoip.Setup.{
  AnySource, geofeed_source, kind_of, new_server, with_anycast, with_asn_enrichment,
  with_reverse_dns, with_rpki_set,
}
use proto_ip.Golang.NetText.{NetText}
use proto_ip.Golang.Netip.{Addr}
use proto_ip.Golang.Scanner.{Reader}
use proto_ip.Golang.Text.{Text}
use proto_ip.Messages.Geo.{GeoSource, dbip_lite, geofeed, ip2location_lite}
use proto_ip.Rdap.Bootstrap.{Bootstrap}
use proto_ip.Service.Register.{
  add_anycast, add_enrichment, add_rpki, add_source, all_sources, client_of, data_dir, load_anycast,
  load_dbip, load_ip2location, load_ipmap, load_iptoasn, load_rpki, register, with_client,
}

-- The kind of a source, if it loads.
pub present {ℓ} : {A : Type ℓ} → GeoSource → Result Text A → List GeoSource
present k (err e) = []
present k (ok a) = k ∷ []

ok-injective {ℓ} : {A : Type ℓ} {a b : A} → ◌≡◌ {A = Result Text A} (ok a) (ok b) → a ≡ b
ok-injective h = cc (h)

append_assoc_five {ℓ} :
    {A : Type ℓ} (a b c d e : List A) → (((a ++ b) ++ c) ++ d) ++ e ≡ a ++ (b ++ (c ++ (d ++ e)))
append_assoc_five a b c d e =
    append_assoc ((a ++ b) ++ c) d e
    ∙ append_assoc (a ++ b) c (d ++ e)
    ∙ append_assoc a b (c ++ (d ++ e))

bind→ok {ℓ κ} :
    {A : Type ℓ} {B : Type κ} (r : Result Text A) (f : A → Result Text B) (b : B)
    → (r >>= f) ≡ ok b
    → (a : A) × (r ≡ ok a) × (f a ≡ ok b)
bind→ok (ok a) f b h = (a, refl, h)
bind→ok (err e) f b h = absurd cc

open_mmdb_city-kind :
    (d : Disk) (path : Text) (k : GeoSource) (attribution : Text) (s : MmdbSource)
    → open_mmdb_city d path k attribution ≡ ok s
    → s.kind ≡ k
unfolding open_mmdb_city
open_mmdb_city-kind d path k attribution s h = of_db (d.open_mmdb path) refl h
  where
    of_db :
        (r : Result Text (Addr → Found))
        → d.open_mmdb path ≡ r
        → open_mmdb_city d path k attribution ≡ ok s
        → s.kind ≡ k
    of_db (err e) p g = absurd (cc (rw (p, open_mmdb_city) at g))
    of_db (ok db) p g =
        let same : record { db = db; kind = k; attribution = attribution } ≡ s =
          cc (rw (p, open_mmdb_city) at g) in
        sym (ap (λ (m : MmdbSource). m.kind) same)

kinds_added :
    (k : GeoSource) (r : Result Text AnySource) (sources : List AnySource)
    → ((s : AnySource) → r ≡ ok s → kind_of s ≡ k)
    → map kind_of (add_source r sources) ≡ map kind_of sources ++ present k r
unfolding add_source present
kinds_added k (err e) sources h = sym (append-nil _)
kinds_added k (ok s) sources h =
    map-append kind_of sources (s ∷ []) ∙ ap (λ x. map kind_of sources ++ x ∷ []) (h s refl)

kinds_with_client :
    (t : NetText) (vrps : Reader → Result Text RpkiSet) (d : Disk) (dir : Text)
    (boot : Result Text Bootstrap) (sources : List AnySource)
    → map kind_of (with_client t vrps d dir boot sources)
      ≡ map kind_of sources ++ present geofeed boot
unfolding with_client kind_of present
kinds_with_client t vrps d dir (err e) sources = sym (append-nil _)
kinds_with_client t vrps d dir (ok c) sources = map-append kind_of sources (geofeed_source c ∷ [])

module _ (t : NetText) (vrps : Reader → Result Text RpkiSet) (d : Disk) (dir : Text) where
  load_ipmap-kind : (s : AnySource) → load_ipmap t vrps d dir ≡ ok s → kind_of s ≡ GeoSource.ipmap
  unfolding load_ipmap kind_of
  load_ipmap-kind s h =
      let (p, _, at_path) = bind→ok (find_ipmap_database d dir) _ s h in
      let (m, _, made) = bind→ok (new_ipmap_source t d p) _ s at_path in
      subst (λ (x : AnySource). kind_of x ≡ GeoSource.ipmap) (ok-injective made) refl

  load_dbip-kind : (s : AnySource) → load_dbip t vrps d dir ≡ ok s → kind_of s ≡ dbip_lite
  unfolding load_dbip kind_of new_dbip_source
  load_dbip-kind s h =
      let (p, _, at_path) = bind→ok (find_dbip_database d dir) _ s h in
      let (m, opened, made) = bind→ok (new_dbip_source d p) _ s at_path in
      subst (λ (x : AnySource). kind_of x ≡ dbip_lite) (ok-injective made)
        (open_mmdb_city-kind d p dbip_lite dbip_attribution m opened)

  load_ip2location-kind :
      (s : AnySource) → load_ip2location t vrps d dir ≡ ok s → kind_of s ≡ ip2location_lite
  unfolding load_ip2location kind_of new_ip2location_source
  load_ip2location-kind s h =
      let (p, _, at_path) = bind→ok (find_ip2location_database d dir) _ s h in
      let (m, opened, made) = bind→ok (new_ip2location_source d p) _ s at_path in
      subst (λ (x : AnySource). kind_of x ≡ ip2location_lite) (ok-injective made)
        (open_mmdb_city-kind d p ip2location_lite ip2location_attribution m opened)

  load_iptoasn-kind :
      (s : AnySource) → load_iptoasn t vrps d dir ≡ ok s → kind_of s ≡ GeoSource.iptoasn
  unfolding load_iptoasn kind_of
  load_iptoasn-kind s h = elim (Bool-cases (find_iptoasn_databases d dir).2) [
    | inr missing ↦ absurd (cc (rw (missing, load_iptoasn) at h))
    | inl listed ↦
        let (m, _, made) =
          bind→ok
            (new_iptoasn_source t d (find_iptoasn_databases d dir).0
              (find_iptoasn_databases d dir).1)
            _ s (rw (listed, load_iptoasn) at h) in
        subst (λ (x : AnySource). kind_of x ≡ GeoSource.iptoasn) (ok-injective made) refl
  ]

  pub all_sources-kinds :
      (boot : Result Text Bootstrap)
      → map kind_of (all_sources t vrps d dir boot)
        ≡ present GeoSource.ipmap (load_ipmap t vrps d dir)
          ++ (present dbip_lite (load_dbip t vrps d dir)
              ++ (present ip2location_lite (load_ip2location t vrps d dir)
                  ++ (present GeoSource.iptoasn (load_iptoasn t vrps d dir)
                      ++ present geofeed boot)))
  unfolding all_sources
  all_sources-kinds boot =
      let one = add_source (load_ipmap t vrps d dir) [] in
      let two = add_source (load_dbip t vrps d dir) one in
      let three = add_source (load_ip2location t vrps d dir) two in
      let four = add_source (load_iptoasn t vrps d dir) three in
      kinds_with_client t vrps d dir boot four
      ∙ rw
          (
            kinds_added GeoSource.iptoasn (load_iptoasn t vrps d dir) three load_iptoasn-kind,
            kinds_added ip2location_lite (load_ip2location t vrps d dir) two load_ip2location-kind,
            kinds_added dbip_lite (load_dbip t vrps d dir) one load_dbip-kind,
            kinds_added GeoSource.ipmap (load_ipmap t vrps d dir) [] load_ipmap-kind,
          )
          (append_assoc_five (present GeoSource.ipmap (load_ipmap t vrps d dir))
            (present dbip_lite (load_dbip t vrps d dir))
            (present ip2location_lite (load_ip2location t vrps d dir))
            (present GeoSource.iptoasn (load_iptoasn t vrps d dir)) (present geofeed boot))

-- What a loader gives, if it gives something.
pub loaded {ℓ κ} : {E : Type ℓ} {A : Type κ} → Result E A → Option A
loaded (err e) = none
loaded (ok a) = some a

client_of-loaded : (boot : Result Text Bootstrap) → client_of boot ≡ loaded boot
unfolding client_of loaded
client_of-loaded (err e) = refl
client_of-loaded (ok c) = refl

-- A kind that is not present did not load.
pub present_nothing {ℓ} :
    {A : Type ℓ} (k : GeoSource) (r : Result Text A) → present k r ≡ [] → loaded r ≡ none
unfolding present loaded
present_nothing k (err e) h = refl
present_nothing k (ok a) h = absurd cc

-- Each part of the server is what its loader gave.
parts :
    (sources : List AnySource) (a : Result LoadError AnycastSet) (r : Result Text RpkiSet)
    (boot : Result Text Bootstrap)
    → let geo =
        with_reverse_dns (add_enrichment boot (add_rpki r (add_anycast a (new_server sources)))) in
      (geo.sources ≡ sources)
      × (geo.anycast ≡ loaded a)
      × (geo.rpki ≡ loaded r)
      × (geo.enricher ≡ loaded boot)
      × (geo.resolver ≡ true)
unfolding add_enrichment add_rpki add_anycast loaded new_server with_reverse_dns with_anycast
    with_rpki_set with_asn_enrichment
parts sources (ok a) (ok r) (ok c) = (refl, refl, refl, refl, refl)
parts sources (ok a) (ok r) (err c) = (refl, refl, refl, refl, refl)
parts sources (ok a) (err r) (ok c) = (refl, refl, refl, refl, refl)
parts sources (ok a) (err r) (err c) = (refl, refl, refl, refl, refl)
parts sources (err a) (ok r) (ok c) = (refl, refl, refl, refl, refl)
parts sources (err a) (ok r) (err c) = (refl, refl, refl, refl, refl)
parts sources (err a) (err r) (ok c) = (refl, refl, refl, refl, refl)
parts sources (err a) (err r) (err c) = (refl, refl, refl, refl, refl)

pub register-all_sources :
    (t : NetText) (vrps : Reader → Result Text RpkiSet) (d : Disk) (env : Text)
    (boot : Result Text Bootstrap)
    → (register t vrps d env boot).geo.sources ≡ all_sources t vrps d (data_dir env) boot
unfolding register
register-all_sources t vrps d env boot =
    (parts (all_sources t vrps d (data_dir env) boot) (load_anycast t vrps d (data_dir env))
      (load_rpki t vrps d (data_dir env)) boot).0

-- Register's server asks the sources that load in the order RIPE IPmap, DB-IP, IP2Location, iptoasn
-- and geofeeds, each of its own kind; geofeeds, the RDAP service and the enrichment by AS are there
-- just if the bootstrap succeeds; the anycast lists and the VRPs just if they load; reverse DNS
-- always.
pub register-kinds :
    (t : NetText) (vrps : Reader → Result Text RpkiSet) (d : Disk) (env : Text)
    (boot : Result Text Bootstrap)
    → let dir = data_dir env in
      let made = register t vrps d env boot in
      (map kind_of made.geo.sources
        ≡ present GeoSource.ipmap (load_ipmap t vrps d dir)
          ++ (present dbip_lite (load_dbip t vrps d dir)
              ++ (present ip2location_lite (load_ip2location t vrps d dir)
                  ++ (present GeoSource.iptoasn (load_iptoasn t vrps d dir)
                      ++ present geofeed boot))))
      × (made.rdap ≡ loaded boot)
      × (made.geo.enricher ≡ loaded boot)
      × (made.geo.anycast ≡ loaded (load_anycast t vrps d dir))
      × (made.geo.rpki ≡ loaded (load_rpki t vrps d dir))
      × (made.geo.resolver ≡ true)
unfolding register
register-kinds t vrps d env boot =
    let dir = data_dir env in
    let (srcs, anycast, rpki, enricher, resolver) =
      parts (all_sources t vrps d dir boot) (load_anycast t vrps d dir) (load_rpki t vrps d dir)
        boot in
    (
      ap (map kind_of) srcs ∙ all_sources-kinds t vrps d dir boot,
      client_of-loaded boot,
      enricher,
      anycast,
      rpki,
      resolver,
    )
