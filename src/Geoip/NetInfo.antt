-- ===== src/Geoip/NetInfo.antt =====
-- geoip/netinfo.go: the facts about an origin AS, their cache, and the network part of a response.
-- The RDAP client and the DNS resolver are parameters that act on a world `W`.
pub mod Facts
pub mod Cache
pub mod Concurrent
pub mod Spine
use proto_ip.Prelude.{
  Bool, List, Option, Result, [], err, false, if◌then◌else◌, is_empty, list_eq, nat_eq, none, ok,
  some, true, ℕ, ◌==◌, ◌∷◌,
}
use proto_ip.Geoip.Rpki.{RpkiSet, validate, vrps_to_proto}
use proto_ip.Golang.Maps.{insert, lookup}
use proto_ip.Golang.NetText.{NetText}
use proto_ip.Golang.Netip.{Addr, addr_eq}
use proto_ip.Golang.Text.{Text, codes, trim_suffix}
use proto_ip.Messages.Geo.{GeoResponse, NetworkInfo, status_unknown}
use proto_ip.Messages.Rdap.{RdapAutnum, RdapAutnumResponse, RdapEntity, RdapRole, registrant}

pub record AutnumFacts : Type 0 where
  pub name : Text
  pub org : Text
  pub country : Text
  pub abuse : Text
  pub handle : Text

abbrev pub first_non_empty : Text → Text → Text
first_non_empty a b = if is_empty a then b else a

-- `if f.abuse == "" && len(emails) > 0`
unfoldable pub set_abuse : AutnumFacts → List Text → AutnumFacts
set_abuse f [] = f
set_abuse f (e ∷ es) = if is_empty f.abuse then record f { abuse = e } else f

-- The switch on one role of an entity.
unfoldable pub take_role : RdapEntity → AutnumFacts → RdapRole → AutnumFacts
unfolding set_abuse
take_role ent f registrant =
    if is_empty f.org then record f { org = first_non_empty ent.org ent.fn } else f
take_role ent f RdapRole.abuse = set_abuse f ent.emails
take_role ent f _ = f

unfoldable pub take_roles : RdapEntity → AutnumFacts → List RdapRole → AutnumFacts
take_roles ent f [] = f
take_roles ent f (r ∷ rs) = take_roles ent (take_role ent f r) rs

unfoldable pub take_entities : AutnumFacts → List RdapEntity → AutnumFacts
take_entities f [] = f
take_entities f (e ∷ es) = take_entities (take_roles e f e.roles) es

-- autnumFactsFromRDAP
unfoldable pub autnum_facts_from_rdap : RdapAutnum → AutnumFacts
autnum_facts_from_rdap a =
    take_entities
      (record { name = a.name; org = []; country = a.country; abuse = []; handle = a.handle })
      a.entities

-- The cache behind a query: only a success is kept.
unfoldable pub remember :
    ℕ
    → Result Text RdapAutnumResponse
    → List (ℕ × AutnumFacts)
    → Result Text AutnumFacts × List (ℕ × AutnumFacts)
remember asn (err e) cache = (err e, cache)
remember asn (ok resp) cache =
    (ok (autnum_facts_from_rdap resp.autnum), insert asn (autnum_facts_from_rdap resp.autnum) cache)

-- rdapEnricher.Enrich on its cache; `client` is LookupAutnum in the world `W`.
unfoldable pub enrich {ℓ} :
    {W : Type ℓ}
    → (ℕ → W → Result Text RdapAutnumResponse × W)
    → ℕ
    → List (ℕ × AutnumFacts)
    → W
    → (Result Text AutnumFacts × List (ℕ × AutnumFacts)) × W
enrich client asn cache w = elim (lookup asn cache) [
  | some f ↦ ((ok f, cache), w)
  | none ↦ (remember asn (client asn w).0 cache, (client asn w).1)
]

-- netResolver.LookupPTR on what LookupAddr gives.
unfoldable pub ptr_of : Result Text (List Text) → Result Text Text
ptr_of (err e) = err e
ptr_of (ok []) = ok []
ptr_of (ok (n ∷ ns)) = ok (trim_suffix n (codes "."))

-- What the three enrichers of a server give for an address and an origin AS; none where disabled.
pub record Enrichers : Type 0 where
  pub facts : Option (ℕ → Result Text AutnumFacts)
  pub rpki : Option RpkiSet
  pub ptr : Option (Addr → Result Text Text)

unfoldable pub with_facts : NetworkInfo → Option (ℕ → Result Text AutnumFacts) → NetworkInfo
with_facts ni none = ni
with_facts ni (some enricher) = if ni.asn == 0 then ni else elim (enricher ni.asn) [
  | err e ↦ ni
  | ok f ↦ record ni {
    as_name = f.name;
    org = f.org;
    registry_country = f.country;
    abuse_email = f.abuse;
    rdap_handle = f.handle;
  }
]

unfoldable pub with_rpki : NetText → Addr → NetworkInfo → Option RpkiSet → NetworkInfo
with_rpki t a ni none = ni
with_rpki t a ni (some s) = record ni {
  rpki_status = (validate s a ni.asn).0;
  rpki_covering_roas = vrps_to_proto t (validate s a ni.asn).1;
}

unfoldable pub with_ptr : Addr → NetworkInfo → Option (Addr → Result Text Text) → NetworkInfo
with_ptr a ni none = ni
with_ptr a ni (some resolver) = elim (resolver a) [
  | err e ↦ ni
  | ok name ↦ if is_empty name then ni else record ni { reverse_dns = name }
]

unfoldable pub bare_info : GeoResponse → NetworkInfo
bare_info resp = record {
  asn = resp.asn;
  network = resp.network;
  as_name = [];
  org = [];
  registry_country = [];
  abuse_email = [];
  rdap_handle = [];
  rpki_status = status_unknown;
  rpki_covering_roas = [];
  reverse_dns = [];
}

unfoldable pub disabled : Enrichers → Bool
disabled e = elim e.facts [
  | some _ ↦ false
  | none ↦ elim e.rpki [ some _ ↦ false | none ↦ elim e.ptr [ some _ ↦ false | none ↦ true ] ]
]

-- buildNetworkInfo
unfoldable pub build_network_info : NetText → Enrichers → Addr → GeoResponse → GeoResponse
build_network_info t e a resp = if disabled e then resp else record resp {
  network_info =
      some (with_ptr a (with_rpki t a (with_facts (bare_info resp) e.facts) e.rpki) e.ptr);
}
