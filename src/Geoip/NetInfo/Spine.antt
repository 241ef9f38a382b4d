-- ===== src/Geoip/NetInfo/Spine.antt =====
-- The network part of a response, field by field.
use proto_ip.Prelude.{
  Option, Option-cases, Bool-cases, Result, [], arith, beq→eq, beq-false→ne, err, inl, inr, list_eq,
  nat_eq, none, ok, refl, some, ℕ, ◌==◌, ◌∙◌, ◌≡◌, ◌≢◌, ◌⊎◌,
}
use proto_ip.Geoip.NetInfo.{
  AutnumFacts, Enrichers, bare_info, build_network_info, disabled, with_facts, with_ptr, with_rpki,
}
use proto_ip.Geoip.Rpki.{RpkiSet, validate, vrps_to_proto}
use proto_ip.Golang.NetText.{NetText}
use proto_ip.Golang.Netip.{Addr}
use proto_ip.Golang.Text.{Text}
use proto_ip.Messages.Geo.{GeoResponse, NetworkInfo, status_unknown}

-- Where the registration comes from: the registry's answer for an AS that is not 0; or there is no
-- registry, no AS, or an error, and every field is empty.
pub data IsRegistered (source : Option (ℕ → Result Text AutnumFacts)) (asn : ℕ) (ni : NetworkInfo)
    : Type 0 where
  registered :
      (q : ℕ → Result Text AutnumFacts) (f : AutnumFacts)
      → source ≡ some q
      → asn ≢ 0
      → q asn ≡ ok f
      → ni.as_name ≡ f.name
      → ni.org ≡ f.org
      → ni.registry_country ≡ f.country
      → ni.abuse_email ≡ f.abuse
      → ni.rdap_handle ≡ f.handle
      → IsRegistered source asn ni
  unregistered :
      (source ≡ none)
        ⊎ (asn ≡ 0)
        ⊎ ((q : ℕ → Result Text AutnumFacts) × (e : Text) × (source ≡ some q) × (q asn ≡ err e))
      → ni.as_name ≡ []
      → ni.org ≡ []
      → ni.registry_country ≡ []
      → ni.abuse_email ≡ []
      → ni.rdap_handle ≡ []
      → IsRegistered source asn ni

-- Where the reverse name comes from.
pub data IsNamed (source : Option (Addr → Result Text Text)) (a : Addr) (name : Text) : Type 0 where
  named : (q : Addr → Result Text Text) → source ≡ some q → q a ≡ ok name → IsNamed source a name
  unnamed :
      (source ≡ none)
        ⊎ ((q : Addr → Result Text Text) × (e : Text) × (source ≡ some q) × (q a ≡ err e))
      → name ≡ []
      → IsNamed source a name

-- What the three enrichers contribute to the network part of a response.
pub record IsInfo (t : NetText) (en : Enrichers) (a : Addr) (resp : GeoResponse) (ni : NetworkInfo)
    : Type 0 where
  pub asn_of : ni.asn ≡ resp.asn
  pub network_of : ni.network ≡ resp.network
  pub registration : IsRegistered en.facts resp.asn ni
  pub verdict :
      ((s : RpkiSet) × (en.rpki ≡ some s)
        × (ni.rpki_status ≡ (validate s a resp.asn).0)
        × (ni.rpki_covering_roas ≡ vrps_to_proto t (validate s a resp.asn).1))
      ⊎ ((en.rpki ≡ none) × (ni.rpki_status ≡ status_unknown) × (ni.rpki_covering_roas ≡ []))
  pub name : IsNamed en.ptr a ni.reverse_dns

-- One of the enrichers is there.
abbrev pub IsEnabled : Enrichers → Type 0
IsEnabled en = (en.facts ≢ none) ⊎ (en.rpki ≢ none) ⊎ (en.ptr ≢ none)

Result-cases :
    {A : Type 0} (r : Result Text A) → ((e : Text) × (r ≡ err e)) ⊎ ((x : A) × (r ≡ ok x))
Result-cases (err e) = inl (e, refl)
Result-cases (ok x) = inr (x, refl)

with_facts-IsRegistered :
    (ni : NetworkInfo) (source : Option (ℕ → Result Text AutnumFacts))
    → ni.as_name ≡ []
    → ni.org ≡ []
    → ni.registry_country ≡ []
    → ni.abuse_email ≡ []
    → ni.rdap_handle ≡ []
    → IsRegistered source ni.asn (with_facts ni source)
unfolding with_facts
with_facts-IsRegistered ni none p1 p2 p3 p4 p5 = IsRegistered.unregistered (inl refl) p1 p2 p3 p4 p5
with_facts-IsRegistered ni (some q) p1 p2 p3 p4 p5 = elim (Bool-cases (ni.asn == 0)) [
  | inl z ↦
      rw (z, with_facts) (IsRegistered.unregistered (inr (inl (beq→eq ni.asn 0 z))) p1 p2 p3 p4 p5)
  | inr nz ↦ elim (Result-cases (q ni.asn)) [
    | inl (e, h) ↦
        rw (nz, h, with_facts)
          (IsRegistered.unregistered (inr (inr (q, e, refl, h))) p1 p2 p3 p4 p5)
    | inr (f, h) ↦
        rw (nz, h, with_facts)
          (IsRegistered.registered q f refl (beq-false→ne ni.asn 0 nz) h refl refl refl refl refl)
  ]
]

with_ptr-IsNamed :
    (a : Addr) (ni : NetworkInfo) (source : Option (Addr → Result Text Text))
    → ni.reverse_dns ≡ []
    → IsNamed source a (with_ptr a ni source).reverse_dns
unfolding with_ptr
with_ptr-IsNamed a ni none e = IsNamed.unnamed (inl refl) e
with_ptr-IsNamed a ni (some q) e = elim (Result-cases (q a)) [
  | inl (x, h) ↦ rw (h, with_ptr) (IsNamed.unnamed (inr (q, x, refl, h)) e)
  | inr (name, h) ↦ IsNamed.named q refl (ground arith)
]

-- The registration is that of the five fields.
same_registration :
    {source : Option (ℕ → Result Text AutnumFacts)} {asn : ℕ} {ni mi : NetworkInfo}
    → mi.as_name ≡ ni.as_name
    → mi.org ≡ ni.org
    → mi.registry_country ≡ ni.registry_country
    → mi.abuse_email ≡ ni.abuse_email
    → mi.rdap_handle ≡ ni.rdap_handle
    → IsRegistered source asn ni
    → IsRegistered source asn mi
same_registration s1 s2 s3 s4 s5 (IsRegistered.registered q f h ne e p1 p2 p3 p4 p5) =
    IsRegistered.registered q f h ne e (s1 ∙ p1) (s2 ∙ p2) (s3 ∙ p3) (s4 ∙ p4) (s5 ∙ p5)
same_registration s1 s2 s3 s4 s5 (IsRegistered.unregistered h p1 p2 p3 p4 p5) =
    IsRegistered.unregistered h (s1 ∙ p1) (s2 ∙ p2) (s3 ∙ p3) (s4 ∙ p4) (s5 ∙ p5)

with_facts-asn :
    (ni : NetworkInfo) (source : Option (ℕ → Result Text AutnumFacts))
    → ((with_facts ni source).asn ≡ ni.asn)
      × ((with_facts ni source).network ≡ ni.network)
      × ((with_facts ni source).rpki_status ≡ ni.rpki_status)
      × ((with_facts ni source).rpki_covering_roas ≡ ni.rpki_covering_roas)
      × ((with_facts ni source).reverse_dns ≡ ni.reverse_dns)
unfolding with_facts
with_facts-asn ni none = (refl, refl, refl, refl, refl)
with_facts-asn ni (some q) = ground arith

module _ (t : NetText) (en : Enrichers) (a : Addr) (resp : GeoResponse) where
  spine : NetworkInfo
  spine = with_ptr a (with_rpki t a (with_facts (bare_info resp) en.facts) en.rpki) en.ptr

  spine-IsRegistered : IsRegistered en.facts resp.asn spine
  unfolding spine with_ptr with_rpki bare_info
  spine-IsRegistered =
      same_registration (ground arith) (ground arith) (ground arith) (ground arith) (ground arith)
        (with_facts-IsRegistered (bare_info resp) en.facts refl refl refl refl refl)

  spine-IsNamed : IsNamed en.ptr a spine.reverse_dns
  unfolding spine with_rpki with_facts bare_info
  spine-IsNamed = with_ptr-IsNamed a _ en.ptr (ground arith)

  spine_verdict :
      ((s : RpkiSet) × (en.rpki ≡ some s)
        × (spine.rpki_status ≡ (validate s a resp.asn).0)
        × (spine.rpki_covering_roas ≡ vrps_to_proto t (validate s a resp.asn).1))
      ⊎ ((en.rpki ≡ none) × (spine.rpki_status ≡ status_unknown) × (spine.rpki_covering_roas ≡ []))
  unfolding spine with_rpki with_ptr bare_info
  spine_verdict =
      let kept = with_facts-asn (bare_info resp) en.facts in
      elim (Option-cases en.rpki) [
        | inl e ↦ inr (e, ground arith, ground arith)
        | inr (s, e) ↦ inl (s, e, ground arith, ground arith)
      ]

  spine-IsInfo : IsInfo t en a resp spine
  unfolding spine with_rpki with_ptr bare_info
  spine-IsInfo =
      let kept = with_facts-asn (bare_info resp) en.facts in
      record {
        asn_of = ground arith;
        network_of = ground arith;
        registration = spine-IsRegistered;
        verdict = spine_verdict;
        name = spine-IsNamed;
      }

  -- Either there is no enricher, and the response stays as it was. Or there is one, and the response
  -- gets a network part and stays as it was otherwise: the part has the AS number and network of the
  -- response; the registration that the registry gave for an AS that is not 0, and none if there is
  -- no registry, no AS or an error; the RPKI verdict on the address and the AS if there are VRPs, and
  -- else an unknown status; the reverse name that the resolver gave, and none without a resolver or
  -- with an error.
  pub build_network_info-IsInfo :
      ((en.facts ≡ none)
        × (en.rpki ≡ none)
        × (en.ptr ≡ none)
        × (build_network_info t en a resp ≡ resp))
      ⊎ (IsEnabled en
          × (ni : NetworkInfo) × (build_network_info t en a resp
              ≡ record resp { network_info = some ni })
          × IsInfo t en a resp ni)
  unfolding build_network_info spine disabled
  build_network_info-IsInfo = elim (Option-cases en.facts) [
    | inr (f, e) ↦ inr (inl (λ z. cc (z, e)), spine, rw (e, disabled) refl, spine-IsInfo)
    | inl no_facts ↦ elim (Option-cases en.rpki) [
      | inr (s, e) ↦ inr (inr (inl (λ z. cc (z, e))), spine, ground arith, spine-IsInfo)
      | inl no_rpki ↦ elim (Option-cases en.ptr) [
        | inr (q, e) ↦ inr (inr (inr (λ z. cc (z, e))), spine, ground arith, spine-IsInfo)
        | inl no_ptr ↦ inl (no_facts, no_rpki, no_ptr, ground arith)
      ]
    ]
  ]
