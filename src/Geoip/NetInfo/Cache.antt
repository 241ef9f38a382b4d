-- ===== src/Geoip/NetInfo/Cache.antt =====
-- The enricher and its cache.
use proto_ip.Prelude.{
  List, Option-cases, Result, beq_refl, err, inl, inr, list_eq, nat_eq, none, ok, refl, some, ℕ,
  ◌∙◌, ◌≡◌,
}
use proto_ip.Geoip.NetInfo.{AutnumFacts, autnum_facts_from_rdap, enrich, remember}
use proto_ip.Golang.Maps.{lookup, lookup-insert}
use proto_ip.Golang.Text.{Text}
use proto_ip.Messages.Rdap.{RdapAutnumResponse}

module _ {ℓ} {W : Type ℓ} (client : ℕ → W → Result Text RdapAutnumResponse × W) where
  -- A number in the cache is answered from it, and nothing changes.
  pub enrich_cached :
      (asn : ℕ) (f : AutnumFacts) (cache : List (ℕ × AutnumFacts)) (w : W)
      → lookup asn cache ≡ some f
      → enrich client asn cache w ≡ ((ok f, cache), w)
  unfolding enrich
  enrich_cached asn f cache w e = rw (e, enrich)

  enrich_asked :
      (asn : ℕ) (cache : List (ℕ × AutnumFacts)) (w : W)
      → lookup asn cache ≡ none
      → enrich client asn cache w ≡ (remember asn (client asn w).0 cache, (client asn w).1)
  unfolding enrich
  enrich_asked asn cache w e = rw (e, enrich)

  remembered :
      (asn : ℕ) (f : AutnumFacts) (r : Result Text RdapAutnumResponse)
      (cache : List (ℕ × AutnumFacts))
      → (remember asn r cache).0 ≡ ok f
      → lookup asn (remember asn r cache).1 ≡ some f
  unfolding remember
  remembered asn f (err e) cache h = cc
  remembered asn f (ok resp) cache h =
      lookup-insert asn asn (autnum_facts_from_rdap resp.autnum) cache ∙ (rw (beq_refl asn) (cc))

  -- Once an AS has been answered with `f`, the next request for it gives `f` again, in any later
  -- world, without a query and without a change to the cache.
  pub enrich-enrich :
      (asn : ℕ) (f : AutnumFacts) (cache : List (ℕ × AutnumFacts)) (w later : W)
      → (enrich client asn cache w).0.0 ≡ ok f
      → enrich client asn (enrich client asn cache w).0.1 later
        ≡ ((ok f, (enrich client asn cache w).0.1), later)
  enrich-enrich asn f cache w later h = elim (Option-cases (lookup asn cache)) [
    | inl fresh ↦
        let asked = enrich_asked asn cache w fresh in
        enrich_cached asn f (enrich client asn cache w).0.1 later
          (rw asked (remembered asn f (client asn w).0 cache (rw asked at h)))
    | inr (g, old) ↦
        let same = enrich_cached asn g cache w old in
        enrich_cached asn f (enrich client asn cache w).0.1 later
          (rw same (old ∙ cc (rw same at h)))
  ]

  -- A failed query leaves the cache as it was, so that the AS is asked for again.
  pub enrich_failed :
      (asn : ℕ) (e : Text) (cache : List (ℕ × AutnumFacts)) (w : W)
      → (enrich client asn cache w).0.0 ≡ err e
      → ((enrich client asn cache w).0.1 ≡ cache) × (lookup asn cache ≡ none)
  enrich_failed asn e cache w h = elim (Option-cases (lookup asn cache)) [
    | inl fresh ↦
        let asked = enrich_asked asn cache w fresh in
        (rw asked (kept (client asn w).0 (rw asked at h)), fresh)
    | inr (g, old) ↦ absurd (cc (rw (enrich_cached asn g cache w old) at h))
  ]
    where
      kept :
          (r : Result Text RdapAutnumResponse)
          → (remember asn r cache).0 ≡ err e
          → (remember asn r cache).1 ≡ cache
      kept (err x) p = unfold remember in refl
      kept (ok resp) p = absurd (unfold remember in cc)
