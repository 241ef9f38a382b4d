-- ===== src/Geoip/Merge/Origin.antt =====
-- The origin AS of a response.
use proto_ip.Prelude.{
  All, Bool-cases, IsFirst, IsFirst-mem, List, Option, Option-cases, [], arith, find?, here,
  if◌then◌else◌, inl, inr, list_eq, nat_eq, none, refl, some, there, ℕ, ◌==◌, ◌∙◌, ◌∷◌, ◌≡◌, ◌≢◌,
  ◌⊎◌,
}
use proto_ip.Geoip.Merge.{has_asn, merge, pick_base, with_base, with_origin}
use proto_ip.Golang.Text.{Text}
use proto_ip.Messages.{get}
use proto_ip.Messages.Geo.{GeoResponse, GeoSourceResult}

-- The AS number and the network of a result, if the number is not 0.
pub origin_of : Option GeoSourceResult → Option (ℕ × Text)
origin_of none = none
origin_of (some r) = if r.asn == 0 then none else some (r.asn, r.network)

find-origin :
    (rs : List (Option GeoSourceResult))
    → (All (λ r. origin_of r ≡ none) rs × (find? has_asn rs ≡ none))
      ⊎ ((r : GeoSourceResult) × IsFirst origin_of (r.asn, r.network) rs
          × (find? has_asn rs ≡ some (some r)))
unfolding find? has_asn origin_of
find-origin [] = inl (tt, refl)
find-origin (none ∷ rs) = elim (find-origin rs) [
  | inl (h, e) ↦ inl ((refl, h), e)
  | inr (r, h, e) ↦ inr (r, there refl h, e)
]
find-origin (some r ∷ rs) = elim (Bool-cases (r.asn == 0)) [
  | inr named ↦ inr (r, here (ground arith), ground arith)
  | inl unnamed ↦ elim (find-origin rs) [
    | inl (h, e) ↦ inl ((ground arith, h), ground arith)
    | inr (r', h, e) ↦ inr (r', there (ground arith) h, ground arith)
  ]
]

with_base-asn :
    (rs : List (Option GeoSourceResult)) (resp : GeoResponse) (b : Option GeoSourceResult)
    → ((with_base rs resp b).asn ≡ resp.asn)
      × ((with_base rs resp b).network ≡ resp.network)
      × ((with_base rs resp b).sources ≡ resp.sources)
unfolding with_base
with_base-asn rs resp none = (refl, refl, refl)
with_base-asn rs resp (some b) = elim (Option-cases b.location) [
  | inl e ↦ rw (e, with_base) (refl, refl, refl)
  | inr (l, e) ↦ rw (e, with_base) (refl, refl, refl)
]

with_origin_found :
    (rs : List (Option GeoSourceResult)) (r : GeoSourceResult)
    → find? has_asn rs ≡ some (some r)
    → ((with_origin rs).asn ≡ r.asn) × ((with_origin rs).network ≡ r.network)
unfolding with_origin
with_origin_found rs r e = (rw (e, get), rw (e, get))

with_origin-none :
    (rs : List (Option GeoSourceResult))
    → find? has_asn rs ≡ none
    → ((with_origin rs).asn ≡ 0) × ((with_origin rs).network ≡ [])
unfolding with_origin
with_origin-none rs e = (rw (e, get), rw (e, get))

origin_of-ne-zero :
    (r : Option GeoSourceResult) (n : ℕ) (t : Text) → origin_of r ≡ some (n, t) → n ≢ 0
unfolding origin_of
origin_of-ne-zero none n t e = cc
origin_of-ne-zero (some r) n t e = ground arith

merge-origin_eq :
    (rs : List (Option GeoSourceResult))
    → ((merge rs).asn ≡ (with_origin rs).asn)
      × ((merge rs).network ≡ (with_origin rs).network)
      × ((merge rs).sources ≡ rs)
unfolding merge
merge-origin_eq rs =
    let (p, q, s) = with_base-asn rs (with_origin rs) (pick_base none rs) in
    (p, q, s ∙ (unfold with_origin in refl))

-- The response carries the AS number and the network of the first result with a non-zero number,
-- both from that same result; it carries 0 and no network if no result has one.
pub merge-origin :
    (rs : List (Option GeoSourceResult))
    → (All (λ r. origin_of r ≡ none) rs × ((merge rs).asn ≡ 0) × ((merge rs).network ≡ []))
      ⊎ (IsFirst origin_of ((merge rs).asn, (merge rs).network) rs × ((merge rs).asn ≢ 0))
merge-origin rs = elim (find-origin rs) [
  | inl (h, e) ↦
      let (p, q) = with_origin-none rs e in
      inl (h, (merge-origin_eq rs).0 ∙ p, (merge-origin_eq rs).1 ∙ q)
  | inr (r, h, e) ↦
      let (p, q) = with_origin_found rs r e in
      let first : IsFirst origin_of ((merge rs).asn, (merge rs).network) rs =
        rw ((merge-origin_eq rs).0 ∙ p, (merge-origin_eq rs).1 ∙ q) h in
      let (x, m, at) = IsFirst-mem origin_of first in inr (first, origin_of-ne-zero x _ _ at)
]
