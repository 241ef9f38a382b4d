-- ===== src/Geoip/Merge/Fields.antt =====
-- The administrative fields of the best location.
use mathlib.Core.Path.{subst}
use proto_ip.Prelude.{
  All, IsFirst, List, Option, [], ap, inl, inr, none, refl, some, sym, ◌∙◌, ◌∷◌, ◌≡◌, ◌≢◌, ◌⊎◌,
}
use proto_ip.Geoip.Merge.{
  authoritative_location, complete, merge, prefer, prefer_admin, with_admin, with_best, with_origin,
}
use proto_ip.Geoip.Merge.Admin.{complete-admin, prefer_admin_cases}
use proto_ip.Geoip.Merge.Base.{IsBase}
use proto_ip.Geoip.Merge.Best.{merge-cases}
use proto_ip.Golang.Text.{Text}
use proto_ip.Messages.Geo.{GeoLocation, GeoResponse, GeoSourceResult}

-- The value of a field: that of the authoritative location unless it is empty there.
abbrev FieldOf : Text → Text → Text → Type 0
FieldOf admin base t = ((admin ≢ []) × (t ≡ admin)) ⊎ ((admin ≡ []) × (t ≡ base))

prefer-FieldOf : (v t : Text) → FieldOf v t (prefer v t)
unfolding prefer
prefer-FieldOf [] t = inr (refl, refl)
prefer-FieldOf (c ∷ v) t = inl ((λ e. cc), refl)

-- The four fields of `loc` come from `admin` where it has them, and else from `base`.
pub record IsPreferred (admin base loc : GeoLocation) : Type 0 where
  pub country_of : FieldOf admin.country base.country loc.country
  pub region_of : FieldOf admin.region base.region loc.region
  pub city_of : FieldOf admin.city base.city loc.city
  pub postal_code_of : FieldOf admin.postal_code base.postal_code loc.postal_code

-- The four fields of `loc` are those of `base`.
pub record SameFields (base loc : GeoLocation) : Type 0 where
  pub country_of : loc.country ≡ base.country
  pub region_of : loc.region ≡ base.region
  pub city_of : loc.city ≡ base.city
  pub postal_code_of : loc.postal_code ≡ base.postal_code

with_admin-IsPreferred :
    (admin base loc : GeoLocation)
    → SameFields (with_admin admin base) loc
    → IsPreferred admin base loc
unfolding with_admin
with_admin-IsPreferred admin base loc s = record {
  country_of =
      subst (FieldOf admin.country base.country) (sym s.country_of)
        (prefer-FieldOf admin.country base.country);
  region_of =
      subst (FieldOf admin.region base.region) (sym s.region_of)
        (prefer-FieldOf admin.region base.region);
  city_of =
      subst (FieldOf admin.city base.city) (sym s.city_of) (prefer-FieldOf admin.city base.city);
  postal_code_of =
      subst (FieldOf admin.postal_code base.postal_code) (sym s.postal_code_of)
        (prefer-FieldOf admin.postal_code base.postal_code);
}

complete-SameFields :
    (rs : List (Option GeoSourceResult)) (m : GeoLocation) (b : GeoSourceResult)
    → SameFields m (complete rs m b).0
complete-SameFields rs m b =
    let (c, r, t, p) = complete-admin rs m b in
    record { country_of = c; region_of = r; city_of = t; postal_code_of = p }

-- Country, region, city and postal code of a best location: each is that of the first
-- authoritative result with a location where that is not empty, and else that of the base, which
-- is a finest result; with no such authoritative result all four are those of the base.
pub merge-fields :
    (rs : List (Option GeoSourceResult)) (loc : GeoLocation)
    → (merge rs).best ≡ some loc
    → (b : GeoSourceResult) × (base : IsBase rs b) × ((All (λ r. authoritative_location r ≡ none) rs
          × SameFields base.location loc)
        ⊎ ((admin : GeoLocation) × IsFirst authoritative_location admin rs
            × IsPreferred admin base.location loc))
unfolding with_origin with_best
merge-fields rs loc h = elim (merge-cases rs) [
  | inl (n, e) ↦ absurd (cc (h, ap (λ (p : GeoResponse). p.best) e))
  | inr (b, l, base, at, e) ↦ (b, base, cases b l base at e)
]
  where
    cases :
        (b : GeoSourceResult) (l : GeoLocation) (base : IsBase rs b)
        → b.location ≡ some l
        → merge rs ≡ with_best (with_origin rs) (complete rs (prefer_admin rs l) b)
        → (All (λ r. authoritative_location r ≡ none) rs × SameFields base.location loc)
          ⊎ ((admin : GeoLocation) × IsFirst authoritative_location admin rs
              × IsPreferred admin base.location loc)
    cases b l base at e =
        let l_eq : l ≡ base.location = cc (at, base.located) in
        let same : (complete rs (prefer_admin rs l) b).0 ≡ loc =
          cc (h, ap (λ (p : GeoResponse). p.best) e) in
        let fields : SameFields (prefer_admin rs l) loc =
          subst (SameFields (prefer_admin rs l)) same
            (complete-SameFields rs (prefer_admin rs l) b) in
        elim (prefer_admin_cases rs l) [
          | inl (n, q) ↦ inl (n, subst (λ (x : GeoLocation). SameFields x loc) (q ∙ l_eq) fields)
          | inr (admin, first, q) ↦ inr (
            admin,
            first,
            with_admin-IsPreferred admin base.location loc (
                subst (λ (x : GeoLocation). SameFields x loc) (q ∙ ap (with_admin admin) l_eq)
                  fields),
          )
        ]
