-- ===== src/Geoip/Merge/Best.antt =====
-- When there is a best location, how fine it is, and which result the answer is credited to.
use mathlib.Core.List.{Memᴰ}
use mathlib.Core.Path.{subst}
use proto_ip.Prelude.{
  All, List, Option, Option-cases, [], ap, arith, inl, inr, none, refl, some, sym, ◌∙◌, ◌∷◌, ◌≡◌,
  ◌≤◌, ◌⊎◌,
}
use proto_ip.Geoip.Merge.{
  complete, fill_coordinates, latitude_of, merge, prefer_admin, with_admin, with_base, with_best,
  with_coordinates, with_origin,
}
use proto_ip.Geoip.Merge.Admin.{prefer_admin_cases}
use proto_ip.Geoip.Merge.Base.{AtMost, IsBase, NoLocation, pick_base-IsBase}
use proto_ip.Messages.Geo.{
  Float64, GeoGranularity, GeoLocation, GeoResponse, GeoSourceResult, confidence_unknown,
  coordinates, get_longitude, granularity_number, granularity_unknown, source_unknown,
}

-- No latitude among the results.
abbrev pub NoLatitude : List (Option GeoSourceResult) → Type 0
NoLatitude = All (λ r. latitude_of r ≡ none)

-- How a completed location came about: the base's coordinates stay, or those of the first result
-- that has any are filled in, or there are none.
data Completed (rs : List (Option GeoSourceResult)) (m : GeoLocation) (base : GeoSourceResult)
    : GeoLocation → GeoSourceResult → Type 0 where
  kept : {v : Float64} → m.latitude ≡ some v → Completed rs m base m base
  filled :
      {r : GeoSourceResult} {loc : GeoLocation} {v : Float64}
      → Memᴰ (some r) rs
      → r.location ≡ some loc
      → loc.latitude ≡ some v
      → Completed rs m base (with_coordinates loc m) r
  missing : m.latitude ≡ none → NoLatitude rs → Completed rs m base m base

fill_skip :
    (r : GeoSourceResult) (rs : List (Option GeoSourceResult)) (m : GeoLocation)
    (base : GeoSourceResult)
    → latitude_of (some r) ≡ none
    → fill_coordinates (some r ∷ rs) m base ≡ fill_coordinates rs m base
unfolding fill_coordinates latitude_of
fill_skip r rs m base e = ground arith

fill_found :
    (r : GeoSourceResult) (rs : List (Option GeoSourceResult)) (m loc : GeoLocation)
    (base : GeoSourceResult) (v : Float64)
    → r.location ≡ some loc
    → loc.latitude ≡ some v
    → fill_coordinates (some r ∷ rs) m base ≡ (with_coordinates loc m, r)
unfolding fill_coordinates
fill_found r rs m loc base v e p = ground arith

-- A result with a latitude has a location with it.
latitude_of-location :
    (r : GeoSourceResult) (v : Float64)
    → latitude_of (some r) ≡ some v
    → (loc : GeoLocation) × (r.location ≡ some loc) × (loc.latitude ≡ some v)
unfolding latitude_of
latitude_of-location r v e = elim (Option-cases r.location) [
  | inl p ↦ absurd (ground arith)
  | inr (loc, p) ↦ (loc, p, ground arith)
]

Completed-skip :
    {rs : List (Option GeoSourceResult)} {m l : GeoLocation} {base b : GeoSourceResult}
    (r : Option GeoSourceResult)
    → latitude_of r ≡ none
    → Completed rs m base l b
    → Completed (r ∷ rs) m base l b
Completed-skip r n (kept p) = kept p
Completed-skip r n (filled i p q) = filled (Memᴰ.tail i) p q
Completed-skip r n (missing p h) = missing p (n, h)

-- What the filling loop gives.
fill-Completed :
    (rs : List (Option GeoSourceResult)) (m : GeoLocation) (base : GeoSourceResult)
    → m.latitude ≡ none
    → Completed rs m base (fill_coordinates rs m base).0 (fill_coordinates rs m base).1
unfolding fill_coordinates latitude_of
fill-Completed [] m base e = missing e tt
fill-Completed (none ∷ rs) m base e = Completed-skip none refl (fill-Completed rs m base e)
fill-Completed (some r ∷ rs) m base e = elim (Option-cases (latitude_of (some r))) [
  | inl n ↦ rw (fill_skip r rs m base n) (Completed-skip (some r) n (fill-Completed rs m base e))
  | inr (v, n) ↦
      let (loc, p, q) = latitude_of-location r v n in
      rw (fill_found r rs m loc base v p q) (filled (Memᴰ.head refl) p q)
]

complete_missing :
    (rs : List (Option GeoSourceResult)) (m : GeoLocation) (base : GeoSourceResult)
    → m.latitude ≡ none
    → complete rs m base ≡ fill_coordinates rs m base
unfolding complete
complete_missing rs m base e = ground arith

pub complete_kept :
    (rs : List (Option GeoSourceResult)) (m : GeoLocation) (base : GeoSourceResult) (v : Float64)
    → m.latitude ≡ some v
    → complete rs m base ≡ (m, base)
unfolding complete
complete_kept rs m base v e = ground arith

complete-Completed :
    (rs : List (Option GeoSourceResult)) (m : GeoLocation) (base : GeoSourceResult)
    → Completed rs m base (complete rs m base).0 (complete rs m base).1
complete-Completed rs m base = elim (Option-cases m.latitude) [
  | inl e ↦ rw (complete_missing rs m base e) (fill-Completed rs m base e)
  | inr (v, e) ↦ rw (complete_kept rs m base v e) (kept e)
]

-- The two ways out of `merge`.
pub merge-cases :
    (rs : List (Option GeoSourceResult))
    → (NoLocation rs × (merge rs ≡ with_origin rs))
      ⊎ ((b : GeoSourceResult) × (l : GeoLocation) × IsBase rs b
          × (b.location ≡ some l)
          × (merge rs ≡ with_best (with_origin rs) (complete rs (prefer_admin rs l) b)))
unfolding merge
merge-cases rs = elim (pick_base-IsBase rs) [
  | inl (h, e) ↦ inl (h, rw e)
  | inr (b, e, h) ↦
      inr (b, h.location, h, h.located, rw e (with_base_located b h.location h.located))
]
  where
    with_base_located :
        (b : GeoSourceResult) (l : GeoLocation)
        → b.location ≡ some l
        → with_base rs (with_origin rs) (some b)
          ≡ with_best (with_origin rs) (complete rs (prefer_admin rs l) b)
    with_base_located b l e = unfold with_base in ground arith

pub prefer_admin-coordinates :
    (rs : List (Option GeoSourceResult)) (m : GeoLocation)
    → ((prefer_admin rs m).latitude ≡ m.latitude)
      × ((prefer_admin rs m).granularity ≡ m.granularity)
      × ((prefer_admin rs m).longitude ≡ m.longitude)
unfolding with_admin
prefer_admin-coordinates rs m = elim (prefer_admin_cases rs m) [
  | inl (h, e) ↦ (
    ap (λ (l : GeoLocation). l.latitude) e,
    ap (λ (l : GeoLocation). l.granularity) e,
    ap (λ (l : GeoLocation). l.longitude) e,
  )
  | inr (loc, h, e) ↦ (
    ap (λ (l : GeoLocation). l.latitude) e,
    ap (λ (l : GeoLocation). l.granularity) e,
    ap (λ (l : GeoLocation). l.longitude) e,
  )
]

-- What `merge` promises of the best location `loc`, credited to `r`.
pub record IsCredited (rs : List (Option GeoSourceResult)) (loc : GeoLocation) (r : GeoSourceResult)
    : Type 0 where
  pub listed : Memᴰ (some r) rs
  pub place : GeoLocation
  pub located : r.location ≡ some place
  -- the coordinates are those of the credited result; a longitude that is not set reads as 0
  pub latitude : loc.latitude ≡ place.latitude
  pub longitude : get_longitude loc ≡ get_longitude place
  pub finest : AtMost (granularity_number loc.granularity) rs
  -- none are left out
  pub complete : loc.latitude ≡ none → NoLatitude rs

number-le-coordinates : (g : GeoGranularity) → granularity_number g ≤ granularity_number coordinates
unfolding granularity_number
number-le-coordinates granularity_unknown = omega arith
number-le-coordinates _ = omega arith

pub AtMost-coordinates :
    (rs : List (Option GeoSourceResult)) → AtMost (granularity_number coordinates) rs
AtMost-coordinates [] = tt
AtMost-coordinates (r ∷ rs) = (λ l e. number-le-coordinates l.granularity, AtMost-coordinates rs)

IsCredited-base :
    {rs : List (Option GeoSourceResult)} {b : GeoSourceResult} {m : GeoLocation}
    → (base : IsBase rs b) → m.latitude ≡ base.location.latitude
    → m.granularity ≡ base.location.granularity
    → m.longitude ≡ base.location.longitude
    → (m.latitude ≡ none → NoLatitude rs)
    → IsCredited rs m b
IsCredited-base {rs} {b} {m} base lat gran long none_left = record {
  listed = base.listed;
  place = base.location;
  located = base.located;
  latitude = lat;
  longitude = rw long refl;
  finest = subst (λ (g : GeoGranularity). AtMost (granularity_number g) rs) (sym gran) base.finest;
  complete = none_left;
}

Completed-IsCredited :
    {rs : List (Option GeoSourceResult)} {b r : GeoSourceResult} {m l : GeoLocation}
    → (base : IsBase rs b) → m.latitude ≡ base.location.latitude
    → m.granularity ≡ base.location.granularity
    → m.longitude ≡ base.location.longitude
    → Completed rs m b l r
    → IsCredited rs l r
unfolding with_coordinates
Completed-IsCredited base lat gran long (kept p) =
    IsCredited-base base lat gran long (λ e. absurd (cc (e, p)))
Completed-IsCredited base lat gran long (missing p h) = IsCredited-base base lat gran long (λ _. h)
Completed-IsCredited {rs} base lat gran long (filled {r = r} {loc = loc} i p q) = record {
  listed = i;
  place = loc;
  located = p;
  latitude = ground arith;
  longitude = refl;
  finest = AtMost-coordinates rs;
  complete = λ e. absurd (ground arith);
}

-- Either no result has a location, and the response has no best location, an unknown source and an
-- unknown confidence. Or it has one: as fine as any location among the results, with the latitude
-- and the longitude of the result whose source and confidence it carries, a longitude that is not
-- set reading as 0, and without a latitude only if no result has one.
pub merge-best :
    (rs : List (Option GeoSourceResult))
    → (NoLocation rs
        × ((merge rs).best ≡ none)
        × ((merge rs).best_source ≡ source_unknown)
        × ((merge rs).confidence ≡ confidence_unknown))
      ⊎ ((loc : GeoLocation) × (r : GeoSourceResult) × IsCredited rs loc r
          × ((merge rs).best ≡ some loc)
          × ((merge rs).best_source ≡ r.source)
          × ((merge rs).confidence ≡ r.confidence))
unfolding with_origin with_best
merge-best rs = elim (merge-cases rs) [
  | inl (h, e) ↦ inl (
    h,
    ap (λ (p : GeoResponse). p.best) e,
    ap (λ (p : GeoResponse). p.best_source) e,
    ap (λ (p : GeoResponse). p.confidence) e,
  )
  | inr (b, l, base, at, e) ↦
      let m = prefer_admin rs l in
      let same : l ≡ base.location = cc (at, base.located) in
      inr (
        (complete rs m b).0,
        (complete rs m b).1,
        Completed-IsCredited base
            ((prefer_admin-coordinates rs l).0 ∙ ap (λ (p : GeoLocation). p.latitude) same)
            ((prefer_admin-coordinates rs l).1 ∙ ap (λ (p : GeoLocation). p.granularity) same)
            ((prefer_admin-coordinates rs l).2 ∙ ap (λ (p : GeoLocation). p.longitude) same)
            (complete-Completed rs m b),
        ap (λ (p : GeoResponse). p.best) e,
        ap (λ (p : GeoResponse). p.best_source) e,
        ap (λ (p : GeoResponse). p.confidence) e,
      )
]
