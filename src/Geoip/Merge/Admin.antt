-- ===== src/Geoip/Merge/Admin.antt =====
-- The fields that an authoritative result decides, and the origin AS.
use proto_ip.Prelude.{
  All, IsFirst, List, Option, Option-cases, [], arith, here, inl, inr, none, refl, some, there, ◌∷◌,
  ◌≡◌, ◌⊎◌,
}
use proto_ip.Geoip.Merge.{
  authoritative_location, complete, fill_coordinates, prefer_admin, with_admin, with_coordinates,
}
use proto_ip.Messages.Geo.{GeoLocation, GeoSourceResult}

pub prefer_admin_cases :
    (rs : List (Option GeoSourceResult)) (m : GeoLocation)
    → (All (λ r. authoritative_location r ≡ none) rs × (prefer_admin rs m ≡ m))
      ⊎ ((loc : GeoLocation) × IsFirst authoritative_location loc rs
          × (prefer_admin rs m ≡ with_admin loc m))
unfolding prefer_admin
prefer_admin_cases [] m = inl (tt, refl)
prefer_admin_cases (r ∷ rs) m = elim (Option-cases (authoritative_location r)) [
  | inr (loc, admin) ↦ inr (loc, here admin, rw (admin, prefer_admin))
  | inl no_admin ↦ elim (prefer_admin_cases rs m) [
    | inl (h, e) ↦ inl ((no_admin, h), rw (no_admin, prefer_admin) e)
    | inr (loc, h, e) ↦ inr (loc, there no_admin h, rw (no_admin, prefer_admin) e)
  ]
]

-- The fields of `m` other than those that a geofeed decides.
fill_coordinates-admin :
    (rs : List (Option GeoSourceResult)) (m : GeoLocation) (b : GeoSourceResult)
    → ((fill_coordinates rs m b).0.country ≡ m.country)
      × ((fill_coordinates rs m b).0.region ≡ m.region)
      × ((fill_coordinates rs m b).0.city ≡ m.city)
      × ((fill_coordinates rs m b).0.postal_code ≡ m.postal_code)
unfolding fill_coordinates with_coordinates
fill_coordinates-admin [] m b = (refl, refl, refl, refl)
fill_coordinates-admin (none ∷ rs) m b = fill_coordinates-admin rs m b
fill_coordinates-admin (some r ∷ rs) m b = ground (arith, fill_coordinates-admin rs m b)

pub complete-admin :
    (rs : List (Option GeoSourceResult)) (m : GeoLocation) (b : GeoSourceResult)
    → ((complete rs m b).0.country ≡ m.country)
      × ((complete rs m b).0.region ≡ m.region)
      × ((complete rs m b).0.city ≡ m.city)
      × ((complete rs m b).0.postal_code ≡ m.postal_code)
unfolding complete
complete-admin rs m b = ground (arith, fill_coordinates-admin rs m b)
