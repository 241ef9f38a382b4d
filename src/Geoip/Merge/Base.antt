-- ===== src/Geoip/Merge/Base.antt =====
-- The base of a merge.
use mathlib.Core.List.{Memᴰ}
use proto_ip.Prelude.{
  All, Bool-cases, List, Option, Option-cases, [], ap, arith, false, inl, inr, ltb, ltb-false→le,
  ltb→lt, none, refl, some, true, ℕ, ◌∷◌, ◌≡◌, ◌≤◌, ◌⊎◌,
}
use proto_ip.Geoip.Merge.{better, granularity_of, pick_base}
use proto_ip.Messages.Geo.{GeoLocation, GeoSourceResult, get_location, granularity_number}

-- No location among the results.
abbrev pub NoLocation : List (Option GeoSourceResult) → Type 0
NoLocation = All (λ r. get_location r ≡ none)

-- Every location is at most as fine as `n`.
abbrev pub AtMost : ℕ → List (Option GeoSourceResult) → Type 0
AtMost n =
    All (λ r.
      (loc : GeoLocation) → get_location r ≡ some loc → granularity_number loc.granularity ≤ n)

-- `base` stands among the results, has a location, and none is finer.
pub record IsBase (results : List (Option GeoSourceResult)) (base : GeoSourceResult) : Type 0 where
  pub listed : Memᴰ (some base) results
  pub location : GeoLocation
  pub located : base.location ≡ some location
  pub finest : AtMost (granularity_number location.granularity) results

-- What the loop has found from `base` on.
record Found (base : GeoSourceResult) (floor : ℕ) (rs : List (Option GeoSourceResult))
    (b : GeoSourceResult) : Type 0 where
  origin : (b ≡ base) ⊎ Memᴰ (some b) rs
  location : GeoLocation
  located : b.location ≡ some location
  at_least : floor ≤ granularity_number location.granularity
  finest : AtMost (granularity_number location.granularity) rs

Found-skip :
    {base b : GeoSourceResult} {n : ℕ} {rs : List (Option GeoSourceResult)}
    (r : Option GeoSourceResult)
    → get_location r ≡ none
    → Found base n rs b
    → Found base n (r ∷ rs) b
Found-skip r e f = record {
  origin = elim f.origin [ inl h ↦ inl h | inr m ↦ inr (Memᴰ.tail m) ];
  location = f.location;
  located = f.located;
  at_least = f.at_least;
  finest = (λ l h. cc, f.finest);
}

Found-keep :
    {base b : GeoSourceResult} {n : ℕ} {rs : List (Option GeoSourceResult)} (r : GeoSourceResult)
    (l : GeoLocation)
    → r.location ≡ some l
    → granularity_number l.granularity ≤ n
    → Found base n rs b
    → Found base n (some r ∷ rs) b
Found-keep {n} r l e le f = record {
  origin = elim f.origin [ inl h ↦ inl h | inr m ↦ inr (Memᴰ.tail m) ];
  location = f.location;
  located = f.located;
  at_least = f.at_least;
  finest = (λ k h. ground (arith, f.at_least), f.finest);
}

Found-replace :
    {base b : GeoSourceResult} {n : ℕ} {rs : List (Option GeoSourceResult)} (r : GeoSourceResult)
    (l : GeoLocation)
    → r.location ≡ some l
    → n ≤ granularity_number l.granularity
    → Found r (granularity_number l.granularity) rs b
    → Found base n (some r ∷ rs) b
Found-replace r l e le f = record {
  origin = elim f.origin [ inl h ↦ inr (Memᴰ.head (ap some h)) | inr m ↦ inr (Memᴰ.tail m) ];
  location = f.location;
  located = f.located;
  at_least = omega (arith, f.at_least);
  finest = (λ k h. ground (arith, f.at_least), f.finest);
}

pub granularity_of-eq :
    (r : GeoSourceResult) (l : GeoLocation)
    → r.location ≡ some l
    → granularity_of r ≡ granularity_number l.granularity
unfolding granularity_of
granularity_of-eq r l e = rw e

pub better_finer :
    (b r : GeoSourceResult) (l : GeoLocation)
    → r.location ≡ some l
    → ltb (granularity_of b) (granularity_of r) ≡ true
    → better (some b) r ≡ some r
unfolding better
better_finer b r l e h = ground arith

pub better_coarser :
    (b r : GeoSourceResult)
    → ltb (granularity_of b) (granularity_of r) ≡ false
    → better (some b) r ≡ some b
unfolding better
better_coarser b r h = ground arith

pick_base-Found :
    (base : GeoSourceResult) (loc : GeoLocation) (rs : List (Option GeoSourceResult))
    → base.location ≡ some loc
    → (b : GeoSourceResult) × (pick_base (some base) rs ≡ some b)
      × Found base (granularity_number loc.granularity) rs b
unfolding pick_base
pick_base-Found base loc [] e = (
  base,
  refl,
  record { origin = inl refl; location = loc; located = e; at_least = omega arith; finest = tt },
)
pick_base-Found base loc (none ∷ rs) e =
    let (b, p, f) = pick_base-Found base loc rs e in (b, p, Found-skip none refl f)
pick_base-Found base loc (some r ∷ rs) e = elim (Option-cases r.location) [
  | inl none_here ↦
      let (b, p, f) = pick_base-Found base loc rs e in
      (b, rw (none_here, better) p, Found-skip (some r) none_here f)
  | inr (l, here) ↦ elim (Bool-cases (ltb (granularity_of base) (granularity_of r))) [
    | inl finer ↦
        let (b, p, f) = pick_base-Found r l rs here in
        (
          b,
          rw (better_finer base r l here finer) p,
          Found-replace r l here
              (omega
                (arith, ltb→lt _ _ finer, granularity_of-eq base loc e, granularity_of-eq r l here))
              f,
        )
    | inr coarser ↦
        let (b, p, f) = pick_base-Found base loc rs e in
        (
          b,
          rw (better_coarser base r coarser) p,
          Found-keep r l here
              (omega (
                arith,
                ltb-false→le _ _ coarser,
                granularity_of-eq base loc e,
                granularity_of-eq r l here,
              ))
              f,
        )
  ]
]

pub better_first :
    (r : GeoSourceResult) (l : GeoLocation) → r.location ≡ some l → better none r ≡ some r
unfolding better
better_first r l e = rw e

-- Either no result has a location and the loop finds no base, or it finds one.
pub pick_base-IsBase :
    (rs : List (Option GeoSourceResult))
    → (NoLocation rs × (pick_base none rs ≡ none))
      ⊎ ((b : GeoSourceResult) × (pick_base none rs ≡ some b) × IsBase rs b)
unfolding pick_base
pick_base-IsBase [] = inl (tt, refl)
pick_base-IsBase (none ∷ rs) = elim (pick_base-IsBase rs) [
  | inl (h, e) ↦ inl ((refl, h), e)
  | inr (b, e, h) ↦ inr (b, e, skip none refl h)
]
  where
    skip :
        {b : GeoSourceResult} (r : Option GeoSourceResult)
        → get_location r ≡ none
        → IsBase rs b
        → IsBase (r ∷ rs) b
    skip r e h = record {
      listed = Memᴰ.tail h.listed;
      location = h.location;
      located = h.located;
      finest = (λ l k. cc, h.finest);
    }
pick_base-IsBase (some r ∷ rs) = elim (Option-cases r.location) [
  | inl none_here ↦ elim (pick_base-IsBase rs) [
    | inl (h, e) ↦ inl ((none_here, h), rw (none_here, better) e)
    | inr (b, e, h) ↦ inr (b, rw (none_here, better) e, skip none_here h)
  ]
  | inr (l, here) ↦
      let (b, p, f) = pick_base-Found r l rs here in
      inr (b, rw (better_first r l here) p, found l here f)
]
  where
    skip : {b : GeoSourceResult} → r.location ≡ none → IsBase rs b → IsBase (some r ∷ rs) b
    skip e h = record {
      listed = Memᴰ.tail h.listed;
      location = h.location;
      located = h.located;
      finest = (λ l k. cc, h.finest);
    }

    found :
        {b : GeoSourceResult} (l : GeoLocation)
        → r.location ≡ some l
        → Found r (granularity_number l.granularity) rs b
        → IsBase (some r ∷ rs) b
    found l e f = record {
      listed = elim f.origin [ inl h ↦ Memᴰ.head (ap some h) | inr m ↦ Memᴰ.tail m ];
      location = f.location;
      located = f.located;
      finest = (λ k h. ground (arith, f.at_least), f.finest);
    }
