-- ===== src/Geoip/Merge/Ties.antt =====
-- Which of several results of the same granularity is the base.
use mathlib.Core.List.{Memᴰ}
use mathlib.Core.Path.{subst}
use proto_ip.Prelude.{
  All, List, Option, Option-cases, [], ap, arith, inl, inr, none, refl, some, sym, ℕ, ◌++◌, ◌<◌,
  ◌∙◌, ◌∷◌, ◌≡◌, ◌⊎◌,
}
use proto_ip.Geoip.Merge.{
  better, complete, merge, pick_base, prefer_admin, with_admin, with_base, with_best, with_origin,
}
use proto_ip.Geoip.Merge.Admin.{prefer_admin_cases}
use proto_ip.Geoip.Merge.Base.{
  AtMost, better_coarser, better_finer, better_first, granularity_of-eq, pick_base-IsBase,
}
use proto_ip.Geoip.Merge.Best.{complete_kept, prefer_admin-coordinates}
use proto_ip.Messages.Geo.{
  Float64, GeoLocation, GeoResponse, GeoSourceResult, get_location, granularity_number,
}

-- Every location is strictly coarser than `n`.
abbrev pub Coarser : ℕ → List (Option GeoSourceResult) → Type 0
Coarser n =
    All (λ r.
      (loc : GeoLocation) → get_location r ≡ some loc → granularity_number loc.granularity < n)

pick_base-append :
    (b : Option GeoSourceResult) (xs ys : List (Option GeoSourceResult))
    → pick_base b (xs ++ ys) ≡ pick_base (pick_base b xs) ys
unfolding pick_base
pick_base-append b [] ys = refl
pick_base-append b (none ∷ xs) ys = pick_base-append b xs ys
pick_base-append b (some r ∷ xs) ys = pick_base-append (better b r) xs ys

-- A base stays where nothing is finer.
pick_base_kept :
    (r : GeoSourceResult) (l : GeoLocation) (rs : List (Option GeoSourceResult))
    → r.location ≡ some l
    → AtMost (granularity_number l.granularity) rs
    → pick_base (some r) rs ≡ some r
unfolding pick_base
pick_base_kept r l [] e h = refl
pick_base_kept r l (none ∷ rs) e h = pick_base_kept r l rs e h.1
pick_base_kept r l (some x ∷ rs) e h =
    ap (λ b. pick_base b rs) (kept (Option-cases x.location)) ∙ pick_base_kept r l rs e h.1
  where
    kept :
        (x.location ≡ none) ⊎ ((k : GeoLocation) × (x.location ≡ some k))
        → better (some r) x ≡ some r
    kept (inl nothing) = unfold better in rw nothing refl
    kept (inr (k, located)) = better_coarser r x (
        rw (granularity_of-eq r l e, granularity_of-eq x k located) (ground (arith, h.0 k located)))

-- A base that is strictly coarser gives way.
better_replaced :
    (b : Option GeoSourceResult) (r : GeoSourceResult) (l : GeoLocation)
    → r.location ≡ some l
    → ((x : GeoSourceResult)
        → b ≡ some x
        → (k : GeoLocation) × (x.location ≡ some k)
          × (granularity_number k.granularity < granularity_number l.granularity))
    → better b r ≡ some r
better_replaced none r l e h = better_first r l e
better_replaced (some x) r l e h =
    let (k, located, lt) = h x refl in
    better_finer x r l e
      (rw (granularity_of-eq r l e, granularity_of-eq x k located) (ground (arith, lt)))

Coarser-Mem :
    (n : ℕ) {x : GeoSourceResult} {k : GeoLocation} (rs : List (Option GeoSourceResult))
    → Coarser n rs
    → Memᴰ (some x) rs
    → x.location ≡ some k
    → granularity_number k.granularity < n
Coarser-Mem n [] h m located = elim m [ ]
Coarser-Mem n {k = k} (r ∷ rs) h (Memᴰ.head e) located =
    h.0 k (subst (λ (y : Option GeoSourceResult). get_location y ≡ some k) e located)
Coarser-Mem n (r ∷ rs) h (Memᴰ.tail m) located = Coarser-Mem n rs h.1 m located

-- The first result of the finest granularity is the base.
pick_base_first :
    (before after : List (Option GeoSourceResult)) (r : GeoSourceResult) (l : GeoLocation)
    → r.location ≡ some l
    → Coarser (granularity_number l.granularity) before
    → AtMost (granularity_number l.granularity) after
    → pick_base none (before ++ some r ∷ after) ≡ some r
unfolding pick_base
pick_base_first before after r l e coarser most =
    pick_base-append none before (some r ∷ after)
    ∙ ap (λ b. pick_base b after) (better_replaced (pick_base none before) r l e below)
    ∙ pick_base_kept r l after e most
  where
    below :
        (x : GeoSourceResult)
        → pick_base none before ≡ some x
        → (k : GeoLocation) × (x.location ≡ some k)
          × (granularity_number k.granularity < granularity_number l.granularity)
    below x p = elim (pick_base-IsBase before) [
      | inl (h, q) ↦ absurd (cc (p, q))
      | inr (b, q, base) ↦
          let same : b ≡ x = cc (p, q) in
          (
            base.location,
            subst (λ (y : GeoSourceResult). y.location ≡ some base.location) same base.located,
            Coarser-Mem _ before coarser base.listed base.located,
          )
    ]

prefer_admin-longitude :
    (rs : List (Option GeoSourceResult)) (m : GeoLocation)
    → (prefer_admin rs m).longitude ≡ m.longitude
unfolding with_admin
prefer_admin-longitude rs m = elim (prefer_admin_cases rs m) [
  | inl (h, e) ↦ ap (λ (l : GeoLocation). l.longitude) e
  | inr (loc, h, e) ↦ ap (λ (l : GeoLocation). l.longitude) e
]

-- The merge is credited to the result and has its coordinates.
pub record IsWinner (r : GeoSourceResult) (l : GeoLocation) (resp : GeoResponse) : Type 0 where
  pub source_of : resp.best_source ≡ r.source
  pub confidence_of : resp.confidence ≡ r.confidence
  pub location : GeoLocation
  pub best_of : resp.best ≡ some location
  pub latitude_of : location.latitude ≡ l.latitude
  pub longitude_of : location.longitude ≡ l.longitude
  pub granularity_of : location.granularity ≡ l.granularity

-- Granularity ties are won by the first result: a result with coordinates that is strictly finer
-- than all before it and at least as fine as all behind it is the one that the response is credited
-- to, with its coordinates, granularity and confidence.
pub merge-IsWinner :
    (before after : List (Option GeoSourceResult)) (r : GeoSourceResult) (l : GeoLocation)
    (v : Float64)
    → r.location ≡ some l
    → l.latitude ≡ some v
    → Coarser (granularity_number l.granularity) before
    → AtMost (granularity_number l.granularity) after
    → IsWinner r l (merge (before ++ some r ∷ after))
unfolding merge
merge-IsWinner before after r l v e lat coarser most =
    let rs = before ++ some r ∷ after in
    let kept = prefer_admin-coordinates rs l in
    let made : merge rs ≡ with_best (with_origin rs) (prefer_admin rs l, r) =
      rw (pick_base_first before after r l e coarser most)
        (based rs (complete_kept rs (prefer_admin rs l) r v (kept.0 ∙ lat))) in
    subst (IsWinner r l) (sym made) (
      unfold with_best in
      record {
        source_of = refl;
        confidence_of = refl;
        location = prefer_admin rs l;
        best_of = refl;
        latitude_of = kept.0;
        longitude_of = prefer_admin-longitude rs l;
        granularity_of = kept.1;
      })
  where
    based :
        (rs : List (Option GeoSourceResult))
        → complete rs (prefer_admin rs l) r ≡ (prefer_admin rs l, r)
        → with_base rs (with_origin rs) (some r) ≡ with_best (with_origin rs) (prefer_admin rs l, r)
    based rs c = unfold with_base in rw e (ap (with_best (with_origin rs)) c)
