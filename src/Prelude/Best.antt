-- ===== src/Prelude/Best.antt =====
-- The loop that keeps the best match so far and replaces it only by a strictly larger one.
use Prim.Native.Nat.{ℕ, ◌<◌, ◌≤◌}
use mathlib.Core.Bool.{Bool, true, false, not, ◌&&◌}
use mathlib.Core.List.{List, [], ◌∷◌, ◌++◌}
use mathlib.Core.Logic.{◌⊎◌, inl, inr}
use mathlib.Core.Option.{Option, none, some}
use mathlib.Core.Path.{◌≡◌, refl, ap, ◌∙◌}
use native.Mathlib.Omega.{arith}
use proto_ip.Prelude.Lists.{All}
use proto_ip.Prelude.Tests.{Bool-cases, if◌then◌else◌, ltb}

module _ {ℓ} {A : Type ℓ} (inside : A → Bool) (size : A → ℕ) where
  -- `none` stands for the start, -1 in the source.
  unfoldable pub best_from : Option A → List A → Option A
  best_from best [] = best
  best_from best (r ∷ rs) =
      best_from
        (if not (inside r) then best else elim best [
          | none ↦ some r
          | some b ↦ if ltb (size b) (size r) then some r else some b
        ])
        rs

  abbrev pub NoLarger : ℕ → List A → Type 0
  NoLarger n = All (λ x. inside x ≡ true → size x ≤ n)

  abbrev pub Smaller : ℕ → List A → Type 0
  Smaller n = All (λ x. inside x ≡ true → size x < n)

  -- `r` matches, the matches before it are smaller, those behind no larger.
  pub record IsBest (xs : List A) (r : A) : Type ℓ where
    pub before : List A
    pub after : List A
    pub place : xs ≡ before ++ r ∷ after
    pub holds : inside r ≡ true
    pub earlier : Smaller (size r) before
    pub later : NoLarger (size r) after

  abbrev Keeps : A → List A → Type ℓ
  Keeps b rs = (best_from (some b) rs ≡ some b) × NoLarger (size b) rs

  abbrev Beats : A → List A → Type ℓ
  Beats b rs = (r : A) × (best_from (some b) rs ≡ some r) × IsBest rs r × (size b < size r)

  IsBest-skip :
      {rs : List A} {r : A} (x : A)
      → (inside x ≡ true → size x < size r)
      → IsBest rs r
      → IsBest (x ∷ rs) r
  IsBest-skip x lt h = record {
    before = x ∷ h.before;
    after = h.after;
    place = ap (λ (l : List A). x ∷ l) h.place;
    holds = h.holds;
    earlier = (lt, h.earlier);
    later = h.later;
  }

  best_from_step :
      (b r : A) (rs : List A)
      → best_from (some b) (r ∷ rs) ≡ (
          if inside r && ltb (size b) (size r)
          then best_from (some r) rs
          else best_from (some b) rs)
  unfolding best_from
  best_from_step b r rs = ground arith

  best_from-cases : (b : A) (rs : List A) → Keeps b rs ⊎ Beats b rs
  best_from-cases b [] = unfold best_from in inl (refl, tt)
  best_from-cases b (r ∷ rs) = elim (Bool-cases (inside r && ltb (size b) (size r))) [
    | inl larger ↦ elim (best_from-cases r rs) [
      | inl (e, h) ↦ inr (
        r,
        best_from_step b r rs ∙ (rw larger e),
        record {
          before = [];
          after = rs;
          place = refl;
          holds = ground arith;
          earlier = tt;
          later = h;
        },
        ground arith,
      )
      | inr (x, e, h, lt) ↦
          inr (x, best_from_step b r rs ∙ (rw larger e), IsBest-skip r (λ c. lt) h, ground arith)
    ]
    | inr smaller ↦ elim (best_from-cases b rs) [
      | inl (e, h) ↦ inl (best_from_step b r rs ∙ (rw smaller e), ((λ c. ground arith), h))
      | inr (x, e, h, lt) ↦
          inr (x, best_from_step b r rs ∙ (rw smaller e), IsBest-skip r (λ c. ground arith) h, lt)
    ]
  ]

  best_from_first :
      (r : A) (rs : List A)
      → best_from none (r ∷ rs) ≡ (if inside r then best_from (some r) rs else best_from none rs)
  unfolding best_from
  best_from_first r rs = ground arith

  abbrev Outcome : List A → Type ℓ
  Outcome xs =
      (All (λ x. inside x ≡ false) xs × (best_from none xs ≡ none))
      ⊎ ((r : A) × (best_from none xs ≡ some r) × IsBest xs r)

  found : (r : A) (rs : List A) → inside r ≡ true → Keeps r rs ⊎ Beats r rs → Outcome (r ∷ rs)
  found r rs yes_inside (inl k) = inr (
    r,
    best_from_first r rs ∙ (rw yes_inside k.0),
    record { before = []; after = rs; place = refl; holds = yes_inside; earlier = tt; later = k.1 },
  )
  found r rs yes_inside (inr k) =
      inr (k.0, best_from_first r rs ∙ (rw yes_inside k.1), IsBest-skip r (λ c. k.3) k.2)

  -- Either nothing matches and there is no best, or the best is the first of the largest matches.
  pub best_from-IsBest :
      (xs : List A)
      → (All (λ x. inside x ≡ false) xs × (best_from none xs ≡ none))
        ⊎ ((r : A) × (best_from none xs ≡ some r) × IsBest xs r)
  best_from-IsBest [] = unfold best_from in inl (tt, refl)
  best_from-IsBest (r ∷ rs) = elim (Bool-cases (inside r)) [
    | inr outside ↦ elim (best_from-IsBest rs) [
      | inl (h, e) ↦ inl ((outside, h), best_from_first r rs ∙ (rw outside e))
      | inr (x, e, h) ↦ inr (
        x,
        best_from_first r rs ∙ (rw outside e),
        IsBest-skip r (λ c. absurd (cc (c, outside))) h,
      )
    ]
    | inl yes_inside ↦ found r rs yes_inside (best_from-cases r rs)
  ]
