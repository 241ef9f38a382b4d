-- ===== src/Tests/Sorting.antt =====
-- An insertion sort of ranges by start that keeps the contract of sort.Slice.
use mathlib.Core.List.{Permᴰ}
use mathlib.Core.Option.{some-injective}
use mathlib.Core.Path.{subst}
use proto_ip.Prelude.{
  All, All-mono, Bool-cases, List, [], arith, get_elem?, if◌then◌else◌, inl, inr, le→ltb-false,
  ltb-false→le, ltb→lt, refl, some, suc, sym, zero, ℕ, ◌<◌, ◌∙◌, ◌∷◌, ◌≡◌, ◌≤◌,
}
use proto_ip.Geoip.Iptoasn.{AsnRange}
use proto_ip.Geoip.Iptoasn.Loaded.{All-Listed, All-Permᴰ, IsSliceSort}
use proto_ip.Geoip.Iptoasn.Search.{IsPlain, key, less-key}
use proto_ip.Golang.Netip.{less}
use mathlib.Core.List.Permᴰ

unfoldable pub insert_range : AsnRange → List AsnRange → List AsnRange
insert_range r [] = r ∷ []
insert_range r (s ∷ ss) =
    let rest = insert_range r ss in if less s.start r.start then s ∷ rest else r ∷ s ∷ ss

unfoldable pub insertion_sort : List AsnRange → List AsnRange
insertion_sort [] = []
insertion_sort (r ∷ rs) = insert_range r (insertion_sort rs)

insert_range-Permᴰ : (r : AsnRange) (ss : List AsnRange) → Permᴰ (r ∷ ss) (insert_range r ss)
unfolding insert_range
insert_range-Permᴰ r [] = Permᴰ.refl (r ∷ [])
insert_range-Permᴰ r (s ∷ ss) = elim (Bool-cases (less s.start r.start)) [
  | inl behind ↦
      rw (behind, insert_range)
        (Permᴰ.trans (Permᴰ.swap refl refl) (Permᴰ.cons refl (insert_range-Permᴰ r ss)))
  | inr first ↦ rw (first, insert_range) (Permᴰ.refl (r ∷ s ∷ ss))
]

insertion_sort-Permᴰ : (rs : List AsnRange) → Permᴰ rs (insertion_sort rs)
unfolding insertion_sort
insertion_sort-Permᴰ [] = Permᴰ.nil
insertion_sort-Permᴰ (r ∷ rs) =
    Permᴰ.trans (Permᴰ.cons refl (insertion_sort-Permᴰ rs))
      (insert_range-Permᴰ r (insertion_sort rs))

-- No range starts before `k`.
abbrev From : ℕ → List AsnRange → Type 0
From k = All (λ (s : AsnRange). k ≤ key s.start)

abbrev Rising : List AsnRange → Type 0
Rising [] = Unit
Rising (r ∷ rs) = From (key r.start) rs × Rising rs

abbrev Plain : List AsnRange → Type 0
Plain = All (λ (x : AsnRange). IsPlain x.start)

insert_range-From :
    (k : ℕ) (r : AsnRange) (ss : List AsnRange)
    → k ≤ key r.start
    → From k ss
    → From k (insert_range r ss)
insert_range-From k r ss le h =
    All-Permᴰ (λ (s : AsnRange). k ≤ key s.start) (insert_range-Permᴰ r ss) (le, h)

insert_range-Rising :
    (r : AsnRange) (ss : List AsnRange)
    → IsPlain r.start
    → Plain ss
    → Rising ss
    → Rising (insert_range r ss)
unfolding insert_range
insert_range-Rising r [] pr ps h = (_, _)
insert_range-Rising r (s ∷ ss) pr ps h = elim (Bool-cases (less s.start r.start)) [
  | inl behind ↦
      let lt : key s.start < key r.start =
        ltb→lt _ _ (sym (less-key s.start r.start ps.0 pr) ∙ behind) in
      rw (behind, insert_range)
        (
          insert_range-From (key s.start) r ss (omega arith) h.0,
          insert_range-Rising r ss pr ps.1 h.1,
        )
  | inr first ↦
      let le : key r.start ≤ key s.start =
        ltb-false→le _ _ (sym (less-key s.start r.start ps.0 pr) ∙ first) in
      rw (first, insert_range) ((le, All-mono ss (λ x a. omega arith) h.0), h)
]

insertion_sort-Rising : (rs : List AsnRange) → Plain rs → Rising (insertion_sort rs)
unfolding insertion_sort
insertion_sort-Rising [] ps = _
insertion_sort-Rising (r ∷ rs) ps =
    insert_range-Rising r (insertion_sort rs) ps.0
      (All-Permᴰ (λ (x : AsnRange). IsPlain x.start) (insertion_sort-Permᴰ rs) ps.1)
      (insertion_sort-Rising rs ps.1)

Rising-Listed :
    (rs : List AsnRange)
    → Rising rs
    → (i j : ℕ) (r s : AsnRange) → i < j
    → get_elem? rs i ≡ some r
    → get_elem? rs j ≡ some s
    → key r.start ≤ key s.start
Rising-Listed [] h i j r s lt e f = cc
Rising-Listed (x ∷ rs) h i zero r s lt e f = absurd (omega arith)
Rising-Listed (x ∷ rs) h zero (suc j) r s lt e f =
    subst (λ (y : AsnRange). key y.start ≤ key s.start) (some-injective x r e)
      (All-Listed (λ (y : AsnRange). key x.start ≤ key y.start) rs h.0 j s f)
Rising-Listed (x ∷ rs) h (suc i) (suc j) r s lt e f = Rising-Listed rs h.1 i j r s (omega arith) e f

pub insertion_sort-IsSliceSort : IsSliceSort insertion_sort
insertion_sort-IsSliceSort = record {
  permutes = insertion_sort-Permᴰ;
  sorted = λ rs i j r s ps lt e f.
      let qs = All-Permᴰ (λ (x : AsnRange). IsPlain x.start) (insertion_sort-Permᴰ rs) ps in
      less-key s.start r.start
        (All-Listed (λ (x : AsnRange). IsPlain x.start) (insertion_sort rs) qs j s f)
        (All-Listed (λ (x : AsnRange). IsPlain x.start) (insertion_sort rs) qs i r e)
      ∙ le→ltb-false _ _
          (Rising-Listed (insertion_sort rs) (insertion_sort-Rising rs ps) i j r s lt e f);
}
