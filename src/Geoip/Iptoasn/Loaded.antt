-- ===== src/Geoip/Iptoasn/Loaded.antt =====
-- The search over the table that the loader makes of a file.
use mathlib.Core.List.{Permᴰ}
use mathlib.Core.Option.{some-injective}
use mathlib.Core.Path.{subst}
use proto_ip.Prelude.{
  All, All-mono, List, [], ap, arith, false, get_elem?, inl, inr, ltb-false→le, ltb→lt, none, ok,
  refl, some, suc, sym, true, zero, ℕ, ◌<◌, ◌↔◌, ◌∙◌, ◌∷◌, ◌≡◌, ◌≤◌, ◌⊎◌,
}
use proto_ip.Geoip.Iptoasn.{
  AsnRange, in_range, iptoasn_line_limit, parse_iptoasn, parse_ranges, search_asn_range,
}
use proto_ip.Geoip.Iptoasn.Search.{IsPlain, IsTable, key, less-key, search_asn_range_iff}
use proto_ip.Golang.NetText.{NetText}
use proto_ip.Golang.Netip.{Addr, less}
use proto_ip.Golang.Scanner.{Reader, scan_err, scan_lines}
use mathlib.Core.List.Permᴰ

-- Neither of two ranges reaches into the other.
abbrev pub IsApart : AsnRange → AsnRange → Type 0
IsApart r s = (less r.end s.start ≡ true) ⊎ (less s.end r.start ≡ true)

-- Every row is apart from every other one.
abbrev pub Disjoint : List AsnRange → Type 0
Disjoint [] = Unit
Disjoint (r ∷ rs) = All (IsApart r) rs × Disjoint rs

-- A row of plain addresses, the first not behind the last.
abbrev pub IsRow : AsnRange → Type 0
IsRow r = IsPlain r.start × IsPlain r.end × (less r.end r.start ≡ false)

-- What sort.Slice guarantees for the order of the starts, where they are plain.
pub record IsSliceSort (sort : List AsnRange → List AsnRange) : Type 0 where
  pub permutes : (rs : List AsnRange) → Permᴰ rs (sort rs)
  pub sorted :
      (rs : List AsnRange) (i j : ℕ) (r s : AsnRange)
      → All (λ (x : AsnRange). IsPlain x.start) rs
      → i < j
      → get_elem? (sort rs) i ≡ some r
      → get_elem? (sort rs) j ≡ some s
      → less s.start r.start ≡ false

module _ (P : AsnRange → Type 0) where
  pub All-Permᴰ : {rs ss : List AsnRange} → Permᴰ rs ss → All P rs → All P ss
  All-Permᴰ Permᴰ.nil h = h
  All-Permᴰ (Permᴰ.cons e p) h = (subst P e h.0, All-Permᴰ p h.1)
  All-Permᴰ (Permᴰ.swap e f) h = (subst P f h.1.0, (subst P e h.0, h.1.1))
  All-Permᴰ (Permᴰ.trans p q) h = All-Permᴰ q (All-Permᴰ p h)

IsApart-comm : (r s : AsnRange) → IsApart r s → IsApart s r
IsApart-comm r s (inl h) = inr h
IsApart-comm r s (inr h) = inl h

Disjoint-Permᴰ : {rs ss : List AsnRange} → Permᴰ rs ss → Disjoint rs → Disjoint ss
Disjoint-Permᴰ Permᴰ.nil h = h
Disjoint-Permᴰ (Permᴰ.cons {a = a} {l₂ = ss} e p) h =
    (subst (λ r. All (IsApart r) ss) e (All-Permᴰ (IsApart a) p h.0), Disjoint-Permᴰ p h.1)
Disjoint-Permᴰ (Permᴰ.swap {a = a} {b = b} {a' = a'} {l = ss} e f) h =
    let apart = subst (λ r. IsApart r a) f (IsApart-comm a b h.0.0) in
    (
      (subst (IsApart a') e apart, subst (λ r. All (IsApart r) ss) f h.1.0),
      (subst (λ r. All (IsApart r) ss) e h.0.1, h.1.1),
    )
Disjoint-Permᴰ (Permᴰ.trans p q) h = Disjoint-Permᴰ q (Disjoint-Permᴰ p h)

-- A row that stands in a list.
abbrev pub Listed : AsnRange → List AsnRange → Type 0
Listed r rs = (i : ℕ) × (get_elem? rs i ≡ some r)

Listed-suc : (r s : AsnRange) (rs : List AsnRange) → Listed r rs → Listed r (s ∷ rs)
Listed-suc r s rs h = (suc h.0, h.1)

Listed-Permᴰ : (r : AsnRange) {rs ss : List AsnRange} → Permᴰ rs ss → Listed r rs → Listed r ss
Listed-Permᴰ r Permᴰ.nil h = h
Listed-Permᴰ r (Permᴰ.cons e p) (zero, h) = (zero, ap some (sym e) ∙ h)
Listed-Permᴰ r (Permᴰ.cons e p) (suc i, h) = Listed-suc _ _ _ (Listed-Permᴰ r p (i, h))
Listed-Permᴰ r (Permᴰ.swap e f) (zero, h) = (1, ap some (sym e) ∙ h)
Listed-Permᴰ r (Permᴰ.swap e f) (suc zero, h) = (0, ap some (sym f) ∙ h)
Listed-Permᴰ r (Permᴰ.swap e f) (suc (suc i), h) = (suc (suc i), h)
Listed-Permᴰ r (Permᴰ.trans p q) h = Listed-Permᴰ r q (Listed-Permᴰ r p h)

pub All-Listed :
    (P : AsnRange → Type 0) (rs : List AsnRange)
    → All P rs
    → (i : ℕ) (r : AsnRange) → get_elem? rs i ≡ some r
    → P r
All-Listed P [] h i r e = cc
All-Listed P (x ∷ rs) h zero r e = subst P (some-injective x r e) h.0
All-Listed P (x ∷ rs) h (suc i) r e = All-Listed P rs h.1 i r e

Disjoint-Listed :
    (rs : List AsnRange)
    → Disjoint rs
    → (i j : ℕ) (r s : AsnRange) → i < j
    → get_elem? rs i ≡ some r
    → get_elem? rs j ≡ some s
    → IsApart r s
Disjoint-Listed [] h i j r s lt e f = cc
Disjoint-Listed (x ∷ rs) h zero zero r s lt e f = absurd (omega arith)
Disjoint-Listed (x ∷ rs) h zero (suc j) r s lt e f =
    subst (λ y. IsApart y s) (some-injective x r e) (All-Listed (IsApart x) rs h.0 j s f)
Disjoint-Listed (x ∷ rs) h (suc i) zero r s lt e f = absurd (omega arith)
Disjoint-Listed (x ∷ rs) h (suc i) (suc j) r s lt e f =
    Disjoint-Listed rs h.1 i j r s (omega arith) e f

-- Of two rows apart from each other, the one that starts first ends before the other one starts.
ends_before :
    (r s : AsnRange)
    → IsRow r
    → IsRow s
    → less s.start r.start ≡ false
    → IsApart r s
    → less r.end s.start ≡ true
ends_before r s hr hs first (inl h) = h
ends_before r s hr hs first (inr h) =
    let rising : key s.start ≤ key s.end =
      ltb-false→le _ _ (sym (less-key s.end s.start hs.1 hs.0) ∙ hs.2) in
    let behind : key s.end < key r.start =
      ltb→lt _ _ (sym (less-key s.end r.start hs.1 hr.0) ∙ h) in
    let ahead : key r.start ≤ key s.start =
      ltb-false→le _ _ (sym (less-key s.start r.start hs.0 hr.0) ∙ first) in
    absurd (omega arith)

module _ (sort : List AsnRange → List AsnRange) (slice : IsSliceSort sort) where
  -- The sorted rows are a table.
  sort-IsTable : (rs : List AsnRange) → All IsRow rs → Disjoint rs → IsTable (sort rs)
  sort-IsTable rs rows apart =
      let p = slice.permutes rs in
      let sound = All-Listed IsRow (sort rs) (All-Permᴰ IsRow p rows) in
      record {
        plain = λ i r e. ((sound i r e).0, (sound i r e).1);
        in_order = λ i r e. (sound i r e).2;
        disjoint = λ i j r s lt e f.
            ends_before r s (sound i r e) (sound j s f)
              (slice.sorted rs i j r s (All-mono rs (λ x h. h.0) rows) lt e f)
              (Disjoint-Listed (sort rs) (Disjoint-Permᴰ p apart) i j r s lt e f);
      }

  -- A file without a scan error whose rows are disjoint ranges of plain addresses is loaded, whatever
  -- their order, and the search for a plain address then returns a row exactly if it is one of the
  -- file's and covers the address.
  pub parse_iptoasn-search :
      (t : NetText) (file : Reader) (a : Addr) (r : AsnRange)
      → scan_err iptoasn_line_limit file ≡ none
      → All IsRow (parse_ranges t (scan_lines iptoasn_line_limit file))
      → Disjoint (parse_ranges t (scan_lines iptoasn_line_limit file))
      → IsPlain a
      → let rows = parse_ranges t (scan_lines iptoasn_line_limit file) in
        (table : List AsnRange) × (parse_iptoasn t sort file ≡ ok table)
        × ((search_asn_range table a ≡ some r) ↔ (Listed r rows × (in_range r a ≡ true)))
  unfolding parse_iptoasn
  parse_iptoasn-search t file a r clean rows apart pa =
      let rs = parse_ranges t (scan_lines iptoasn_line_limit file) in
      let p = slice.permutes rs in
      let exact = search_asn_range_iff (sort rs) a r (sort-IsTable rs rows apart) pa in
      (
        sort rs,
        rw (clean, parse_iptoasn) refl,
        (
          λ h.
              let (i, at_i, inside) = exact.0 h in
              (Listed-Permᴰ r (Permᴰ.symm p) (i, at_i), inside),
          λ h. let moved = Listed-Permᴰ r p h.0 in exact.1 (moved.0, moved.1, h.1),
        ),
      )
