-- ===== src/Geoip/Iptoasn/Search.antt =====
-- The binary search over ranges sorted by start.
use native.Mathlib.Decide.{dec_lt}
use proto_ip.Prelude.{
  Bool, Bool-cases, List, Option-cases, [], ap, arith, false, get_elem?, inl, inr, length, ltb,
  ltb-false→le, ltb→lt, none, refl, some, suc, sym, true, zero, ℕ, ◌+◌, ◌/◌, ◌<◌, ◌^◌, ◌↔◌, ◌∙◌,
  ◌∷◌, ◌≡◌, ◌≤◌, ◌⊎◌,
}
use proto_ip.Geoip.Iptoasn.{
  AsnRange, candidate, in_range, search_asn_range, search_from, sort_search, starts_behind,
}
use proto_ip.Geoip.Rpki.{at}
use proto_ip.Golang.Netip.{Addr, IsAddr, has_zone, invalid, ip4, ip6, less, text_less}

-- What sort.Search guarantees for any test: the index it stops at is the first of its interval or
-- behind an index that fails the test, and the end of the interval or an index that passes it.
search_from-bounds :
    (p : ℕ → Bool) (fuel i j : ℕ)
    → i ≤ j
    → j < i + fuel
    → (i ≤ search_from p fuel i j)
      × (search_from p fuel i j ≤ j)
      × ((k : ℕ) → search_from p fuel i j ≡ suc k → (suc k ≤ i) ⊎ (p k ≡ false))
      × ((search_from p fuel i j ≡ j) ⊎ (p (search_from p fuel i j) ≡ true))
unfolding search_from
search_from-bounds p zero i j le lt = absurd (omega arith)
search_from-bounds p (suc fuel) i j le lt = elim (Bool-cases (ltb i j)) [
  | inr stop ↦
      let same : i ≡ j = omega (arith, ltb-false→le i j stop) in
      rw (stop, search_from) (omega arith, omega arith, (λ k e. inl (omega arith)), inl same)
  | inl go ↦ elim (Bool-cases (p ((i + j) / 2))) [
    | inl passes ↦
        let (lo, hi, below, at) =
          search_from-bounds p fuel i ((i + j) / 2) (omega (arith, ltb→lt i j go))
            (omega (arith, ltb→lt i j go)) in
        rw (go, passes, search_from)
          (lo, omega (arith, ltb→lt i j go), below, inr (at_end at passes))
    | inr fails ↦
        let (lo, hi, below, at) =
          search_from-bounds p fuel ((i + j) / 2 + 1) j (omega (arith, ltb→lt i j go))
            (omega (arith, ltb→lt i j go)) in
        rw (go, fails, search_from)
          (omega (arith, ltb→lt i j go), hi, (λ k e. inr (behind k e lo (below k e) fails)), at)
  ]
]
  where
    at_end : {r : ℕ} → (r ≡ (i + j) / 2) ⊎ (p r ≡ true) → p ((i + j) / 2) ≡ true → p r ≡ true
    at_end (inl e) passes = ap p e ∙ passes
    at_end (inr h) passes = h

    behind :
        {r : ℕ} (k : ℕ)
        → r ≡ suc k
        → (i + j) / 2 + 1 ≤ r
        → (suc k ≤ (i + j) / 2 + 1) ⊎ (p k ≡ false)
        → p ((i + j) / 2) ≡ false
        → p k ≡ false
    behind k e lo (inr h) fails = h
    behind k e lo (inl le) fails = let same : k ≡ (i + j) / 2 = omega arith in ap p same ∙ fails

-- Addresses as numbers in the order of `less`: family first.
pub key : Addr → ℕ
key invalid = 0
key (ip4 x) = 1 + x
key (ip6 x zone) = 1 + 2 ^ 32 + x

-- A value of netip.Addr without a zone.
abbrev pub IsPlain : Addr → Type 0
IsPlain a = IsAddr a × (has_zone a ≡ false)

pub less-key : (a b : Addr) → IsPlain a → IsPlain b → less a b ≡ ltb (key a) (key b)
unfolding less key text_less has_zone
less-key invalid invalid p q = ground arith
less-key invalid (ip4 x) p q = ground arith
less-key invalid (ip6 x z) p q = ground arith
less-key (ip4 x) invalid p q = ground arith
less-key (ip4 x) (ip4 y) p q = ground arith
less-key (ip4 x) (ip6 y z) p q = ground arith
less-key (ip6 x z) invalid p q = ground arith
less-key (ip6 x z) (ip4 y) p q = ground arith
less-key (ip6 x []) (ip6 y []) p q = ground arith
less-key (ip6 x (c ∷ z)) (ip6 y z') p q = ground arith
less-key (ip6 x []) (ip6 y (c ∷ z')) p q = ground arith

-- A table as the loader makes it of disjoint rows: plain addresses, each range in order, and each
-- one before the ranges behind it.
pub record IsTable (rs : List AsnRange) : Type 0 where
  pub plain : (i : ℕ) (r : AsnRange) → get_elem? rs i ≡ some r → IsPlain r.start × IsPlain r.end
  pub in_order : (i : ℕ) (r : AsnRange) → get_elem? rs i ≡ some r → less r.end r.start ≡ false
  pub disjoint :
      (i j : ℕ) (r s : AsnRange)
      → i < j
      → get_elem? rs i ≡ some r
      → get_elem? rs j ≡ some s
      → less r.end s.start ≡ true

get_elem?-lt : (rs : List AsnRange) (i : ℕ) (r : AsnRange) → get_elem? rs i ≡ some r → i < length rs
get_elem?-lt [] i r e = cc
get_elem?-lt (x ∷ rs) zero r e = omega arith
get_elem?-lt (x ∷ rs) (suc i) r e = omega (arith, get_elem?-lt rs i r e)

get_elem?-none : (rs : List AsnRange) (k : ℕ) → get_elem? rs k ≡ none → length rs ≤ k
get_elem?-none [] k e = omega arith
get_elem?-none (x ∷ rs) zero e = cc
get_elem?-none (x ∷ rs) (suc k) e = omega (arith, get_elem?-none rs k e)

in_range→keys :
    (r : AsnRange) (a : Addr)
    → IsPlain r.start
    → IsPlain r.end
    → IsPlain a
    → in_range r a ≡ true
    → (key r.start ≤ key a) × (key a ≤ key r.end)
unfolding in_range
in_range→keys r a ps pe pa h =
    let lo : less a r.start ≡ false = ground arith in
    let hi : less r.end a ≡ false = ground arith in
    (
      ltb-false→le _ _ (sym (less-key a r.start pa ps) ∙ lo),
      ltb-false→le _ _ (sym (less-key r.end a pe pa) ∙ hi),
    )

-- A result stands in the list and covers the address, for any list.
candidate_sound :
    (rs : List AsnRange) (a : Addr) (k : ℕ) (r : AsnRange)
    → candidate rs a k ≡ some r
    → (i : ℕ) × (get_elem? rs i ≡ some r) × (in_range r a ≡ true)
unfolding candidate
candidate_sound rs a zero r e = absurd (cc)
candidate_sound rs a (suc k) r e = elim (Option-cases (get_elem? rs k)) [
  | inl out ↦ absurd (ground arith)
  | inr (c, at) ↦ elim (Bool-cases (in_range c a)) [
    | inl inside ↦ (k, ground arith, ground arith)
    | inr outside ↦ absurd (ground arith)
  ]
]

module _ (rs : List AsnRange) (table : IsTable rs) (a : Addr) (pa : IsPlain a) (i : ℕ)
    (r : AsnRange) (at : get_elem? rs i ≡ some r) (inside : in_range r a ≡ true) where
  r_keys : (key r.start ≤ key a) × (key a ≤ key r.end)
  r_keys = let (ps, pe) = table.plain i r at in in_range→keys r a ps pe pa inside

  -- The covering range stands before every range that starts behind the address.
  before_start : (k : ℕ) (c : AsnRange) → get_elem? rs k ≡ some c → less a c.start ≡ true → i < k
  before_start k c ck behind =
      let (ps, pe) = table.plain k c ck in
      let (qs, qe) = table.plain i r at in
      let lt : key a < key c.start = ltb→lt _ _ (sym (less-key a c.start pa ps) ∙ behind) in
      elim (dec_lt i k) [
        | yes le ↦ le
        | no ge ↦ absurd (elim (dec_lt k i) [
          | yes ki ↦
              let gap : key c.end < key r.start =
                ltb→lt _ _ (sym (less-key c.end r.start pe qs) ∙ table.disjoint k i c r ki ck at) in
              let own : key c.start ≤ key c.end =
                ltb-false→le _ _ (sym (less-key c.end c.start pe ps) ∙ table.in_order k c ck) in
              omega (arith, r_keys.0)
          | no ki ↦
              let same : i ≡ k = omega arith in
              let c_eq : some r ≡ some c = sym at ∙ ap (get_elem? rs) same ∙ ck in
              let r_eq : r ≡ c = cc c_eq in
              omega (arith, r_keys.0, ap (λ (x : AsnRange). key x.start) r_eq)
        ])
      ]

  -- The covering range does not stand before a range that starts at or before the address.
  not_before : (k : ℕ) (c : AsnRange) → get_elem? rs k ≡ some c → less a c.start ≡ false → k ≤ i
  not_before k c ck reached =
      let (ps, pe) = table.plain k c ck in
      let (qs, qe) = table.plain i r at in
      let le : key c.start ≤ key a = ltb-false→le _ _ (sym (less-key a c.start pa ps) ∙ reached) in
      elim (dec_lt i k) [
        | no ge ↦ omega arith
        | yes ik ↦
            let gap : key r.end < key c.start =
              ltb→lt _ _ (sym (less-key r.end c.start qe ps) ∙ table.disjoint i k r c ik at ck) in
            absurd (omega (arith, r_keys.1))
      ]

  starts_behind-lt : (k : ℕ) → k < length rs → starts_behind rs a k ≡ true → i < k
  unfolding starts_behind
  starts_behind-lt k lt h = elim (Option-cases (get_elem? rs k)) [
    | inl out ↦ omega (arith, get_elem?-lt rs i r at, get_elem?-none rs k out)
    | inr (c, ck) ↦ before_start k c ck (ground arith)
  ]

  starts_behind-ge : (k : ℕ) → starts_behind rs a k ≡ false → k ≤ i
  unfolding starts_behind
  starts_behind-ge k h = elim (Option-cases (get_elem? rs k)) [
    | inl out ↦ absurd (ground arith)
    | inr (c, ck) ↦ not_before k c ck (ground arith)
  ]

  candidate_at : candidate rs a (suc i) ≡ some r
  unfolding candidate
  candidate_at = rw (at, inside, candidate)

  search_index : sort_search (length rs) (starts_behind rs a) ≡ suc i
  unfolding sort_search
  search_index =
      let n = length rs in
      let (lo, hi, below, above) =
        search_from-bounds (starts_behind rs a) (suc n) 0 n (omega arith) (omega arith) in
      index_from (search_from (starts_behind rs a) (suc n) 0 n) hi below above
    where
      upper : (k : ℕ) → k ≤ length rs → (k ≡ length rs) ⊎ (starts_behind rs a k ≡ true) → i < k
      upper k le (inl e) = omega (arith, get_elem?-lt rs i r at)
      upper k le (inr h) = elim (dec_lt k (length rs)) [
        | yes lt ↦ starts_behind-lt k lt h
        | no ge ↦ omega (arith, get_elem?-lt rs i r at)
      ]

      lower : (m : ℕ) → (suc m ≤ 0) ⊎ (starts_behind rs a m ≡ false) → m ≤ i
      lower m (inl h) = absurd (omega arith)
      lower m (inr h) = starts_behind-ge m h

      index_from :
          (k : ℕ)
          → k ≤ length rs
          → ((m : ℕ) → k ≡ suc m → (suc m ≤ 0) ⊎ (starts_behind rs a m ≡ false))
          → (k ≡ length rs) ⊎ (starts_behind rs a k ≡ true)
          → k ≡ suc i
      index_from zero le below above = absurd (omega (arith, upper zero le above))
      index_from (suc m) le below above =
          omega (arith, upper (suc m) le above, lower m (below m refl))

-- In a table of disjoint ranges of plain addresses, sorted, the search of a plain address returns a range exactly if it
-- stands in the table and covers the address.
pub search_asn_range_iff :
    (rs : List AsnRange) (a : Addr) (r : AsnRange)
    → IsTable rs
    → IsPlain a
    → (search_asn_range rs a ≡ some r)
      ↔ ((i : ℕ) × (get_elem? rs i ≡ some r) × (in_range r a ≡ true))
unfolding search_asn_range
search_asn_range_iff rs a r table pa = (
  candidate_sound rs a (sort_search (length rs) (starts_behind rs a)) r,
  λ h.
      ap (candidate rs a) (search_index rs table a pa h.0 r h.1 h.2)
      ∙ candidate_at rs table a pa h.0 r h.1 h.2,
)
