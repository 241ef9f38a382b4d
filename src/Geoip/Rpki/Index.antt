-- ===== src/Geoip/Rpki/Index.antt =====
-- The two maps of an RpkiSet against the list of accepted VRPs.
use mathlib.Core.Path.{subst}
use proto_ip.Prelude.{
  All, Bool, Bool-cases, List, Option, Option-cases, [], ap, append-nil, append_assoc, arith,
  beq→eq, false, filter, filter-append, if◌then◌else◌, inl, inr, length, length-append, list_eq,
  nat_eq, none, refl, some, sym, true, ℕ, ◌++◌, ◌+◌, ◌==◌, ◌∙◌, ◌∷◌, ◌≡◌, ◌≢◌,
}
use proto_ip.Geoip.Rpki.{
  RpkiSet, Vrp, VrpJson, add, add_all, append_at, at, empty_set, index, parse_vrp_asn,
}
use proto_ip.Golang.Maps.{lookup, lookup-insert}
use proto_ip.Golang.NetText.{NetText}
use proto_ip.Golang.Netip.{Prefix, is4, masked, prefix_eq}
use proto_ip.Golang.Netip.Laws.{IsNetwork, IsValid, masked-IsNetwork}
use proto_ip.Golang.Text.{Text}

-- The VRP that `add` accepts of an element.
pub accepted : NetText → VrpJson → Option Vrp
accepted t e = elim (parse_vrp_asn e.asn) [
  | none ↦ none
  | some asn ↦ elim (t.parse_prefix e.prefix) [
    | none ↦ none
    | some p ↦ some (record { prefix = masked p; max_len = e.max_length; asn = asn })
  ]
]

-- The accepted VRPs of a dump, in order.
unfoldable pub log_of : NetText → List VrpJson → List Vrp
log_of t [] = []
log_of t (e ∷ es) = elim (accepted t e) [ none ↦ log_of t es | some v ↦ v ∷ log_of t es ]

-- The VRPs with one prefix.
abbrev pub having : Prefix → List Vrp → List Vrp
having p = filter (λ (v : Vrp). v.prefix == p)

-- Each map answers for its family with the VRPs of the log.
pub record Indexes (s : RpkiSet) (log : List Vrp) : Type 0 where
  pub four : (p : Prefix) → is4 p.addr ≡ true → at p s.v4 ≡ having p log
  pub six : (p : Prefix) → is4 p.addr ≡ false → at p s.v6 ≡ having p log
  pub count : s.n ≡ length log

at-append_at :
    (p q : Prefix) (v : Vrp) (m : List (Prefix × List Vrp))
    → at q (append_at p v m) ≡ (if p == q then at p m ++ v ∷ [] else at q m)
unfolding append_at at
at-append_at p q v m = ground (arith, lookup-insert p q (at p m ++ v ∷ []) m)

having-append :
    (p : Prefix) (log : List Vrp) (v : Vrp)
    → having p (log ++ v ∷ []) ≡ (if v.prefix == p then having p log ++ v ∷ [] else having p log)
having-append p log v =
    filter-append (λ (w : Vrp). w.prefix == p) log (v ∷ [])
    ∙ (unfold filter in split (v.prefix == p))
  where
    split :
        (b : Bool)
        → having p log ++ (if b then v ∷ [] else [])
          ≡ (if b then having p log ++ v ∷ [] else having p log)
    split true = refl
    split false = append-nil (having p log)

-- A map that answers with the VRPs of the log still does when both get one more.
append_at-having :
    (p q : Prefix) (v : Vrp) (m : List (Prefix × List Vrp)) (log : List Vrp)
    → v.prefix ≡ p
    → at p m ≡ having p log
    → at q m ≡ having q log
    → at q (append_at p v m) ≡ having q (log ++ v ∷ [])
append_at-having p q v m log e hp hq =
    at-append_at p q v m
    ∙ pick (p == q) (beq→eq p q)
    ∙ sym (
        having-append q log v
        ∙ ap (λ (t : Prefix). if t == q then having q log ++ v ∷ [] else having q log) e)
  where
    pick :
        (b : Bool)
        → (b ≡ true → p ≡ q)
        → (if b then at p m ++ v ∷ [] else at q m)
          ≡ (if b then having q log ++ v ∷ [] else having q log)
    pick true same =
        ap (λ (t : List Vrp). t ++ v ∷ []) (hp ∙ ap (λ (t : Prefix). having t log) (same refl))
    pick false same = hq

-- A VRP of the other family is not under the prefix.
having_other :
    (q : Prefix) (v : Vrp) (log : List Vrp)
    → is4 v.prefix.addr ≢ is4 q.addr
    → having q (log ++ v ∷ []) ≡ having q log
having_other q v log ne = having-append q log v ∙ pick (v.prefix == q) (beq→eq v.prefix q)
  where
    pick :
        (b : Bool)
        → (b ≡ true → v.prefix ≡ q)
        → (if b then having q log ++ v ∷ [] else having q log) ≡ having q log
    pick true same = absurd (ne (ap (λ (t : Prefix). is4 t.addr) (same refl)))
    pick false same = refl

index-Indexes :
    (v : Vrp) (s : RpkiSet) (log : List Vrp) → Indexes s log → Indexes (index v s) (log ++ v ∷ [])
index-Indexes v s log h = elim (Bool-cases (is4 v.prefix.addr)) [
  | inl yes4 ↦
      subst (λ (t : RpkiSet). Indexes t (log ++ v ∷ [])) (sym (in_v4 yes4))
        (record {
          four = λ q e.
              append_at-having v.prefix q v s.v4 log refl (h.four v.prefix yes4) (h.four q e);
          six = λ q e. h.six q e ∙ sym (having_other q v log (λ same. cc (same, yes4, e)));
          count = omega (arith, h.count, length-append {0} log (v ∷ []));
        })
  | inr no4 ↦
      subst (λ (t : RpkiSet). Indexes t (log ++ v ∷ [])) (sym (in_v6 no4))
        (record {
          four = λ q e. h.four q e ∙ sym (having_other q v log (λ same. cc (same, no4, e)));
          six = λ q e. append_at-having v.prefix q v s.v6 log refl (h.six v.prefix no4) (h.six q e);
          count = omega (arith, h.count, length-append {0} log (v ∷ []));
        })
]
  where
    in_v4 :
        is4 v.prefix.addr ≡ true
        → index v s ≡ record s { v4 = append_at v.prefix v s.v4; n = s.n + 1 }
    in_v4 e = unfold index in ground arith

    in_v6 :
        is4 v.prefix.addr ≡ false
        → index v s ≡ record s { v6 = append_at v.prefix v s.v6; n = s.n + 1 }
    in_v6 e = unfold index in ground arith

add-accepted :
    (t : NetText) (e : VrpJson) (s : RpkiSet)
    → add t e s ≡ (elim (accepted t e) as (λ _. RpkiSet) [ none ↦ s | some v ↦ index v s ])
unfolding add accepted
add-accepted t e s = ground arith

log_of-accepted :
    (t : NetText) (e : VrpJson) (es : List VrpJson) (v : Vrp)
    → accepted t e ≡ some v
    → log_of t (e ∷ es) ≡ v ∷ log_of t es
unfolding log_of
log_of-accepted t e es v h = ground arith

log_of-skipped :
    (t : NetText) (e : VrpJson) (es : List VrpJson)
    → accepted t e ≡ none
    → log_of t (e ∷ es) ≡ log_of t es
unfolding log_of
log_of-skipped t e es h = ground arith

-- Loading a dump on top of an index gives the index of all VRPs accepted so far.
pub add_all-Indexes :
    (t : NetText) (es : List VrpJson) (s : RpkiSet) (log : List Vrp)
    → Indexes s log
    → Indexes (add_all t es s) (log ++ log_of t es)
unfolding add_all
add_all-Indexes t [] s log h = unfold log_of in subst (Indexes s) (sym (append-nil log)) h
add_all-Indexes t (e ∷ es) s log h = elim (Option-cases (accepted t e)) [
  | inl skip ↦
      subst (Indexes (add_all t es (add t e s)))
        (ap (λ (l : List Vrp). log ++ l) (sym (log_of-skipped t e es skip)))
        (add_all-Indexes t es (add t e s) log
          (subst (λ (u : RpkiSet). Indexes u log) (sym (add-accepted t e s ∙ rw skip)) h))
  | inr (v, kept) ↦
      subst (Indexes (add_all t es (add t e s)))
        (append_assoc log (v ∷ []) (log_of t es)
          ∙ ap (λ (l : List Vrp). log ++ l) (sym (log_of-accepted t e es v kept)))
        (add_all-Indexes t es (add t e s) (log ++ v ∷ []) (
          subst (λ (u : RpkiSet). Indexes u (log ++ v ∷ [])) (sym (add-accepted t e s ∙ rw kept))
            (index-Indexes v s log h)))
]

pub empty_set-Indexes : Indexes empty_set []
unfolding at filter lookup
empty_set-Indexes = record { four = λ p e. refl; six = λ p e. refl; count = refl }

-- The prefixes of a log are masked, if the parser gives valid prefixes.
pub log_of-IsNetwork :
    (t : NetText)
    → ((x : Text) (p : Prefix) → t.parse_prefix x ≡ some p → IsValid p)
    → (es : List VrpJson) → All (λ (v : Vrp). IsNetwork v.prefix) (log_of t es)
unfolding log_of
log_of-IsNetwork t valid_prefixes [] = tt
log_of-IsNetwork t valid_prefixes (e ∷ es) = elim (Option-cases (accepted t e)) [
  | inl skip ↦ rw (skip, log_of) (log_of-IsNetwork t valid_prefixes es)
  | inr (v, kept) ↦ rw (kept, log_of) (network v kept, log_of-IsNetwork t valid_prefixes es)
]
  where
    network : (v : Vrp) → accepted t e ≡ some v → IsNetwork v.prefix
    network v kept = elim (Option-cases (parse_vrp_asn e.asn)) [
      | inl bad ↦ absurd (unfold accepted in ground arith)
      | inr (asn, good) ↦ elim (Option-cases (t.parse_prefix e.prefix)) [
        | inl bad ↦ absurd (unfold accepted in ground arith)
        | inr (p, parsed) ↦
            subst IsNetwork (sym (same p asn good parsed))
              (masked-IsNetwork p (valid_prefixes e.prefix p parsed))
      ]
    ]
      where
        same :
            (p : Prefix) (asn : ℕ)
            → parse_vrp_asn e.asn ≡ some asn
            → t.parse_prefix e.prefix ≡ some p
            → v.prefix ≡ masked p
        same p asn good parsed = unfold accepted in ground arith
