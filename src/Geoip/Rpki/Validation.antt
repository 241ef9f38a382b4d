-- ===== src/Geoip/Rpki/Validation.antt =====
-- RFC 6811 route-origin validation as the code approximates it: by the covering VRPs' AS numbers.
use mathlib.Core.List.{Memᴰ}
use mathlib.Core.Path.{subst}
use proto_ip.Prelude.{
  Bool-cases, List, [], any, any→mem, beq-false→ne, beq→eq, false, inl, inr, list_eq, mem→any,
  nat_beq_iff, nat_eq, refl, some, sym, true, ℕ, ◌==◌, ◌↔◌, ◌∷◌, ◌≡◌, ◌≢◌,
}
use proto_ip.Geoip.Rpki.{Vrp, VrpJson, add_all, covering, empty_set, judge, validate}
use proto_ip.Geoip.Rpki.Index.{
  Indexes, add_all-Indexes, empty_set-Indexes, log_of, log_of-IsNetwork,
}
use proto_ip.Geoip.Rpki.Verdict.{covering_iff}
use proto_ip.Golang.NetText.{NetText}
use proto_ip.Golang.Netip.{Addr, Prefix, addr_eq, contains, has_zone, prefix_eq}
use proto_ip.Golang.Netip.Laws.{IsValid}
use proto_ip.Golang.Text.{Text}
use proto_ip.Messages.Geo.{RpkiStatus, invalid_status, not_found, status_unknown, valid}

-- What each status says of all accepted VRPs, the address and the origin AS.
pub data IsVerdict (log : List Vrp) (a : Addr) (origin : ℕ) : RpkiStatus → Type 0 where
  uncovered :
      ((v : Vrp) → Memᴰ v log → contains v.prefix a ≡ true → ⊥) → IsVerdict log a origin not_found
  unknown_origin :
      (v : Vrp)
      → Memᴰ v log
      → contains v.prefix a ≡ true
      → origin ≡ 0
      → IsVerdict log a origin status_unknown
  authorized :
      (v : Vrp)
      → Memᴰ v log
      → contains v.prefix a ≡ true
      → v.asn ≡ origin
      → origin ≢ 0
      → IsVerdict log a origin valid
  unauthorized :
      (v : Vrp)
      → Memᴰ v log
      → contains v.prefix a ≡ true
      → origin ≢ 0
      → ((w : Vrp) → Memᴰ w log → contains w.prefix a ≡ true → w.asn ≢ origin)
      → IsVerdict log a origin invalid_status

-- The verdict on a list that holds exactly the VRPs that contain the address.
judge-IsVerdict :
    (log : List Vrp) (a : Addr) (origin : ℕ) (vs : List Vrp)
    → ((v : Vrp) → Memᴰ v vs ↔ (Memᴰ v log × (contains v.prefix a ≡ true)))
    → IsVerdict log a origin (judge vs origin).0 × ((judge vs origin).1 ≡ vs)
unfolding judge
judge-IsVerdict log a origin [] same = (uncovered (λ v m c. elim ((same v).1 (m, c)) [ ]), refl)
judge-IsVerdict log a origin (v ∷ vs) same = elim (Bool-cases (origin == 0)) [
  | inl zero_origin ↦
      rw (zero_origin, judge)
        (unknown_origin v here_is.0 here_is.1 (beq→eq origin 0 zero_origin), refl)
  | inr known ↦ elim (Bool-cases (any (λ (w : Vrp). w.asn == origin) (v ∷ vs))) [
    | inl found ↦
        let (w, m, e) = any→mem (λ (w : Vrp). w.asn == origin) (v ∷ vs) found in
        let (k, c) = (same w).0 m in
        rw (known, found, judge)
          (authorized w k c (beq→eq w.asn origin e) (beq-false→ne origin 0 known), refl)
    | inr none_found ↦
        rw (known, none_found, judge)
          (
            unauthorized v here_is.0 here_is.1 (beq-false→ne origin 0 known) (λ w k c e. cc (
              none_found,
              mem→any (λ (w : Vrp). w.asn == origin) ((same w).1 (k, c))
                  ((nat_beq_iff w.asn origin).1 e),
            )),
            refl,
          )
  ]
]
  where
    here_is : Memᴰ v log × (contains v.prefix a ≡ true)
    here_is = (same v).0 (Memᴰ.head refl)

module _ (t : NetText)
    (valid_prefixes : (x : Text) (p : Prefix) → t.parse_prefix x ≡ some p → IsValid p)
    (es : List VrpJson) (a : Addr) (no_zone : has_zone a ≡ false) where
  loaded : Indexes (add_all t es empty_set) (log_of t es)
  loaded = add_all-Indexes t es empty_set [] empty_set-Indexes

  covered :
      (v : Vrp)
      → Memᴰ v (covering (add_all t es empty_set) a)
        ↔ (Memᴰ v (log_of t es) × (contains v.prefix a ≡ true))
  covered =
      covering_iff (add_all t es empty_set) (log_of t es) loaded
        (log_of-IsNetwork t valid_prefixes es) a no_zone

  -- After a dump is loaded with a parser that gives valid prefixes, `Validate` of an address without
  -- a zone gives: not-found when no accepted VRP contains the address; unknown when one does and the
  -- origin is 0; valid when the origin is not 0 and one that contains the address names it; invalid
  -- when the origin is not 0, some contain the address and none of those names the origin.
  pub validate-IsVerdict :
      (origin : ℕ) → IsVerdict (log_of t es) a origin (validate (add_all t es empty_set) a origin).0
  unfolding validate
  validate-IsVerdict origin =
      (judge-IsVerdict (log_of t es) a origin (covering (add_all t es empty_set) a) covered).0

  -- After a dump is loaded with a parser that gives valid prefixes, the VRPs that `Validate` returns
  -- for an address without a zone are exactly the accepted ones that contain the address.
  pub validate-covering :
      (origin : ℕ) (v : Vrp)
      → Memᴰ v (validate (add_all t es empty_set) a origin).1
        ↔ (Memᴰ v (log_of t es) × (contains v.prefix a ≡ true))
  unfolding validate
  validate-covering origin v =
      subst (λ (l : List Vrp). Memᴰ v l ↔ (Memᴰ v (log_of t es) × (contains v.prefix a ≡ true)))
        (sym
          (judge-IsVerdict (log_of t es) a origin (covering (add_all t es empty_set) a) covered).1)
        (covered v)
