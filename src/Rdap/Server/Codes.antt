-- ===== src/Rdap/Server/Codes.antt =====
-- The status codes of the RDAP service.
use proto_ip.Prelude.{
  Option, Option-cases, Result, ap, err, inl, inr, none, ok, refl, some, sym, ◌↔◌, ◌≡◌, ◌≢◌, ◌⊎◌,
}
use proto_ip.Golang.Grpc.{Code, Status, invalid_argument, unavailable}
use proto_ip.Golang.NetText.{NetText}
use proto_ip.Golang.Text.{Text, codes}
use proto_ip.Messages.Ip.{Cidr, Ip, Subnet}
use proto_ip.Rdap.Bootstrap.{Bootstrap}
use proto_ip.Rdap.Client.{SubnetText, lookup_cidr}
use proto_ip.Rdap.Server.{answered_by, argument_error, serve_cidr, unavailable_error}

module _ {W A : Type 0} (t : NetText) (b : Bootstrap)
    (query : Text → Text → W → Result Text A × W) where
  answered_by-code :
      (what : Text) (r : Result Text A) (s : Status)
      → answered_by what r ≡ err s
      → s.code ≡ unavailable
  unfolding answered_by unavailable_error
  answered_by-code what (err e) s h = sym (ap code_of h)
    where
      code_of : Result Status A → Code
      code_of (err x) = x.code
      code_of (ok x) = unavailable
  answered_by-code what (ok x) s h = cc

  answered_by-ok :
      (what : Text) (r : Result Text A) (x : A) → (answered_by what r ≡ ok x) ↔ (r ≡ ok x)
  unfolding answered_by
  answered_by-ok what (err e) x = ((λ h. cc), λ h. cc)
  answered_by-ok what (ok y) x = ((λ h. cc), λ h. cc)

  served :
      (n : SubnetText) (cidr : Cidr) (ip : Ip) (subnet : Subnet) (w : W)
      → cidr.ip ≡ some ip
      → cidr.subnet ≡ some subnet
      → serve_cidr t b query n (some cidr) w ≡ (
        answered_by (codes "RDAP lookup: ") (lookup_cidr t b query n (some cidr) w).0,
        (lookup_cidr t b query n (some cidr) w).1,
      )
  unfolding serve_cidr
  served n cidr ip subnet w e f =
      guarded cidr.ip cidr.subnet e f (lookup_cidr t b query n (some cidr) w)
    where
      guarded :
          (o : Option Ip) (p : Option Subnet)
          → o ≡ some ip
          → p ≡ some subnet
          → (asked : Result Text A × W)
          → ◌≡◌ {A = Result Status A × W}
              (elim o [
                | none ↦ (err (argument_error (codes "CIDR.ip must be set")), w)
                | some ip ↦ elim p [
                  | none ↦ (err (argument_error (codes "CIDR.subnet must be set")), w)
                  | some subnet ↦ (answered_by (codes "RDAP lookup: ") asked.0, asked.1)
                ]
              ])
              (answered_by (codes "RDAP lookup: ") asked.0, asked.1)
      guarded (some x) (some y) h k asked = refl
      guarded none p h k asked = cc
      guarded (some x) none h k asked = cc

  -- A CIDR without an address or without a subnet is an invalid argument and reaches no registry;
  -- every other request is the client's lookup, whose errors are all reported as unavailable.
  pub serve_cidr-code :
      (n : SubnetText) (cidr : Cidr) (w : W)
      → (((cidr.ip ≡ none) ⊎ (cidr.subnet ≡ none))
          × (s : Status) × (serve_cidr t b query n (some cidr) w ≡ (err s, w))
          × (s.code ≡ invalid_argument))
        ⊎ ((cidr.ip ≢ none)
            × (cidr.subnet ≢ none)
            × ((serve_cidr t b query n (some cidr) w).1 ≡ (lookup_cidr t b query n (some cidr) w).1)
            × ((x : A)
                → ((serve_cidr t b query n (some cidr) w).0 ≡ ok x)
                  ↔ ((lookup_cidr t b query n (some cidr) w).0 ≡ ok x))
            × ((s : Status)
                → (serve_cidr t b query n (some cidr) w).0 ≡ err s
                → s.code ≡ unavailable))
  unfolding serve_cidr argument_error
  serve_cidr-code n cidr w = elim (Option-cases cidr.ip) [
    | inl e ↦
        inl (inl e, argument_error (codes "CIDR.ip must be set"), (rw (e, serve_cidr) refl), refl)
    | inr (ip, e) ↦ elim (Option-cases cidr.subnet) [
      | inl f ↦ inl (
        inr f,
        argument_error (codes "CIDR.subnet must be set"),
        (rw (e, f, serve_cidr) refl),
        refl,
      )
      | inr (subnet, f) ↦
          let same = served n cidr ip subnet w e f in
          inr (
            (λ q. cc (e, q)),
            (λ q. cc (f, q)),
            ap (λ (r : Result Status A × W). r.1) same,
            (λ x. rw same (answered_by-ok (codes "RDAP lookup: ") _ x)),
            λ s. rw same (answered_by-code (codes "RDAP lookup: ") _ s),
          )
    ]
  ]
