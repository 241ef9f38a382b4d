-- ===== src/Rdap/Bootstrap/Fetching.antt =====
-- rdap/bootstrap.go: the requests of NewBootstrap, one after the other.
use proto_ip.Prelude.{
  List, Option, Result, err, if◌then◌else◌, list_eq, map_err, nat_eq, none, ok, refl, some, ℕ, ◌++◌,
  ◌==◌, ◌>>=◌, ◌≡◌,
}
use proto_ip.Golang.Scanner.{Reader}
use proto_ip.Golang.Text.{Text, codes, decimal}
use proto_ip.Rdap.Bootstrap.{
  AsnEntry, Bootstrap, BsEntry, Decoders, asn_entries, bootstrap_entries, new_bootstrap,
}

abbrev pub iana_ipv4_bootstrap : Text
iana_ipv4_bootstrap = codes "https://data.iana.org/rdap/ipv4.json"

abbrev pub iana_ipv6_bootstrap : Text
iana_ipv6_bootstrap = codes "https://data.iana.org/rdap/ipv6.json"

abbrev pub iana_asn_bootstrap : Text
iana_asn_bootstrap = codes "https://data.iana.org/rdap/asn.json"

pub record Iana (W : Type 0) : Type 0 where
  -- http.NewRequestWithContext: none, or its error
  pub request_error : Text → Option Text
  -- http.DefaultClient.Do: the status and the body
  pub http : Text → W → Result Text (ℕ × Reader) × W
  -- json.Decoder.Decode of a body into a bootstrapFile: its services
  pub decode_services : Reader → Result Text (List (List Text))

module _ {W : Type 0} (n : Iana W) where
  -- The services of a body with the status 200.
  unfoldable pub decoded_services : Text → Result Text (ℕ × Reader) → Result Text (List (List Text))
  decoded_services url (err e) = err e
  decoded_services url (ok resp) =
      if resp.0 == 200
      then map_err (λ e. codes "decode " ++ (url ++ (codes ": " ++ e))) (n.decode_services resp.1)
      else err (codes "HTTP " ++ (decimal resp.0 ++ (codes " fetching " ++ url)))

  -- The part that fetchBootstrap and fetchASNBootstrap share.
  unfoldable pub fetch_services : Text → W → Result Text (List (List Text)) × W
  fetch_services url w = elim (n.request_error url) [
    | some e ↦ (err e, w)
    | none ↦ (decoded_services url (n.http url w).0, (n.http url w).1)
  ]

  -- fetchBootstrap
  unfoldable pub fetch_bootstrap : Decoders → Text → W → Result Text (List BsEntry) × W
  fetch_bootstrap d url w =
      let got = fetch_services url w in ((do s ← got.0; ok (bootstrap_entries d s)), got.1)

  -- fetchASNBootstrap
  unfoldable pub fetch_asn_bootstrap : Decoders → Text → W → Result Text (List AsnEntry) × W
  fetch_asn_bootstrap d url w =
      let got = fetch_services url w in ((do s ← got.0; ok (asn_entries d s)), got.1)

  -- What follows a fetch unless it failed.
  unfoldable pub after_fetch {ℓ κ} :
      {A : Type ℓ} {B : Type κ}
      → Text
      → Result Text A × W
      → (A → W → Result Text B × W)
      → Result Text B × W
  after_fetch what (err e, w) go_on = (err (what ++ e), w)
  after_fetch what (ok a, w) go_on = go_on a w

  -- NewBootstrap with its requests.
  unfoldable pub fetch_all : Decoders → W → Result Text Bootstrap × W
  fetch_all d w =
      after_fetch (codes "rdap bootstrap ipv4: ") (fetch_bootstrap d iana_ipv4_bootstrap w) (λ a w4.
        after_fetch (codes "rdap bootstrap ipv6: ") (fetch_bootstrap d iana_ipv6_bootstrap w4)
          (λ b w6.
            after_fetch (codes "rdap bootstrap asn: ") (fetch_asn_bootstrap d iana_asn_bootstrap w6)
              (λ c done. (ok (record { v4 = a; v6 = b; asn = c }), done))))

  -- The last fetch, behind two that succeeded.
  third_fetch :
      (d : Decoders) (a b : List (List Text)) (c : Result Text (List (List Text))) (w : W)
      → (after_fetch
          (codes "rdap bootstrap asn: ")
          ((do s ← c; ok (asn_entries d s)), w)
          (λ x done. (
            ok (record { v4 = bootstrap_entries d a; v6 = bootstrap_entries d b; asn = x }),
            done,
          ))).0
        ≡ new_bootstrap d (ok a) (ok b) c
  unfolding after_fetch new_bootstrap
  third_fetch d a b (err e) w = refl
  third_fetch d a b (ok s) w = refl

  second_fetch :
      (d : Decoders) (a : List (List Text)) (b : Result Text (List (List Text))) (w : W)
      → (after_fetch
          (codes "rdap bootstrap ipv6: ")
          ((do s ← b; ok (bootstrap_entries d s)), w)
          (λ y w6.
            after_fetch
              (codes "rdap bootstrap asn: ")
              (fetch_asn_bootstrap d iana_asn_bootstrap w6)
              (λ x done. (ok (record { v4 = bootstrap_entries d a; v6 = y; asn = x }), done)))).0
        ≡ new_bootstrap d (ok a) b (fetch_services iana_asn_bootstrap w).0
  unfolding after_fetch new_bootstrap fetch_asn_bootstrap
  second_fetch d a (err e) w = refl
  second_fetch d a (ok s) w =
      third_fetch d a s (fetch_services iana_asn_bootstrap w).0
        (fetch_services iana_asn_bootstrap w).1

  first_fetch :
      (d : Decoders) (a : Result Text (List (List Text))) (w : W)
      → (after_fetch
          (codes "rdap bootstrap ipv4: ")
          ((do s ← a; ok (bootstrap_entries d s)), w)
          (λ z w4.
            after_fetch
              (codes "rdap bootstrap ipv6: ")
              (fetch_bootstrap d iana_ipv6_bootstrap w4)
              (λ y w6.
                after_fetch
                  (codes "rdap bootstrap asn: ")
                  (fetch_asn_bootstrap d iana_asn_bootstrap w6)
                  (λ x done. (ok (record { v4 = z; v6 = y; asn = x }), done))))).0
        ≡ new_bootstrap d a
            (fetch_services iana_ipv6_bootstrap w).0
            (fetch_services iana_asn_bootstrap (fetch_services iana_ipv6_bootstrap w).1).0
  unfolding after_fetch new_bootstrap fetch_bootstrap
  first_fetch d (err e) w = refl
  first_fetch d (ok s) w =
      second_fetch d s (fetch_services iana_ipv6_bootstrap w).0
        (fetch_services iana_ipv6_bootstrap w).1

  -- What the later fetches give is not looked at behind one that failed.
  pub fetch_all-new_bootstrap :
      (d : Decoders) (w : W)
      → let ipv4 = fetch_services iana_ipv4_bootstrap w in
        let ipv6 = fetch_services iana_ipv6_bootstrap ipv4.1 in
        let asns = fetch_services iana_asn_bootstrap ipv6.1 in
        (fetch_all d w).0 ≡ new_bootstrap d ipv4.0 ipv6.0 asns.0
  unfolding fetch_all fetch_bootstrap
  fetch_all-new_bootstrap d w =
      first_fetch d (fetch_services iana_ipv4_bootstrap w).0
        (fetch_services iana_ipv4_bootstrap w).1
