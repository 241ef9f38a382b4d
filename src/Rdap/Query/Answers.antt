-- ===== src/Rdap/Query/Answers.antt =====
-- What a query answers.
use proto_ip.Prelude.{
  Bool-cases, Option-cases, Result, ap, beq→eq, err, inl, inr, list_eq, nat_eq, none, ok, refl, sym,
  ℕ, ◌++◌, ◌==◌, ◌>>=◌, ◌↔◌, ◌∙◌, ◌≡◌,
}
use proto_ip.Golang.Scanner.{Reader}
use proto_ip.Golang.Text.{Text, codes}
use proto_ip.Messages.Rdap.{RdapResponse}
use proto_ip.Rdap.Parse.{RdapJson, network_of}
use proto_ip.Rdap.Query.{RdapNet, body_of, get_body, parsed, query, read_body}

-- The body of an answer is read whole and has the status 200.
pub record IsAnswer {W : Type 0} (n : RdapNet W) (url : Text) (w : W) (body : Text) : Type 0 where
  pub reader : Reader
  pub requested : n.request_error url ≡ none
  pub received : (n.http url w).0 ≡ ok (200, reader)
  pub whole : reader.failure ≡ none
  pub content : reader.content ≡ body

read_body→whole :
    (url : Text) (resp : ℕ × Reader) (body : Text)
    → read_body url resp ≡ ok body
    → (resp.0 ≡ 200) × (resp.1.failure ≡ none) × (resp.1.content ≡ body)
unfolding read_body
read_body→whole url resp body h = elim (Option-cases resp.1.failure) [
  | inr (e, broken) ↦ absurd (cc (rw (broken, read_body) at h))
  | inl whole ↦ elim (Bool-cases (resp.0 == 200)) [
    | inr bad ↦ absurd (cc (rw (whole, bad, read_body) at h))
    | inl good ↦ (beq→eq resp.0 200 good, whole, cc (rw (whole, good, read_body) at h))
  ]
]

module _ {W : Type 0} (n : RdapNet W) where
  body_of→IsAnswer :
      (url body : Text) (w : W) (r : Result Text (ℕ × Reader))
      → n.request_error url ≡ none
      → (n.http url w).0 ≡ r
      → body_of url r ≡ ok body
      → IsAnswer n url w body
  unfolding body_of
  body_of→IsAnswer url body w (err e) q a h = cc
  body_of→IsAnswer url body w (ok (code, r)) q a h =
      let (p, whole, content) = read_body→whole url (code, r) body h in
      record {
        reader = r;
        requested = q;
        received = a ∙ ap (λ (k : ℕ). ok (k, r)) p;
        whole = whole;
        content = content;
      }

  get_body→IsAnswer :
      (url body : Text) (w : W) → (get_body n url w).0 ≡ ok body → IsAnswer n url w body
  unfolding get_body
  get_body→IsAnswer url body w h = elim (Option-cases (n.request_error url)) [
    | inr (e, bad) ↦ absurd (cc (rw (bad, get_body) at h))
    | inl good ↦ body_of→IsAnswer url body w (n.http url w).0 good refl (rw (good, get_body) at h)
  ]

  IsAnswer→get_body :
      (url body : Text) (w : W) → IsAnswer n url w body → (get_body n url w).0 ≡ ok body
  unfolding get_body body_of read_body
  IsAnswer→get_body url body w a =
      rw (a.requested, get_body)
        (rw (a.received, body_of) (rw (a.whole, read_body) (ap ok a.content)))

  -- What a query's success rests on: an answer with the status 200 whose body was read whole, is kept
  -- as the raw JSON, and decodes to the network, labelled with the registry's server.
  pub record IsReply (url server : Text) (w : W) (resp : RdapResponse) : Type 0 where
    pub answer : IsAnswer n url w resp.raw_json
    pub json : RdapJson
    pub decoded : n.decode_network resp.raw_json ≡ ok json
    pub made : resp.network ≡ network_of n.json json server

  parsed→made :
      (server body : Text) (resp : RdapResponse)
      → parsed n server body ≡ ok resp
      → (json : RdapJson) × (n.decode_network body ≡ ok json)
        × (resp.network ≡ network_of n.json json server)
        × (resp.raw_json ≡ body)
  unfolding parsed
  parsed→made server body resp h = of_json (n.decode_network body) refl h
    where
      of_json :
          (r : Result Text RdapJson)
          → n.decode_network body ≡ r
          → (elim r [
            | err e ↦ err (codes "parsing RDAP response: " ++ e)
            | ok j ↦ ok (record { network = network_of n.json j server; raw_json = body })
          ])
            ≡ ok resp
          → (json : RdapJson) × (n.decode_network body ≡ ok json)
            × (resp.network ≡ network_of n.json json server)
            × (resp.raw_json ≡ body)
      of_json (err e) d k = cc
      of_json (ok j) d k =
          let m : RdapResponse = record { network = network_of n.json j server; raw_json = body } in
          let same : resp ≡ m = cc (k) in
          (
            j,
            d,
            ap (λ (x : RdapResponse). x.network) same,
            ap (λ (x : RdapResponse). x.raw_json) same,
          )

  query→IsReply :
      (url server : Text) (w : W) (resp : RdapResponse)
      → (query n url server w).0 ≡ ok resp
      → IsReply url server w resp
  unfolding query
  query→IsReply url server w resp h = of_body (get_body n url w).0 refl h
    where
      of_body :
          (r : Result Text Text)
          → (get_body n url w).0 ≡ r
          → (r >>= parsed n server) ≡ ok resp
          → IsReply url server w resp
      of_body (err e) g k = cc
      of_body (ok body) g k =
          let (json, decoded, made, same) = parsed→made server body resp k in
          record {
            answer = get_body→IsAnswer url resp.raw_json w (g ∙ ap ok (sym same));
            json = json;
            decoded = ap n.decode_network same ∙ decoded;
            made = made;
          }

  -- A query succeeds with a response exactly if the request can be made, its answer has the status
  -- 200, the body is read whole and is the response's raw JSON, and it decodes to the response's
  -- network, labelled with the registry's server.
  pub query_iff :
      (url server : Text) (w : W) (resp : RdapResponse)
      → ((query n url server w).0 ≡ ok resp) ↔ IsReply url server w resp
  unfolding query parsed
  query_iff url server w resp = (
    query→IsReply url server w resp,
    λ h.
        rw (IsAnswer→get_body url resp.raw_json w h.answer)
          (rw (h.decoded, parsed) (ap ok (rw (sym h.made) refl))),
  )
