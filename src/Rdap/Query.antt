-- ===== src/Rdap/Query.antt =====
-- rdap/client.go, `query` and `queryAutnum`: a request, and what its answer is read as.
pub mod Answers
pub mod Truncate
pub mod Registry
use proto_ip.Prelude.{
  Option, Result, [], err, if◌then◌else◌, leb, length, list_eq, nat_eq, none, ok, some, ℕ, ◌++◌,
  ◌==◌, ◌>>=◌, ◌∷◌,
}
use proto_ip.Golang.NetIp.{take}
use proto_ip.Golang.Scanner.{Reader}
use proto_ip.Golang.Text.{Text, codes, decimal}
use proto_ip.Messages.Rdap.{RdapAutnumResponse, RdapResponse}
use proto_ip.Rdap.Parse.{AutnumJson, RdapJson, autnum_of, network_of}
use proto_ip.Rdap.Vcard.{JsonText}

-- `len(s) <= n`, and else the first n bytes and the three of an ellipsis
unfoldable pub truncate : Text → ℕ → Text
truncate s n = if leb (length s) n then s else take n s ++ 226 ∷ 128 ∷ 166 ∷ []

pub record RdapNet (W : Type 0) : Type 0 where
  -- http.NewRequestWithContext: none, or its error
  pub request_error : Text → Option Text
  -- c.http.Do: the status and the body
  pub http : Text → W → Result Text (ℕ × Reader) × W
  -- json.Unmarshal of a body
  pub json : JsonText
  pub decode_network : Text → Result Text RdapJson
  pub decode_autnum : Text → Result Text AutnumJson

-- The body of an answer with the status 200.
unfoldable pub read_body : Text → ℕ × Reader → Result Text Text
read_body url resp = elim resp.1.failure [
  | some e ↦ err (codes "reading RDAP response: " ++ e)
  | none ↦
      if resp.0 == 200
      then ok resp.1.content
      else err (
          codes "RDAP server returned HTTP "
          ++ (decimal resp.0
              ++ (codes " for " ++ (url ++ (codes ": " ++ truncate resp.1.content 200)))))
]

unfoldable pub body_of : Text → Result Text (ℕ × Reader) → Result Text Text
body_of url (err e) = err (codes "RDAP GET " ++ (url ++ (codes ": " ++ e)))
body_of url (ok resp) = read_body url resp

module _ {W : Type 0} (n : RdapNet W) where
  -- The part that both queries share: the request and its body.
  unfoldable pub get_body : Text → W → Result Text Text × W
  get_body url w = elim (n.request_error url) [
    | some e ↦ (err e, w)
    | none ↦ (body_of url (n.http url w).0, (n.http url w).1)
  ]

  -- The network of a body.
  unfoldable pub parsed : Text → Text → Result Text RdapResponse
  parsed server body = elim (n.decode_network body) [
    | err e ↦ err (codes "parsing RDAP response: " ++ e)
    | ok r ↦ ok (record { network = network_of n.json r server; raw_json = body })
  ]

  unfoldable pub parsed_autnum : Text → Text → Result Text RdapAutnumResponse
  parsed_autnum server body = elim (n.decode_autnum body) [
    | err e ↦ err (codes "parsing RDAP autnum response: " ++ e)
    | ok r ↦ ok (record { autnum = autnum_of n.json r server; raw_json = body })
  ]

  -- query
  unfoldable pub query : Text → Text → W → Result Text RdapResponse × W
  query url server w = let got = get_body url w in ((do body ← got.0; parsed server body), got.1)

  -- queryAutnum
  unfoldable pub query_autnum : Text → Text → W → Result Text RdapAutnumResponse × W
  query_autnum url server w =
      let got = get_body url w in ((do body ← got.0; parsed_autnum server body), got.1)
