-- ===== src/Geoip/Rpki/Loading.antt =====
-- geoip/rpki.go, `parseVRPs`: the loop over the tokens of the dump. The decoder of encoding/json is
-- a parameter: a state that gives a token, says whether an array goes on, and decodes an element.
pub mod Loaded
pub mod Termination
use proto_ip.Prelude.{
  Bool, Option, Result, err, false, if◌then◌else◌, list_eq, nat_eq, none, ok, some, suc, true, zero,
  ℕ, ◌++◌, ◌==◌,
}
use proto_ip.Geoip.Rpki.{RpkiSet, VrpJson, add, empty_set}
use proto_ip.Golang.NetText.{NetText}
use proto_ip.Golang.Text.{Text, codes}

-- What dec.Token() gives: a string, the delimiter of an array, anything else, io.EOF or an error.
pub data Token : Type 0 where
  word : Text → Token
  array_start : Token
  other_token : Token
  eof : Token
  token_error : Text → Token

pub record Decoder (D : Type 0) : Type 0 where
  pub token : D → Token × D
  pub more : D → Bool
  pub decode : D → Result Text VrpJson × D

module _ {D : Type 0} (t : NetText) (dec : Decoder D) where
  -- The loop over the elements of the array; none is out of fuel.
  unfoldable pub load_elements : ℕ → D → RpkiSet → Option (Result Text RpkiSet)
  load_elements zero d s = none
  load_elements (suc fuel) d s = elim (dec.more d) [
    | false ↦ some (ok s)
    | true ↦ elim (dec.decode d).0 [
      | err e ↦ some (err (codes "rpki: decode ROA: " ++ e))
      | ok row ↦ load_elements fuel (dec.decode d).1 (add t row s)
    ]
  ]

  -- What follows a key "roas": its array, or the loop goes on behind a scalar.
  unfoldable pub load_value :
      ℕ → (D → Option (Result Text RpkiSet)) → Token → D → Option (Result Text RpkiSet)
  load_value fuel go_on (token_error e) d = some (err (codes "rpki: " ++ e))
  load_value fuel go_on eof d = some (err (codes "rpki: EOF"))
  load_value fuel go_on array_start d = load_elements fuel d empty_set
  load_value fuel go_on _ d = go_on d

  -- The loop over the tokens.
  unfoldable pub load_tokens : ℕ → D → Option (Result Text RpkiSet)
  load_tokens zero d = none
  load_tokens (suc fuel) d = elim (dec.token d).0 [
    | eof ↦ some (ok empty_set)
    | token_error e ↦ some (err (codes "rpki: " ++ e))
    | word key ↦
        if key == codes "roas"
        then load_value fuel (load_tokens fuel) (dec.token (dec.token d).1).0
            (dec.token (dec.token d).1).1
        else load_tokens fuel (dec.token d).1
    | array_start ↦ load_tokens fuel (dec.token d).1
    | other_token ↦ load_tokens fuel (dec.token d).1
  ]
