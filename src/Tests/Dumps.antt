-- ===== src/Tests/Dumps.antt =====
-- A dump as the list of its tokens, with a count "roas" before the array of one element.
use proto_ip.Prelude.{
  Bool, List, [], arith, err, false, inl, inr, length, list_beq, ok, refl, some, true, ℕ, ◌<◌, ◌↔◌,
  ◌∷◌, ◌≡◌, ◌⊎◌,
}
use proto_ip.Geoip.Rpki.{VrpJson, add_all, empty_set}
use proto_ip.Geoip.Rpki.Loading.{
  Decoder, Token, array_start, eof, load_elements, load_tokens, load_value, other_token,
  token_error, word,
}
use proto_ip.Geoip.Rpki.Loading.Loaded.{IsLoaded, load_tokens_iff}
use proto_ip.Geoip.Rpki.Loading.Termination.{Consumes, Settles, load_tokens-Settles}
use proto_ip.Golang.Ints.{pos}
use proto_ip.Golang.Text.{Text, codes}
use proto_ip.Tests.Samples.{texts}

abbrev element : VrpJson
element = record { prefix = codes "10.0.0.0/8"; max_length = pos 8; asn = codes "64496" }

-- The end of an array is `other_token`; every other token in it is the element.
abbrev goes_on : List Token → Bool
goes_on [] = false
goes_on (other_token ∷ d) = false
goes_on (_ ∷ d) = true

abbrev first_token : List Token → Token × List Token
first_token [] = (eof, [])
first_token (tk ∷ d) = (tk, d)

abbrev decoder : Decoder (List Token)
decoder = record {
  token = first_token;
  more = goes_on;
  decode = λ d. (ok element, (first_token d).1);
}

consumes : Consumes decoder
consumes = record { size = length; token_step = shorter; decode_step = shorter_element }
  where
    shorter :
        (d : List Token)
        → ((first_token d).0 ≡ eof)
          ⊎ ((e : Text) × ((first_token d).0 ≡ token_error e))
          ⊎ (length (first_token d).1 < length d)
    shorter [] = inl refl
    shorter (tk ∷ d) = inr (inr (omega arith))

    shorter_element :
        (d : List Token)
        → goes_on d ≡ true
        → ((e : Text) × (ok element ≡ err e)) ⊎ (length (first_token d).1 < length d)
    shorter_element [] h = absurd cc
    shorter_element (tk ∷ d) h = inr (omega arith)

abbrev dump : List Token
dump =
    word (codes "roas")
    ∷ other_token
    ∷ word (codes "roas")
    ∷ array_start
    ∷ word (codes "element")
    ∷ other_token
    ∷ []

load_tokens-Settles_example :
    Settles (λ fuel. load_tokens texts decoder fuel dump) (consumes.size dump)
load_tokens-Settles_example = load_tokens-Settles texts decoder consumes dump

load_tokens_iff_example :
    ((fuel : ℕ) × (load_tokens texts decoder fuel dump
        ≡ some (ok (add_all texts (element ∷ []) empty_set))))
    ↔ IsLoaded texts decoder dump (add_all texts (element ∷ []) empty_set)
load_tokens_iff_example =
    load_tokens_iff texts decoder dump (add_all texts (element ∷ []) empty_set)

-- The count is passed over, and the array is read.
one_element : load_tokens texts decoder 7 dump ≡ some (ok (add_all texts (element ∷ []) empty_set))
unfolding load_tokens load_value load_elements add_all list_beq
one_element = refl
