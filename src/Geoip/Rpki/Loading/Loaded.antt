-- ===== src/Geoip/Rpki/Loading/Loaded.antt =====
-- What a dump that loads holds.
use mathlib.Core.Path.{subst}
use proto_ip.Prelude.{
  Bool-cases, List, Option, Result, [], err, false, inl, inr, list_eq, nat_eq, ok, refl, some, suc,
  sym, true, zero, ℕ, ◌==◌, ◌↔◌, ◌∙◌, ◌∷◌, ◌≡◌, ◌⊎◌,
}
use proto_ip.Geoip.Rpki.{RpkiSet, VrpJson, add, add_all, empty_set}
use proto_ip.Geoip.Rpki.Loading.{
  Decoder, Token, array_start, eof, load_elements, load_tokens, load_value, other_token,
  token_error, word,
}
use proto_ip.Golang.NetText.{NetText}
use proto_ip.Golang.Text.{Text, codes}

-- `es` are the elements of the array that is read from `d`, up to its end.
pub data Decodes {D : Type 0} (dec : Decoder D) : D → List VrpJson → Type 0 where
  done : {d : D} → dec.more d ≡ false → Decodes dec d []
  row :
      {d : D} {e : VrpJson} {es : List VrpJson}
      → dec.more d ≡ true
      → (dec.decode d).0 ≡ ok e
      → Decodes dec (dec.decode d).1 es
      → Decodes dec d (e ∷ es)

-- A token that the loop over the tokens passes over: neither a key "roas" nor an end.
pub data IsPassed : Token → Type 0 where
  a_word : {key : Text} → (key == codes "roas") ≡ false → IsPassed (word key)
  an_array : IsPassed array_start
  another : IsPassed other_token

-- The value of a key "roas" that is no array.
pub data IsScalar : Token → Type 0 where
  a_word : {w : Text} → IsScalar (word w)
  another : IsScalar other_token

-- The loop over the tokens gets from one state to the other.
pub data Passes {D : Type 0} (dec : Decoder D) : D → D → Type 0 where
  here : {d : D} → Passes dec d d
  token : {d f : D} → IsPassed (dec.token d).0 → Passes dec (dec.token d).1 f → Passes dec d f
  roas_count :
      {d f : D} {key : Text}
      → (dec.token d).0 ≡ word key
      → (key == codes "roas") ≡ true
      → IsScalar (dec.token (dec.token d).1).0
      → Passes dec (dec.token (dec.token d).1).1 f
      → Passes dec d f

-- A key "roas" whose array is read from `g` on.
pub record Opens {D : Type 0} (dec : Decoder D) (d g : D) : Type 0 where
  pub key : Text
  pub at_key : (dec.token d).0 ≡ word key
  pub is_roas : (key == codes "roas") ≡ true
  pub at_array : (dec.token (dec.token d).1).0 ≡ array_start
  pub behind : (dec.token (dec.token d).1).1 ≡ g

-- The set that a dump loads as: the elements of the first array "roas" added in order, or the
-- empty set at the end of the input.
abbrev pub IsLoaded : {D : Type 0} → NetText → Decoder D → D → RpkiSet → Type 0
IsLoaded {D} t dec d s =
    (f : D) × Passes dec d f
    × (((dec.token f).0 ≡ eof) × (s ≡ empty_set)
        ⊎ ((g : D) × (es : List VrpJson) × Opens dec f g
            × Decodes dec g es
            × (s ≡ add_all t es empty_set)))

module _ {D : Type 0} (t : NetText) (dec : Decoder D) where
  decoded-Decodes :
      (fuel : ℕ) (d : D) (s r : RpkiSet)
      → dec.more d ≡ true
      → ((row : VrpJson)
          → load_elements t dec fuel (dec.decode d).1 (add t row s) ≡ some (ok r)
          → (es : List VrpJson) × Decodes dec (dec.decode d).1 es
            × (r ≡ add_all t es (add t row s)))
      → (x : Result Text VrpJson) → (dec.decode d).0 ≡ x
      → load_elements t dec (suc fuel) d s ≡ some (ok r)
      → (es : List VrpJson) × Decodes dec d es × (r ≡ add_all t es s)
  unfolding load_elements add_all
  decoded-Decodes fuel d s r go rest (err e) at_error h =
      absurd (cc (rw (go, at_error, load_elements) at h))
  decoded-Decodes fuel d s r go rest (ok x) at_row h =
      let (es, read, e) = rest x (rw (go, at_row, load_elements) at h) in
      (x ∷ es, row go at_row read, e)

  elements-Decodes :
      (fuel : ℕ) (d : D) (s r : RpkiSet)
      → load_elements t dec fuel d s ≡ some (ok r)
      → (es : List VrpJson) × Decodes dec d es × (r ≡ add_all t es s)
  unfolding load_elements add_all
  elements-Decodes zero d s r h = absurd cc
  elements-Decodes (suc fuel) d s r h = elim (Bool-cases (dec.more d)) [
    | inr stop ↦ ([], done stop, cc (rw (stop, load_elements) at h))
    | inl go ↦
        decoded-Decodes fuel d s r go (λ x. elements-Decodes fuel (dec.decode d).1 (add t x s) r)
          (dec.decode d).0 refl h
  ]

  Decodes-elements :
      (d : D) (es : List VrpJson)
      → Decodes dec d es
      → (s : RpkiSet) → (fuel : ℕ) × (load_elements t dec fuel d s ≡ some (ok (add_all t es s)))
  unfolding load_elements add_all
  Decodes-elements d [] (done stop) s = (1, rw (stop, load_elements) refl)
  Decodes-elements d (e ∷ es) (row go at_row rest) s =
      let (fuel, h) = Decodes-elements (dec.decode d).1 es rest (add t e s) in
      (suc fuel, rw (go, at_row, load_elements) h)

  value-IsLoaded :
      (fuel : ℕ) (d : D) (s : RpkiSet) (key : Text)
      → ((e : D) → load_tokens t dec fuel e ≡ some (ok s) → IsLoaded t dec e s)
      → (dec.token d).0 ≡ word key
      → (key == codes "roas") ≡ true
      → (tk : Token) → (dec.token (dec.token d).1).0 ≡ tk
      → load_value t dec fuel (load_tokens t dec fuel) tk (dec.token (dec.token d).1).1
        ≡ some (ok s)
      → IsLoaded t dec d s
  unfolding load_value
  value-IsLoaded fuel d s key rest e same (token_error x) v h = absurd cc
  value-IsLoaded fuel d s key rest e same eof v h = absurd cc
  value-IsLoaded fuel d s key rest e same array_start v h =
      let (es, read, made) = elements-Decodes fuel _ empty_set s h in
      (
        d,
        here,
        inr (
          _,
          es,
          record { key = key; at_key = e; is_roas = same; at_array = v; behind = refl },
          read,
          made,
        ),
      )
  value-IsLoaded fuel d s key rest e same (word w) v h =
      let (f, passed, held) = rest _ h in
      (f, roas_count e same (subst IsScalar (sym v) IsScalar.a_word) passed, held)
  value-IsLoaded fuel d s key rest e same other_token v h =
      let (f, passed, held) = rest _ h in
      (f, roas_count e same (subst IsScalar (sym v) IsScalar.another) passed, held)

  round-IsLoaded :
      (fuel : ℕ) (d : D) (s : RpkiSet)
      → ((e : D) → load_tokens t dec fuel e ≡ some (ok s) → IsLoaded t dec e s)
      → (tk : Token) → (dec.token d).0 ≡ tk
      → load_tokens t dec (suc fuel) d ≡ some (ok s)
      → IsLoaded t dec d s
  unfolding load_tokens
  round-IsLoaded fuel d s rest eof e h = (d, here, inl (e, cc (rw (e, load_tokens) at h)))
  round-IsLoaded fuel d s rest (token_error x) e h = absurd (cc (rw (e, load_tokens) at h))
  round-IsLoaded fuel d s rest array_start e h =
      let (f, passed, held) = rest _ (rw (e, load_tokens) at h) in
      (f, Passes.token (subst IsPassed (sym e) IsPassed.an_array) passed, held)
  round-IsLoaded fuel d s rest other_token e h =
      let (f, passed, held) = rest _ (rw (e, load_tokens) at h) in
      (f, Passes.token (subst IsPassed (sym e) IsPassed.another) passed, held)
  round-IsLoaded fuel d s rest (word key) e h = elim (Bool-cases (key == codes "roas")) [
    | inl same ↦ value-IsLoaded fuel d s key rest e same _ refl (rw (e, load_tokens, same) at h)
    | inr other ↦
        let (f, passed, held) = rest _ (rw (e, load_tokens, other) at h) in
        (f, Passes.token (subst IsPassed (sym e) (IsPassed.a_word other)) passed, held)
  ]

  tokens-IsLoaded :
      (fuel : ℕ) (d : D) (s : RpkiSet) → load_tokens t dec fuel d ≡ some (ok s) → IsLoaded t dec d s
  unfolding load_tokens
  tokens-IsLoaded zero d s h = absurd cc
  tokens-IsLoaded (suc fuel) d s h =
      round-IsLoaded fuel d s (λ e. tokens-IsLoaded fuel e s) (dec.token d).0 refl h

  -- A token that is passed over, in one round.
  IsPassed-round :
      (d : D) (fuel : ℕ) {tk : Token}
      → (dec.token d).0 ≡ tk
      → IsPassed tk
      → load_tokens t dec (suc fuel) d ≡ load_tokens t dec fuel (dec.token d).1
  unfolding load_tokens
  IsPassed-round d fuel e (IsPassed.a_word other) = rw (e, load_tokens, other) refl
  IsPassed-round d fuel e IsPassed.an_array = rw (e, load_tokens) refl
  IsPassed-round d fuel e IsPassed.another = rw (e, load_tokens) refl

  -- A key "roas", in one round.
  key-round :
      (d : D) (fuel : ℕ) (key : Text)
      → (dec.token d).0 ≡ word key
      → (key == codes "roas") ≡ true
      → load_tokens t dec (suc fuel) d
        ≡ load_value t dec fuel
            (load_tokens t dec fuel)
            (dec.token (dec.token d).1).0
            (dec.token (dec.token d).1).1
  unfolding load_tokens
  key-round d fuel key e same = rw (e, load_tokens, same) refl

  IsScalar-value :
      (d : D) (fuel : ℕ) {tk : Token}
      → IsScalar tk
      → load_value t dec fuel (load_tokens t dec fuel) tk d ≡ load_tokens t dec fuel d
  unfolding load_value
  IsScalar-value d fuel IsScalar.a_word = refl
  IsScalar-value d fuel IsScalar.another = refl

  Passes-tokens :
      (d f : D) (r : Option (Result Text RpkiSet))
      → Passes dec d f
      → (fuel : ℕ) × (load_tokens t dec fuel f ≡ r)
      → (fuel : ℕ) × (load_tokens t dec fuel d ≡ r)
  Passes-tokens d f r here h = h
  Passes-tokens d f r (Passes.token p rest) h =
      let (fuel, e) = Passes-tokens (dec.token d).1 f r rest h in
      (suc fuel, IsPassed-round d fuel refl p ∙ e)
  Passes-tokens d f r (roas_count e same p rest) h =
      let (fuel, g) = Passes-tokens (dec.token (dec.token d).1).1 f r rest h in
      (suc fuel, key-round d fuel _ e same ∙ IsScalar-value _ fuel p ∙ g)

  held-tokens :
      (f : D) (s : RpkiSet)
      → ((dec.token f).0 ≡ eof) × (s ≡ empty_set)
        ⊎ ((g : D) × (es : List VrpJson) × Opens dec f g
            × Decodes dec g es
            × (s ≡ add_all t es empty_set))
      → (fuel : ℕ) × (load_tokens t dec fuel f ≡ some (ok s))
  unfolding load_tokens load_value
  held-tokens f s (inl (e, none_read)) = (1, rw (e, load_tokens, none_read) refl)
  held-tokens f s (inr (g, es, opens, read, made)) =
      let (fuel, h) = Decodes-elements g es read empty_set in
      (
        suc fuel,
        key-round f fuel opens.key opens.at_key opens.is_roas
            ∙ rw (opens.at_array, opens.behind, made) h,
      )

-- The loop over the tokens gives a set, on some amount of fuel, just when the set is what the dump
-- holds: the elements of the array behind the first key "roas" that has an array, added one after
-- the other, a key "roas" with a scalar being passed over; or the empty set if the input ends
-- without such an array.
pub load_tokens_iff :
    {D : Type 0} (t : NetText) (dec : Decoder D) (d : D) (s : RpkiSet)
    → ((fuel : ℕ) × (load_tokens t dec fuel d ≡ some (ok s))) ↔ IsLoaded t dec d s
load_tokens_iff t dec d s = (
  λ (fuel, h). tokens-IsLoaded t dec fuel d s h,
  λ (f, passed, held). Passes-tokens t dec d f _ passed (held-tokens t dec f s held),
)
