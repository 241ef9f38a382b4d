-- ===== src/Geoip/Rpki/Loading/Termination.antt =====
-- Fuel for the loops over the dump.
use proto_ip.Prelude.{
  Bool-cases, Option, Result, arith, err, inl, inr, list_eq, nat_eq, ok, refl, some, suc, true,
  zero, ℕ, ◌++◌, ◌<◌, ◌==◌, ◌∙◌, ◌≡◌, ◌≤◌, ◌⊎◌,
}
use proto_ip.Geoip.Rpki.{RpkiSet, VrpJson, add, empty_set}
use proto_ip.Geoip.Rpki.Loading.{
  Decoder, Token, array_start, eof, load_elements, load_tokens, load_value, other_token,
  token_error, word,
}
use proto_ip.Golang.NetText.{NetText}
use proto_ip.Golang.Text.{Text, codes}

-- What the loops rely on: a token or an element that is read is read from the input, of which
-- `size` is left. The end of the input and an error need not shorten it.
pub record Consumes {D : Type 0} (dec : Decoder D) : Type 0 where
  pub size : D → ℕ
  pub token_step :
      (d : D)
      → ((dec.token d).0 ≡ eof)
        ⊎ ((e : Text) × ((dec.token d).0 ≡ token_error e))
        ⊎ (size (dec.token d).1 < size d)
  pub decode_step :
      (d : D)
      → dec.more d ≡ true
      → ((e : Text) × ((dec.decode d).0 ≡ err e)) ⊎ (size (dec.decode d).1 < size d)

positive : (m fuel : ℕ) → m < fuel → (k : ℕ) × (fuel ≡ suc k) × (m ≤ k)
positive m zero lt = absurd (omega arith)
positive m (suc k) lt = (k, refl, omega arith)

-- The same result from every amount of fuel above `m`.
abbrev pub Settles : (ℕ → Option (Result Text RpkiSet)) → ℕ → Type 0
Settles run m = (r : Result Text RpkiSet) × ((fuel : ℕ) → m < fuel → run fuel ≡ some r)

-- A loop settles if, with one round taken, it is done or goes on as a loop that settles.
Settles-done :
    (run : ℕ → Option (Result Text RpkiSet)) (m : ℕ) (r : Result Text RpkiSet)
    → ((k : ℕ) → run (suc k) ≡ some r)
    → Settles run m
Settles-done run m r h = (r, λ fuel lt. let (k, e, le) = positive m fuel lt in rw e (h k))

Settles-next :
    (run later : ℕ → Option (Result Text RpkiSet)) (m n : ℕ)
    → n < m
    → ((k : ℕ) → run (suc k) ≡ later k)
    → Settles later n
    → Settles run m
Settles-next run later m n lt h (r, s) =
    (r, λ fuel above. let (k, e, le) = positive m fuel above in rw e (h k ∙ s k (omega arith)))

module _ {D : Type 0} (t : NetText) (dec : Decoder D) (c : Consumes dec) where
  -- One round of the loop over the elements, given that the loop settles behind the element.
  decoded-Settles :
      (d : D) (s : RpkiSet)
      → dec.more d ≡ true
      → (c.size (dec.decode d).1 < c.size d
          → (row : VrpJson)
          → Settles
              (λ fuel. load_elements t dec fuel (dec.decode d).1 (add t row s))
              (c.size (dec.decode d).1))
      → (r : Result Text VrpJson) → (dec.decode d).0 ≡ r
      → Settles (λ fuel. load_elements t dec fuel d s) (c.size d)
  unfolding load_elements
  decoded-Settles d s go rest (err e) at_error =
      Settles-done _ _ (err (codes "rpki: decode ROA: " ++ e))
        (λ k. rw (go, at_error, load_elements) refl)
  decoded-Settles d s go rest (ok row) at_row = elim (c.decode_step d go) [
    | inl (e, bad) ↦ absurd (cc (at_row, bad))
    | inr shorter ↦
        Settles-next _ _ _ _ shorter (λ k. rw (go, at_row, load_elements) refl) (rest shorter row)
  ]

  elements-Settles :
      (n : ℕ) (d : D) (s : RpkiSet)
      → c.size d < n
      → Settles (λ fuel. load_elements t dec fuel d s) (c.size d)
  unfolding load_elements
  elements-Settles zero d s lt = absurd (omega arith)
  elements-Settles (suc n) d s lt = elim (Bool-cases (dec.more d)) [
    | inr stop ↦ Settles-done _ _ (ok s) (λ k. rw (stop, load_elements) refl)
    | inl go ↦
        decoded-Settles d s go
          (λ shorter row. elements-Settles n (dec.decode d).1 (add t row s) (omega arith))
          (dec.decode d).0 refl
  ]

  -- What follows a key "roas" settles with the loop that goes on behind it.
  value-Settles :
      (tk : Token) (d : D)
      → Settles (λ fuel. load_tokens t dec fuel d) (c.size d)
      → Settles (λ fuel. load_value t dec fuel (load_tokens t dec fuel) tk d) (c.size d)
  unfolding load_value
  value-Settles (token_error e) d later = (err (codes "rpki: " ++ e), λ fuel lt. refl)
  value-Settles eof d later = (err (codes "rpki: EOF"), λ fuel lt. refl)
  value-Settles array_start d later = elements-Settles (suc (c.size d)) d empty_set (omega arith)
  value-Settles (word w) d later = later
  value-Settles other_token d later = later

  -- A round at the key "roas".
  key-Settles :
      (d e : D)
      → c.size d < c.size e
      → ((f : D) → c.size f < c.size e → Settles (λ fuel. load_tokens t dec fuel f) (c.size f))
      → ((k : ℕ)
          → load_tokens t dec (suc k) e
            ≡ load_value t dec k (load_tokens t dec k) (dec.token d).0 (dec.token d).1)
      → Settles (λ fuel. load_tokens t dec fuel e) (c.size e)
  unfolding load_value
  key-Settles d e lt rest round = elim (c.token_step d) [
    | inl at_end ↦ Settles-done _ _ (err (codes "rpki: EOF")) (λ k. round k ∙ rw at_end refl)
    | inr (inl (x, bad)) ↦ Settles-done _ _ (err (codes "rpki: " ++ x)) (λ k. round k ∙ rw bad refl)
    | inr (inr shorter) ↦
        Settles-next _ _ _ _ (omega arith) round
          (value-Settles (dec.token d).0 (dec.token d).1 (rest (dec.token d).1 (omega arith)))
  ]

  -- One round of the loop over the tokens, given that the loop settles behind the token.
  round-Settles :
      (d : D) (tk : Token)
      → (dec.token d).0 ≡ tk
      → c.size (dec.token d).1 < c.size d
      → ((f : D) → c.size f < c.size d → Settles (λ fuel. load_tokens t dec fuel f) (c.size f))
      → Settles (λ fuel. load_tokens t dec fuel d) (c.size d)
  unfolding load_tokens
  round-Settles d eof e shorter rest =
      Settles-done _ _ (ok empty_set) (λ k. rw (e, load_tokens) refl)
  round-Settles d (token_error x) e shorter rest =
      Settles-done _ _ (err (codes "rpki: " ++ x)) (λ k. rw (e, load_tokens) refl)
  round-Settles d array_start e shorter rest =
      Settles-next _ _ _ _ shorter (λ k. rw (e, load_tokens) refl) (rest (dec.token d).1 shorter)
  round-Settles d other_token e shorter rest =
      Settles-next _ _ _ _ shorter (λ k. rw (e, load_tokens) refl) (rest (dec.token d).1 shorter)
  round-Settles d (word key) e shorter rest = elim (Bool-cases (key == codes "roas")) [
    | inl same ↦ key-Settles (dec.token d).1 d shorter rest (λ k. rw (e, load_tokens, same) refl)
    | inr other ↦
        Settles-next _ _ _ _ shorter (λ k. rw (e, load_tokens, other) refl)
          (rest (dec.token d).1 shorter)
  ]

  -- From every state there is a result that the loop over the tokens gives on all fuel above the
  -- input left.
  tokens-Settles :
      (n : ℕ) (d : D) → c.size d < n → Settles (λ fuel. load_tokens t dec fuel d) (c.size d)
  unfolding load_tokens
  tokens-Settles zero d lt = absurd (omega arith)
  tokens-Settles (suc n) d lt = elim (c.token_step d) [
    | inl at_end ↦ Settles-done _ _ (ok empty_set) (λ k. rw (at_end, load_tokens) refl)
    | inr (inl (x, bad)) ↦
        Settles-done _ _ (err (codes "rpki: " ++ x)) (λ k. rw (bad, load_tokens) refl)
    | inr (inr shorter) ↦
        round-Settles d (dec.token d).0 refl shorter (λ f less. tokens-Settles n f (omega arith))
  ]

  -- If every token and every element but the end of the input and an error shortens the input,
  -- loading a dump ends: there is a result, a set or an error, that the loop over the tokens gives
  -- on every amount of fuel above the length of the input.
  pub load_tokens-Settles : (d : D) → Settles (λ fuel. load_tokens t dec fuel d) (c.size d)
  load_tokens-Settles d = tokens-Settles (suc (c.size d)) d (omega arith)
