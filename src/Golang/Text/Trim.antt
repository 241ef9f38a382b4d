-- ===== src/Golang/Text/Trim.antt =====
-- strings.TrimSpace and strings.Trim on a text that has nothing to cut.
use mathlib.Core.List.{reverse, reverse_aux}
use proto_ip.Prelude.{
  All, Bool, Bool-cases, List, [], all, arith, beq_refl, beq→eq, false, inl, inr, is_empty, leb,
  length, list_eq, map, nat_eq, none, not, refl, suc, true, zero, ℕ, ◌&&◌, ◌++◌, ◌==◌, ◌∷◌, ◌≡◌,
}
use proto_ip.Golang.Text.{Text, cut_any, cut_prefix, spaces, trim_byte, trim_front, trim_space}

-- A test that a text begins with a byte that no text within `inner` has.
refused : (ℕ → Bool) → Text → Bool
refused inner [] = false
refused inner (p ∷ ps) = not (inner p)

-- The bytes of a text are within a test.
abbrev pub Within : (ℕ → Bool) → Text → Type 0
Within inner = All (λ c. inner c ≡ true)

cut_prefix-none :
    (inner : ℕ → Bool) (s p : Text)
    → refused inner p ≡ true
    → Within inner s
    → cut_prefix s p ≡ none
unfolding cut_prefix refused
cut_prefix-none inner s [] h k = cc
cut_prefix-none inner [] (p ∷ q) h k = refl
cut_prefix-none inner (c ∷ s) (p ∷ q) h k = elim (Bool-cases (c == p)) [
  | inl e ↦ absurd (differ p (beq→eq c p e) h)
  | inr e ↦ rw (e, cut_prefix) refl
]
  where
    differ : (b : ℕ) → c ≡ b → not (inner b) ≡ true → ⊥
    differ b e f = cc (e, f, k.0)

cut_any-none :
    (inner : ℕ → Bool) (ps : List Text) (s : Text)
    → all (refused inner) ps ≡ true
    → Within inner s
    → cut_any ps s ≡ none
unfolding cut_any
cut_any-none inner [] s h k = refl
cut_any-none inner (p ∷ ps) s h k =
    let parts : (refused inner p ≡ true) × (all (refused inner) ps ≡ true) = ground (arith, h) in
    rw (cut_prefix-none inner s p parts.0 k, cut_any) (cut_any-none inner ps s parts.1 k)

-- Nothing is cut in front of a byte that no cut text begins with.
trim_front-none :
    (inner : ℕ → Bool) (ps : List Text) (fuel : ℕ) (s : Text)
    → all (refused inner) ps ≡ true
    → Within inner s
    → trim_front ps fuel s ≡ s
unfolding trim_front
trim_front-none inner ps zero s h k = refl
trim_front-none inner ps (suc fuel) s h k = rw (cut_any-none inner ps s h k, trim_front) refl

Within-reverse_aux :
    (inner : ℕ → Bool) (xs ys : Text)
    → Within inner xs
    → Within inner ys
    → Within inner (reverse_aux xs ys)
Within-reverse_aux inner [] ys hx hy = hy
Within-reverse_aux inner (x ∷ xs) ys hx hy = Within-reverse_aux inner xs (x ∷ ys) hx.1 (hx.0, hy)

reverse-reverse_aux : (xs ys : Text) → reverse (reverse_aux xs ys) ≡ reverse_aux ys xs
reverse-reverse_aux [] ys = refl
reverse-reverse_aux (x ∷ xs) ys = reverse-reverse_aux xs (x ∷ ys)

reverse_aux-append :
    (xs ys zs : Text) → reverse_aux (xs ++ ys) zs ≡ reverse_aux ys (reverse_aux xs zs)
reverse_aux-append [] ys zs = refl
reverse_aux-append (x ∷ xs) ys zs = reverse_aux-append xs ys (x ∷ zs)

trim_both-none :
    (inner : ℕ → Bool) (ps qs : List Text) (s : Text)
    → all (refused inner) ps ≡ true
    → all (refused inner) qs ≡ true
    → Within inner s
    → (let front = trim_front ps (length s) s in
        reverse (trim_front qs (length front) (reverse front)))
      ≡ s
trim_both-none inner ps qs s hp hq h =
    rw
      (
        trim_front-none inner ps (length s) s hp h,
        trim_front-none inner qs (length s) (reverse s) hq (Within-reverse_aux inner s [] h _),
      )
      (reverse-reverse_aux s [])

-- Printable characters differs_from than a blank.
unfoldable pub graphic : ℕ → Bool
graphic c = leb 33 c && leb c 126

-- A text of printable characters without a blank has no white space to cut.
pub trim_space-Within : (s : Text) → Within graphic s → trim_space s ≡ s
unfolding trim_space graphic refused
trim_space-Within s h = trim_both-none graphic spaces (map reverse spaces) s refl refl h

module _ (b : ℕ) where
  -- Any byte but `b`.
  unfoldable pub differs_from : ℕ → Bool
  differs_from c = not (c == b)

  refused_byte : all (refused differs_from) ((b ∷ []) ∷ []) ≡ true
  unfolding refused differs_from
  refused_byte = rw (beq_refl b) refl

  -- A text without the cut byte is left as it is.
  pub trim_byte-none : (s : Text) → Within differs_from s → trim_byte b s ≡ s
  unfolding trim_byte
  trim_byte-none s h =
      trim_both-none differs_from ((b ∷ []) ∷ []) ((b ∷ []) ∷ []) s refused_byte refused_byte h

  trim_front-stop :
      (fuel c : ℕ) (s : Text)
      → differs_from c ≡ true
      → trim_front ((b ∷ []) ∷ []) fuel (c ∷ s) ≡ c ∷ s
  unfolding trim_front cut_any cut_prefix differs_from
  trim_front-stop zero c s h = refl
  trim_front-stop (suc fuel) c s h =
      let differs : (c == b) ≡ false = ground (arith, h) in rw (differs, trim_front) refl

  trim_front-step :
      (fuel : ℕ) (s : Text)
      → trim_front ((b ∷ []) ∷ []) (suc fuel) (b ∷ s) ≡ trim_front ((b ∷ []) ∷ []) fuel s
  unfolding trim_front cut_any cut_prefix
  trim_front-step fuel s = rw (trim_front, beq_refl b) refl

  -- The cut byte around a text that has none is cut.
  pub trim_byte-around :
      (s : Text) → is_empty s ≡ false → Within differs_from s → trim_byte b (b ∷ (s ++ b ∷ [])) ≡ s
  unfolding trim_byte
  trim_byte-around [] e h = cc
  trim_byte-around (c ∷ s) e h =
      rw
        (
          trim_front-step (length (c ∷ (s ++ b ∷ []))) (c ∷ (s ++ b ∷ [])),
          trim_front-stop (length (c ∷ (s ++ b ∷ []))) c (s ++ b ∷ []) h.0,
          reverse_aux-append s (b ∷ []) (c ∷ []),
          trim_front-step (length (s ++ b ∷ [])) (reverse (c ∷ s)),
          trim_front-none differs_from ((b ∷ []) ∷ []) (length (s ++ b ∷ [])) (reverse (c ∷ s))
              refused_byte (Within-reverse_aux differs_from (c ∷ s) [] h _),
        )
        (reverse-reverse_aux (c ∷ s) [])
