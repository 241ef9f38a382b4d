-- ===== src/Golang/Text/Split.antt =====
-- strings.Split by the places of its separator.
use proto_ip.Prelude.{
  All, Bool-cases, List, [], ap, beq_refl, false, inl, inr, is_empty, list_eq, nat_eq, refl, ℕ,
  ◌++◌, ◌==◌, ◌∙◌, ◌∷◌, ◌≡◌, ◌≢◌,
}
use proto_ip.Golang.Text.{Text, push_first, split}

-- No byte of the text is the separator.
abbrev pub Lacks : ℕ → Text → Type 0
Lacks sep = All (λ c. (c == sep) ≡ false)

-- The fields with the separator between them.
unfoldable pub joined : ℕ → List Text → Text
joined sep [] = []
joined sep (x ∷ []) = x
joined sep (x ∷ y ∷ fs) = x ++ sep ∷ joined sep (y ∷ fs)

push_first-append :
    (c : ℕ) (xs ys : List Text) → xs ≢ [] → push_first c (xs ++ ys) ≡ push_first c xs ++ ys
unfolding push_first
push_first-append c [] ys h = absurd (h refl)
push_first-append c (x ∷ xs) ys h = refl

split-ne-nil : (s : Text) (sep : ℕ) → split s sep ≢ []
unfolding split push_first
split-ne-nil [] sep e = cc
split-ne-nil (c ∷ s) sep e = elim (Bool-cases (c == sep)) [
  | inl at_sep ↦ cc (rw (at_sep, split) at e)
  | inr other ↦ pushed (split s sep) (rw (other, split) at e)
]
  where
    pushed : (fs : List Text) → push_first c fs ≢ []
    pushed [] h = cc
    pushed (f ∷ fs) h = cc

-- A text is split at each separator in it, whatever stands around.
pub split-append : (a b : Text) (sep : ℕ) → split (a ++ sep ∷ b) sep ≡ split a sep ++ split b sep
unfolding split
split-append [] b sep = rw (beq_refl sep) refl
split-append (c ∷ a) b sep = elim (Bool-cases (c == sep)) [
  | inl at_sep ↦ rw (at_sep, split) (ap (λ fs. [] ∷ fs) (split-append a b sep))
  | inr other ↦
      rw (other, split)
        (ap (push_first c) (split-append a b sep)
          ∙ push_first-append c (split a sep) (split b sep) (split-ne-nil a sep))
]

-- A field without a separator is not split.
pub split_whole : (s : Text) (sep : ℕ) → Lacks sep s → split s sep ≡ s ∷ []
unfolding split push_first
split_whole [] sep h = refl
split_whole (c ∷ s) sep h = rw (h.0, split, split_whole s sep h.1) refl

-- Fields that lack the separator are split as they were joined.
pub split-joined :
    (sep : ℕ) (f : Text) (fs : List Text)
    → All (Lacks sep) (f ∷ fs)
    → split (joined sep (f ∷ fs)) sep ≡ f ∷ fs
unfolding joined
split-joined sep f [] h = split_whole f sep h.0
split-joined sep f (g ∷ fs) h =
    split-append f (joined sep (g ∷ fs)) sep
    ∙ rw (split_whole f sep h.0) (ap (λ gs. f ∷ gs) (split-joined sep g fs h.1))

pub is_empty-append : (x : Text) (c : ℕ) (rest : Text) → is_empty (x ++ c ∷ rest) ≡ false
is_empty-append [] c rest = refl
is_empty-append (y ∷ x) c rest = refl
