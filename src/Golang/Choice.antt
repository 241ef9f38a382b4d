-- ===== src/Golang/Choice.antt =====
-- Texts chosen from lists of texts, by the first or the last that is there.
use proto_ip.Prelude.{
  List, [], filter, filter-append, if◌then◌else◌, is_empty, not, refl, ◌++◌, ◌∷◌, ◌≡◌,
}
use proto_ip.Golang.Text.{Text}

-- The first text of a list that is not empty; empty if there is none.
unfoldable pub first_text : List Text → Text
first_text [] = []
first_text (t ∷ ts) = let rest = first_text ts in if is_empty t then rest else t

-- The value kept so far unless it is empty, else the first offer.
unfoldable pub keep_or : Text → List Text → Text
keep_or t ts = first_text (t ∷ ts)

pub keep_or-append :
    (t : Text) (xs ys : List Text) → keep_or t (xs ++ ys) ≡ keep_or (keep_or t xs) ys
unfolding keep_or first_text
keep_or-append (c ∷ t) xs ys = refl
keep_or-append [] [] ys = refl
keep_or-append [] ([] ∷ xs) ys = keep_or-append [] xs ys
keep_or-append [] ((c ∷ x) ∷ xs) ys = refl

pub keep_or_none : (t : Text) → keep_or t [] ≡ t
unfolding keep_or first_text
keep_or_none [] = refl
keep_or_none (c ∷ t) = refl

pub keep_or_one : (t x : Text) → keep_or t (x ∷ []) ≡ (if is_empty t then x else t)
unfolding keep_or first_text
keep_or_one [] [] = refl
keep_or_one [] (c ∷ x) = refl
keep_or_one (c ∷ t) x = refl

-- The last text of a list behind `t`.
unfoldable pub last_text : Text → List Text → Text
last_text t [] = t
last_text t (x ∷ xs) = last_text x xs

pub last_text-append :
    (t : Text) (xs ys : List Text) → last_text t (xs ++ ys) ≡ last_text (last_text t xs) ys
unfolding last_text
last_text-append t [] ys = refl
last_text-append t (x ∷ xs) ys = last_text-append x xs ys

-- The texts that are not empty.
unfoldable pub given : List Text → List Text
given ts = filter (λ (t : Text). not (is_empty t)) ts

pub given-append : (xs ys : List Text) → given (xs ++ ys) ≡ given xs ++ given ys
unfolding given
given-append xs ys = filter-append (λ (t : Text). not (is_empty t)) xs ys
