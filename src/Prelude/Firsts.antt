-- ===== src/Prelude/Firsts.antt =====
-- The value at the first element of a list that has one: what a loop with `break` looks for.
use mathlib.Core.Bool.{Bool, true}
use mathlib.Core.List.{List, [], ◌∷◌, Memᴰ}
use mathlib.Core.List.Memᴰ.{cases_cons}
use mathlib.Core.Logic.{◌⊎◌, inl, inr}
use mathlib.Core.Option.{Option, none, some}
use mathlib.Core.Path.{◌≡◌, refl, sym, ap, ◌∙◌}
use native.Mathlib.Omega.{arith}
use proto_ip.Prelude.Lists.{All, any, filter}
use proto_ip.Prelude.Tests.{Bool-cases, Option-cases}

pub data IsFirst {ℓ κ} {A : Type ℓ} {B : Type κ} (f : A → Option B) (b : B)
    : List A → Type (ℓ ⊔ κ) where
  here : {x : A} {xs : List A} → f x ≡ some b → IsFirst f b (x ∷ xs)
  there : {x : A} {xs : List A} → f x ≡ none → IsFirst f b xs → IsFirst f b (x ∷ xs)

module _ {ℓ κ} {A : Type ℓ} {B : Type κ} (f : A → Option B) where
  -- Either no element has a value, or there is a first one.
  pub IsFirst-cases : (xs : List A) → All (λ x. f x ≡ none) xs ⊎ ((b : B) × IsFirst f b xs)
  IsFirst-cases [] = inl tt
  IsFirst-cases (x ∷ xs) = elim (Option-cases (f x)) [
    | inr (b, e) ↦ inr (b, here e)
    | inl e ↦ elim (IsFirst-cases xs) [ inl h ↦ inl (e, h) | inr (b, h) ↦ inr (b, there e h) ]
  ]

  -- The element that the first value stands at.
  pub IsFirst-mem : {b : B} {xs : List A} → IsFirst f b xs → (x : A) × Memᴰ x xs × (f x ≡ some b)
  IsFirst-mem (here {x = x} e) = (x, Memᴰ.head refl, e)
  IsFirst-mem (there e h) = let (x, m, p) = IsFirst-mem h in (x, Memᴰ.tail m, p)

module _ {ℓ} {A : Type ℓ} (p : A → Bool) where
  pub any→mem : (xs : List A) → any p xs ≡ true → (x : A) × Memᴰ x xs × (p x ≡ true)
  any→mem [] h = absurd (cc)
  any→mem (x ∷ xs) h = elim (Bool-cases (p x)) [
    | inl e ↦ (x, Memᴰ.head refl, e)
    | inr e ↦ let (y, m, q) = any→mem xs (ground (arith, e)) in (y, Memᴰ.tail m, q)
  ]

  pub mem→any : {x : A} {xs : List A} → Memᴰ x xs → p x ≡ true → any p xs ≡ true
  mem→any (Memᴰ.head e) h = ground (arith, ap p e)
  mem→any (Memᴰ.tail m) h = ground (arith, mem→any m h)

  -- What a filter keeps stands in the list and passes the test.
  pub filter-mem : (xs : List A) {x : A} → Memᴰ x (filter p xs) → Memᴰ x xs × (p x ≡ true)
  unfolding filter
  filter-mem [] m = elim m [ ]
  filter-mem (y ∷ ys) {x} m = elim (Bool-cases (p y)) [
    | inr e ↦ let (n, q) = filter-mem ys (rw (e, filter) at m) in (Memᴰ.tail n, q)
    | inl e ↦ elim (cases_cons (rw (e, filter) at m)) [
      | inl same ↦ (Memᴰ.head same, ap p same ∙ e)
      | inr n ↦ let (n', q) = filter-mem ys n in (Memᴰ.tail n', q)
    ]
  ]

  pub mem-filter : {x : A} {xs : List A} → Memᴰ x xs → p x ≡ true → Memᴰ x (filter p xs)
  unfolding filter
  mem-filter {xs = []} m h = elim m [ ]
  mem-filter {xs = y ∷ ys} (Memᴰ.head e) h = rw (ap p (sym e) ∙ h, filter) (Memᴰ.head e)
  mem-filter {xs = y ∷ ys} (Memᴰ.tail m) h = elim (Bool-cases (p y)) [
    | inl e ↦ rw (e, filter) (Memᴰ.tail (mem-filter m h))
    | inr e ↦ rw (e, filter) (mem-filter m h)
  ]
