-- ===== src/Golang/Maps.antt =====
-- Go maps as association lists: a lookup gives the entry stored last under the key.
use proto_ip.Prelude.{Eq, List, Option, [], arith, if◌then◌else◌, none, refl, some, ◌==◌, ◌∷◌, ◌≡◌}

module _ {ℓ κ} {K : Type ℓ} {V : Type κ} ⦃e : Eq K⦄ where
  -- v, ok := m[x]
  unfoldable pub lookup : K → List (K × V) → Option V
  lookup x [] = none
  lookup x ((y, v) ∷ more) = let rest = lookup x more in if y == x then some v else rest

  -- m[x] = v
  unfoldable pub insert : K → V → List (K × V) → List (K × V)
  insert x v [] = (x, v) ∷ []
  insert x v ((y, old) ∷ more) =
      let rest = insert x v more in if y == x then (x, v) ∷ more else (y, old) ∷ rest

  -- A map after a store.
  pub lookup-insert :
      (x z : K) (v : V) (entries : List (K × V))
      → lookup z (insert x v entries) ≡ (if x == z then some v else lookup z entries)
  unfolding lookup insert
  lookup-insert x z v [] = refl
  lookup-insert x z v ((y, old) ∷ more) =
      ground (arith, e.beq_iff x z, e.beq_iff y x, e.beq_iff y z, lookup-insert x z v more)
