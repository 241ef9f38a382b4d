-- ===== src/Golang/Ints/Bytes.antt =====
-- Numbers that are spelled by bytes of the same number.
use proto_ip.Prelude.{
  All, Bool_ext, List, [], arith, beq_refl, beq→eq, length, list_eq, nat_eq, refl, ℕ, ◌*◌, ◌+◌, ◌<◌,
  ◌==◌, ◌∷◌, ◌≡◌,
}
use proto_ip.Golang.Ints.{big_endian}

abbrev pub Bytes : List ℕ → Type 0
Bytes = All (λ b. b < 256)

pub big_endian_injective :
    (acc acc' : ℕ) (xs ys : List ℕ)
    → length xs ≡ length ys
    → Bytes xs
    → Bytes ys
    → big_endian acc xs ≡ big_endian acc' ys
    → (acc ≡ acc') × (xs ≡ ys)
unfolding big_endian
big_endian_injective acc acc' [] [] e p q h = (h, refl)
big_endian_injective acc acc' [] (y ∷ ys) e p q h = absurd (omega (arith, e))
big_endian_injective acc acc' (x ∷ xs) [] e p q h = absurd (omega (arith, e))
big_endian_injective acc acc' (x ∷ xs) (y ∷ ys) e p q h =
    let rest =
      big_endian_injective (acc * 256 + x) (acc' * 256 + y) xs ys (omega (arith, e)) p.1 q.1 h in
    let first : acc ≡ acc' = omega (arith, rest.0, p.0, q.0) in
    let last : x ≡ y = omega (arith, rest.0, p.0, q.0) in (first, cc (last, rest.1))

-- Bytes are compared by the number that they spell.
pub big_endian_beq :
    (xs ys : List ℕ)
    → length xs ≡ length ys
    → Bytes xs
    → Bytes ys
    → (xs == ys) ≡ (big_endian 0 xs == big_endian 0 ys)
big_endian_beq xs ys e p q =
    Bool_ext _ _ (λ h. rw (beq→eq xs ys h) (beq_refl (big_endian 0 ys)))
      (λ h. rw ((big_endian_injective 0 0 xs ys e p q (beq→eq _ _ h)).1) (beq_refl ys))
