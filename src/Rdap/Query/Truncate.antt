-- ===== src/Rdap/Query/Truncate.antt =====
-- Texts cut to a limit.
use proto_ip.Prelude.{
  Bool-cases, [], ap, arith, false, inl, inr, leb, length, length-append, refl, suc, zero, ℕ, ◌++◌,
  ◌+◌, ◌<◌, ◌∷◌, ◌≡◌, ◌≤◌,
}
use proto_ip.Golang.NetIp.{take}
use proto_ip.Golang.Text.{Text}
use proto_ip.Rdap.Query.{truncate}

take-length : (n : ℕ) (s : Text) → n ≤ length s → length (take n s) ≡ n
unfolding take
take-length zero s h = refl
take-length (suc n) [] h = absurd (omega arith)
take-length (suc n) (c ∷ s) h = omega (arith, take-length n s (omega arith))

take-append : (n : ℕ) (s t : Text) → n ≤ length s → take n (take n s ++ t) ≡ take n s
unfolding take
take-append zero s t h = refl
take-append (suc n) [] t h = absurd (omega arith)
take-append (suc n) (c ∷ s) t h = ap (λ (u : Text). c ∷ u) (take-append n s t (omega arith))

-- A truncated text is at most three bytes longer than the limit, is the text itself where that is
-- no longer than the limit, and else starts with as many of its bytes as the limit.
pub truncate_lem :
    (s : Text) (n : ℕ)
    → (length (truncate s n) ≤ n + 3)
      × (length s ≤ n → truncate s n ≡ s)
      × (n < length s → (take n (truncate s n) ≡ take n s) × (length (truncate s n) ≡ n + 3))
unfolding truncate
truncate_lem s n = elim (Bool-cases (leb (length s) n)) [
  | inl short ↦ rw (short, truncate) (ground arith, (λ le. refl), λ lt. absurd (ground arith))
  | inr long ↦
      rw (long, truncate)
        (
          omega (arith, cut_length long),
          (λ le. absurd (ground arith)),
          λ lt. (take-append n s _ (ground arith), cut_length long),
        )
]
  where
    cut_length : leb (length s) n ≡ false → length (take n s ++ 226 ∷ 128 ∷ 166 ∷ []) ≡ n + 3
    cut_length long =
        ground (arith, length-append (take n s) (226 ∷ 128 ∷ 166 ∷ []), take-length n s)
