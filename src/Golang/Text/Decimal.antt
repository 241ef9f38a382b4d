-- ===== src/Golang/Text/Decimal.antt =====
-- strconv.ParseUint of the digits that %d prints.
use proto_ip.Prelude.{
  Bool, Bool-cases, [], arith, false, if◌then◌else◌, inl, inr, is_empty, leb, ltb, ltb-false→le,
  ltb→lt, none, refl, some, suc, true, zero, ℕ, ◌%◌, ◌*◌, ◌+◌, ◌-◌, ◌/◌, ◌<◌, ◌^◌, ◌∙◌, ◌∷◌, ◌≡◌,
}
use proto_ip.Golang.Text.{Text, decimal, decimal_from, is_digit, parse_uint32, scan_digits}
use proto_ip.Golang.Text.Trim.{Within}

-- Reading a first digit.
read_once :
    (limit n : ℕ) (acc : Text)
    → n < 10
    → scan_digits limit 0 ((b'0' + n) ∷ acc)
      ≡ (if leb n limit then scan_digits limit n acc else none)
unfolding scan_digits
read_once limit n acc h =
    let digit : is_digit (b'0' + n) ≡ true = ground arith in
    let value : 0 * 10 + (b'0' + n - b'0') ≡ n = omega arith in rw (digit, scan_digits, value) refl

-- A number below the limit has a tenth below the limit.
tenth_fits {ℓ} :
    {A : Type ℓ} (limit m : ℕ) (x y : A)
    → (if leb (m / 10) limit then if leb m limit then x else y else y)
      ≡ (if leb m limit then x else y)
tenth_fits limit m x y = ground arith

-- Reading a further digit.
read_next :
    (limit m : ℕ) (acc : Text)
    → (if leb (m / 10) limit then scan_digits limit (m / 10) ((b'0' + m % 10) ∷ acc) else none)
      ≡ (if leb m limit then scan_digits limit m acc else none)
unfolding scan_digits
read_next limit m acc =
    let digit : is_digit (b'0' + m % 10) ≡ true = ground arith in
    let value : m / 10 * 10 + (b'0' + m % 10 - b'0') ≡ m = omega arith in
    rw (digit, scan_digits, value) (tenth_fits limit m (scan_digits limit m acc) none)

-- The digits of a number are read as the number, as long as it is within the limit.
scan_digits-decimal_from :
    (limit fuel n : ℕ) (acc : Text)
    → n < fuel
    → scan_digits limit 0 (decimal_from fuel n acc)
      ≡ (if leb n limit then scan_digits limit n acc else none)
unfolding decimal_from
scan_digits-decimal_from limit zero n acc h = absurd (omega arith)
scan_digits-decimal_from limit (suc fuel) n acc h = elim (Bool-cases (ltb n 10)) [
  | inl small ↦ rw (small, decimal_from) (read_once limit n acc (ltb→lt n 10 small))
  | inr large ↦
      rw
        (
          large,
          decimal_from,
          scan_digits-decimal_from limit fuel (n / 10) ((b'0' + n % 10) ∷ acc)
              (omega (arith, ltb-false→le n 10 large)),
        )
        (read_next limit n acc)
]

is_empty-decimal_from :
    (fuel n c : ℕ) (acc : Text) → is_empty (decimal_from fuel n (c ∷ acc)) ≡ false
unfolding decimal_from
is_empty-decimal_from zero n c acc = refl
is_empty-decimal_from (suc fuel) n c acc = elim (Bool-cases (ltb n 10)) [
  | inl small ↦ rw (small, decimal_from) refl
  | inr large ↦
      rw (large, decimal_from) (is_empty-decimal_from fuel (n / 10) (b'0' + n % 10) (c ∷ acc))
]

pub is_empty-decimal : (n : ℕ) → is_empty (decimal n) ≡ false
unfolding decimal decimal_from
is_empty-decimal n = elim (Bool-cases (ltb n 10)) [
  | inl small ↦ rw (small, decimal_from) refl
  | inr large ↦ rw (large, decimal_from) (is_empty-decimal_from n (n / 10) (b'0' + n % 10) [])
]

parse_uint32-scan : (s : Text) → is_empty s ≡ false → parse_uint32 s ≡ scan_digits (2 ^ 32 - 1) 0 s
unfolding parse_uint32
parse_uint32-scan [] h = cc
parse_uint32-scan (c ∷ s) h = refl

-- The digits of a number are read as the number if it has 32 bits, and are refused otherwise.
pub parse_uint32-decimal :
    (n : ℕ) → parse_uint32 (decimal n) ≡ (if ltb n (2 ^ 32) then some n else none)
unfolding decimal scan_digits
parse_uint32-decimal n =
    parse_uint32-scan (decimal n) (is_empty-decimal n)
    ∙ (scan_digits-decimal_from (2 ^ 32 - 1) (suc n) n [] (omega arith) ∙ same_test)
  where
    same_test :
        (if leb n (2 ^ 32 - 1) then scan_digits (2 ^ 32 - 1) n [] else none)
        ≡ (if ltb n (2 ^ 32) then some n else none)
    same_test = ground arith

Within-decimal_from :
    (inner : ℕ → Bool) (fuel n : ℕ) (acc : Text)
    → ((d : ℕ) → d < 10 → inner (b'0' + d) ≡ true)
    → Within inner acc
    → Within inner (decimal_from fuel n acc)
unfolding decimal_from
Within-decimal_from inner zero n acc digit h = h
Within-decimal_from inner (suc fuel) n acc digit h = elim (Bool-cases (ltb n 10)) [
  | inl small ↦ rw (small, decimal_from) (digit n (ltb→lt n 10 small), h)
  | inr large ↦
      rw (large, decimal_from)
        (Within-decimal_from inner fuel (n / 10) ((b'0' + n % 10) ∷ acc) digit
          (digit (n % 10) (omega arith), h))
]

-- The digits of a number are bytes from 48 to 57.
pub Within-decimal :
    (inner : ℕ → Bool) (n : ℕ)
    → ((d : ℕ) → d < 10 → inner (b'0' + d) ≡ true)
    → Within inner (decimal n)
unfolding decimal
Within-decimal inner n digit = Within-decimal_from inner (suc n) n [] digit _
