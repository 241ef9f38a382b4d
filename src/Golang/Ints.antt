-- ===== src/Golang/Ints.antt =====
-- Go's fixed-width integers. A uint64 is a number below 2 ^ 64; an int64 is a signed number.
pub mod Bytes
use proto_ip.Prelude.{
  All, List, [], arith, if◌then◌else◌, ltb, refl, ℕ, ◌%◌, ◌*◌, ◌++◌, ◌+◌, ◌-◌, ◌/◌, ◌<◌, ◌^◌, ◌∙◌,
  ◌∷◌, ◌≡◌,
}

-- `negsuc n` is -(n + 1).
pub data ℤ : Type 0 where
  pos : ℕ → ℤ
  negsuc : ℕ → ℤ

-- int64(x) for a uint64 x
unfoldable pub int64 : ℕ → ℤ
int64 x = if ltb x (2 ^ 63) then pos x else negsuc (2 ^ 64 - 1 - x)

-- uint64(x) for an int64 x
unfoldable pub uint64 : ℤ → ℕ
uint64 (pos n) = n % 2 ^ 64
uint64 (negsuc n) = 2 ^ 64 - 1 - n % 2 ^ 64

-- The range of an int64.
abbrev pub IsInt64 : ℤ → Type 0
IsInt64 (pos n) = n < 2 ^ 63
IsInt64 (negsuc n) = n < 2 ^ 63

pub uint64-int64 : (x : ℕ) → x < 2 ^ 64 → uint64 (int64 x) ≡ x
unfolding uint64 int64
uint64-int64 x h = ground arith

pub int64-uint64 : (x : ℤ) → IsInt64 x → int64 (uint64 x) ≡ x
unfolding uint64 int64
int64-uint64 (pos n) h = ground arith
int64-uint64 (negsuc n) h = ground arith

pub int64-IsInt64 : (x : ℕ) → x < 2 ^ 64 → IsInt64 (int64 x)
unfolding int64
int64-IsInt64 x h = ground arith

pub uint64-lt : (x : ℤ) → uint64 x < 2 ^ 64
unfolding uint64
uint64-lt (pos n) = omega arith
uint64-lt (negsuc n) = omega arith

-- binary.BigEndian.PutUint64 into eight fresh bytes
unfoldable pub put_uint64 : ℕ → List ℕ
put_uint64 x =
    x / 2 ^ 56 % 256
    ∷ x / 2 ^ 48 % 256
    ∷ x / 2 ^ 40 % 256
    ∷ x / 2 ^ 32 % 256
    ∷ x / 2 ^ 24 % 256
    ∷ x / 2 ^ 16 % 256
    ∷ x / 2 ^ 8 % 256
    ∷ x % 256
    ∷ []

-- The number that big-endian bytes spell behind `acc`; binary.BigEndian.Uint64 at eight bytes.
unfoldable pub big_endian : ℕ → List ℕ → ℕ
big_endian acc [] = acc
big_endian acc (b ∷ bs) = big_endian (acc * 256 + b) bs

pub big_endian-put_uint64 : (x : ℕ) → x < 2 ^ 64 → big_endian 0 (put_uint64 x) ≡ x
unfolding big_endian put_uint64
big_endian-put_uint64 x h = omega arith

pub big_endian-append :
    (acc : ℕ) (xs ys : List ℕ) → big_endian acc (xs ++ ys) ≡ big_endian (big_endian acc xs) ys
unfolding big_endian
big_endian-append acc [] ys = refl
big_endian-append acc (x ∷ xs) ys = big_endian-append (acc * 256 + x) xs ys

big_endian-put_uint64_from :
    (acc x : ℕ) → x < 2 ^ 64 → big_endian acc (put_uint64 x) ≡ acc * 2 ^ 64 + x
unfolding big_endian put_uint64
big_endian-put_uint64_from acc x h = omega arith

-- Sixteen bytes spell the number whose two halves were put into them.
pub big_endian-halves :
    (h l : ℕ)
    → h < 2 ^ 64
    → l < 2 ^ 64
    → big_endian 0 (put_uint64 h ++ put_uint64 l) ≡ h * 2 ^ 64 + l
big_endian-halves h l hh hl =
    big_endian-append 0 (put_uint64 h) (put_uint64 l)
    ∙ (rw (big_endian-put_uint64 h hh) (big_endian-put_uint64_from h l hl))

-- Eight bytes are put back from the number that they spell.
pub put_uint64-big_endian :
    (a b c d e f g h : ℕ)
    → All (λ x. x < 256) (a ∷ b ∷ c ∷ d ∷ e ∷ f ∷ g ∷ h ∷ [])
    → put_uint64 (big_endian 0 (a ∷ b ∷ c ∷ d ∷ e ∷ f ∷ g ∷ h ∷ []))
      ≡ a ∷ b ∷ c ∷ d ∷ e ∷ f ∷ g ∷ h ∷ []
unfolding big_endian put_uint64
put_uint64-big_endian a b c d e f g h w =
    let n : ℕ =
      ((((((((0 * 256 + a) * 256 + b) * 256 + c) * 256 + d) * 256 + e) * 256 + f) * 256 + g) * 256
        + h) in
    let ea : n / 2 ^ 56 % 256 ≡ a = omega arith in
    let eb : n / 2 ^ 48 % 256 ≡ b = omega arith in
    let ec : n / 2 ^ 40 % 256 ≡ c = omega arith in
    let ed : n / 2 ^ 32 % 256 ≡ d = omega arith in
    let ee : n / 2 ^ 24 % 256 ≡ e = omega arith in
    let ef : n / 2 ^ 16 % 256 ≡ f = omega arith in
    let eg : n / 2 ^ 8 % 256 ≡ g = omega arith in
    let eh : n % 256 ≡ h = omega arith in
    λ i. ea i ∷ eb i ∷ ec i ∷ ed i ∷ ee i ∷ ef i ∷ eg i ∷ eh i ∷ []

-- uint32(x) for an int x
unfoldable pub uint32 : ℤ → ℕ
uint32 (pos n) = n % 2 ^ 32
uint32 (negsuc n) = 2 ^ 32 - 1 - n % 2 ^ 32
