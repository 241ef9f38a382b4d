-- ===== src/Golang/NetIp.antt =====
-- The byte slices `net.IP`, `net.IPMask` and the networks `net.IPNet` of package net.
use Prim.Native.Nat.{bit_and}
use proto_ip.Prelude.{
  Bool, List, Option, [], all, false, get_elem?, if◌then◌else◌, is_empty, length, list_beq, list_eq,
  nat_eq, none, some, suc, true, zero, ℕ, ◌%◌, ◌&&◌, ◌++◌, ◌+◌, ◌/◌, ◌==◌, ◌||◌, ◌∷◌,
}
use mathlib.Core.Option

abbrev pub NetIp : Type 0
NetIp = List ℕ

unfoldable pub take : ℕ → List ℕ → List ℕ
take zero xs = []
take (suc n) [] = []
take (suc n) (x ∷ xs) = x ∷ take n xs

unfoldable pub drop : ℕ → List ℕ → List ℕ
drop zero xs = xs
drop (suc n) [] = []
drop (suc n) (x ∷ xs) = drop n xs

-- The first twelve bytes of an IPv4 address in its 16-byte form.
abbrev pub v4_in_v6_prefix : List ℕ
v4_in_v6_prefix = 0 ∷ 0 ∷ 0 ∷ 0 ∷ 0 ∷ 0 ∷ 0 ∷ 0 ∷ 0 ∷ 0 ∷ 0xff ∷ 0xff ∷ []

-- ip.To4(); none is nil.
unfoldable pub to4 : NetIp → Option NetIp
unfolding take drop list_beq
to4 ip =
    if length ip == 4
    then some ip
    else if length ip == 16 && take 12 ip == v4_in_v6_prefix
    then some (drop 12 ip)
    else none

-- ip.To16()
unfoldable pub to16 : NetIp → Option NetIp
to16 ip =
    if length ip == 4
    then some (v4_in_v6_prefix ++ ip)
    else if length ip == 16
    then some ip
    else none

-- ip.Equal(x): an IPv4 address equals its 16-byte form.
unfoldable pub equal : NetIp → NetIp → Bool
unfolding list_beq
equal ip x =
    if length ip == length x
    then ip == x
    else if length ip == 4 && length x == 16
    then v4_in_v6_prefix ++ ip == x
    else if length ip == 16 && length x == 4
    then ip == v4_in_v6_prefix ++ x
    else false

-- ip[i], where the caller has checked the length
abbrev byte : NetIp → ℕ → ℕ
byte ip i = elim (get_elem? ip i) [ none ↦ 0 | some b ↦ b ]

abbrev loopback_v6 : NetIp
loopback_v6 = 0 ∷ 0 ∷ 0 ∷ 0 ∷ 0 ∷ 0 ∷ 0 ∷ 0 ∷ 0 ∷ 0 ∷ 0 ∷ 0 ∷ 0 ∷ 0 ∷ 0 ∷ 1 ∷ []

abbrev unspecified_v6 : NetIp
unspecified_v6 = 0 ∷ 0 ∷ 0 ∷ 0 ∷ 0 ∷ 0 ∷ 0 ∷ 0 ∷ 0 ∷ 0 ∷ 0 ∷ 0 ∷ 0 ∷ 0 ∷ 0 ∷ 0 ∷ []

unfoldable pub is_loopback : NetIp → Bool
unfolding to4 equal
is_loopback ip = elim (to4 ip) [ some quad ↦ byte quad 0 == 127 | none ↦ equal ip loopback_v6 ]

unfoldable pub is_unspecified : NetIp → Bool
unfolding equal
is_unspecified ip = equal ip (v4_in_v6_prefix ++ 0 ∷ 0 ∷ 0 ∷ 0 ∷ []) || equal ip unspecified_v6

-- A test `b & 0xc0 == 0x80` of a byte reads its first two bits, `b / 64 == 2`; so below.
unfoldable pub is_link_local_unicast : NetIp → Bool
unfolding to4
is_link_local_unicast ip = elim (to4 ip) [
  | some quad ↦ byte quad 0 == 169 && byte quad 1 == 254
  | none ↦ length ip == 16 && byte ip 0 == 0xfe && byte ip 1 / 64 == 2
]

unfoldable pub is_link_local_multicast : NetIp → Bool
unfolding to4
is_link_local_multicast ip = elim (to4 ip) [
  | some quad ↦ byte quad 0 == 224 && byte quad 1 == 0 && byte quad 2 == 0
  | none ↦ length ip == 16 && byte ip 0 == 0xff && byte ip 1 % 16 == 2
]

unfoldable pub is_private : NetIp → Bool
unfolding to4
is_private ip = elim (to4 ip) [
  | some quad ↦
      byte quad 0 == 10
      || (byte quad 0 == 172 && byte quad 1 / 16 == 1)
      || (byte quad 0 == 192 && byte quad 1 == 168)
  | none ↦ length ip == 16 && byte ip 0 / 2 == 126
]

-- The number of ones at the front of a mask byte that has no one behind a zero.
byte_ones : ℕ → Option ℕ
byte_ones b =
    if b == 0
    then some 0
    else if b == 128
    then some 1
    else if b == 192
    then some 2
    else if b == 224
    then some 3
    else if b == 240
    then some 4
    else if b == 248
    then some 5
    else if b == 252
    then some 6
    else if b == 254
    then some 7
    else if b == 255
    then some 8
    else none

-- The length of a mask of ones before zeros; none for any other mask.
mask_length : List ℕ → Option ℕ
unfolding byte_ones
mask_length [] = some 0
mask_length (b ∷ bs) =
    let rest = mask_length bs in
    if b == 255
    then Option.map (λ n. 8 + n) rest
    else if all (λ c. c == 0) bs
    then byte_ones b
    else none

-- The first result of m.Size(): 0 for a mask that is no prefix length.
unfoldable pub mask_size : List ℕ → ℕ
unfolding mask_length
mask_size m = elim (mask_length m) [ none ↦ 0 | some n ↦ n ]

pub record IpNet : Type 0 where
  pub ip : NetIp
  pub mask : List ℕ

agree : List ℕ → List ℕ → List ℕ → Bool
agree (x ∷ xs) (m ∷ ms) (y ∷ ys) =
    let rest = agree xs ms ys in if bit_and x m == bit_and y m then rest else false
agree _ _ _ = true

-- The mask that goes with a network number of `n` bytes.
mask_for : ℕ → List ℕ → Option (List ℕ)
unfolding drop
mask_for n m =
    if n == 4
    then (if length m == 4 then some m else if length m == 16 then some (drop 12 m) else none)
    else if n == 16 && length m == 16
    then some m
    else none

-- `if x := ip.To4(); x != nil { ip = x }`
shorten : NetIp → NetIp
unfolding to4
shorten ip = elim (to4 ip) [ some quad ↦ quad | none ↦ ip ]

-- n.Contains(ip)
unfoldable pub net_contains : IpNet → NetIp → Bool
unfolding shorten mask_for agree
net_contains n ip = elim (mask_for (length (shorten n.ip)) n.mask) [
  | none ↦ is_empty (shorten ip)
  | some m ↦
      if length (shorten ip) == length (shorten n.ip)
      then agree (shorten n.ip) m (shorten ip)
      else false
]
