-- ===== src/Geoip/Rpki.antt =====
-- geoip/rpki.go: the index of VRPs and route-origin validation. `VrpJson` is an element of the dump as
-- the JSON decoder delivers it.
pub mod AsNumbers
pub mod Index
pub mod Loading
pub mod Verdict
pub mod Validation
use proto_ip.Prelude.{
  List, Option, [], any, if◌then◌else◌, list_eq, nat_eq, none, some, suc, zero, ℕ, ◌++◌, ◌+◌, ◌==◌,
  ◌∷◌,
}
use proto_ip.Golang.Ints.{uint32, ℤ}
use proto_ip.Golang.Maps.{insert, lookup}
use proto_ip.Golang.NetText.{NetText}
use proto_ip.Golang.Netip.{Addr, Prefix, addr_eq, addr_prefix, bit_len, is4, masked, prefix_eq}
use proto_ip.Golang.Text.{Text, codes, parse_uint32, trim_byte, trim_prefix, trim_space}
use proto_ip.Messages.Geo.{RpkiRoa, RpkiStatus, invalid_status, not_found, status_unknown, valid}
use proto_ip.Messages.Ip.{v4, v6}

pub record Vrp : Type 0 where
  pub prefix : Prefix
  pub max_len : ℤ
  pub asn : ℕ

-- RPKISet; its length is `n`.
pub record RpkiSet : Type 0 where
  pub v4 : List (Prefix × List Vrp)
  pub v6 : List (Prefix × List Vrp)
  pub n : ℕ

-- vrpJSON; the asn field is raw text.
pub record VrpJson : Type 0 where
  pub prefix : Text
  pub max_length : ℤ
  pub asn : Text

abbrev pub empty_set : RpkiSet
empty_set = record { v4 = []; v6 = []; n = 0 }

-- parseVRPASN
unfoldable pub parse_vrp_asn : Text → Option ℕ
parse_vrp_asn raw =
    let t = trim_byte 34 (trim_space raw) in
    parse_uint32 (trim_prefix (trim_prefix t (codes "AS")) (codes "as"))

-- m[p] of a map of slices: nil for a missing key.
unfoldable pub at : Prefix → List (Prefix × List Vrp) → List Vrp
at p m = elim (lookup p m) [ none ↦ [] | some vs ↦ vs ]

-- m[pfx] = append(m[pfx], v)
unfoldable pub append_at : Prefix → Vrp → List (Prefix × List Vrp) → List (Prefix × List Vrp)
append_at p v m = insert p (at p m ++ v ∷ []) m

-- The index step of `add`, in the map of the prefix's family.
unfoldable pub index : Vrp → RpkiSet → RpkiSet
index v s =
    if is4 v.prefix.addr
    then record s { v4 = append_at v.prefix v s.v4; n = s.n + 1 }
    else record s { v6 = append_at v.prefix v s.v6; n = s.n + 1 }

-- add: a row whose asn or prefix does not parse is skipped.
unfoldable pub add : NetText → VrpJson → RpkiSet → RpkiSet
add t e s = elim (parse_vrp_asn e.asn) [
  | none ↦ s
  | some asn ↦ elim (t.parse_prefix e.prefix) [
    | none ↦ s
    | some p ↦ index (record { prefix = masked p; max_len = e.max_length; asn = asn }) s
  ]
]

-- The loop of `parseVRPs` over the elements of the "roas" array.
unfoldable pub add_all : NetText → List VrpJson → RpkiSet → RpkiSet
add_all t [] s = s
add_all t (e ∷ es) s = add_all t es (add t e s)

-- One round of the loop of `Validate`.
unfoldable pub probe : List (Prefix × List Vrp) → Addr → ℕ → List Vrp
probe m a plen = elim (addr_prefix a plen) [ none ↦ [] | some p ↦ at p m ]

-- The loop of `Validate`, with `n` rounds left.
unfoldable pub covering_from : List (Prefix × List Vrp) → Addr → ℕ → ℕ → List Vrp
covering_from m a zero plen = []
covering_from m a (suc n) plen = probe m a plen ++ covering_from m a n (suc plen)

unfoldable pub covering : RpkiSet → Addr → List Vrp
covering s a = covering_from (if is4 a then s.v4 else s.v6) a (suc (bit_len a)) 0

-- The verdict on the covering VRPs.
unfoldable pub judge : List Vrp → ℕ → RpkiStatus × List Vrp
judge [] origin = (not_found, [])
judge (v ∷ vs) origin =
    if origin == 0
    then (status_unknown, v ∷ vs)
    else if any (λ (w : Vrp). w.asn == origin) (v ∷ vs)
    then (valid, v ∷ vs)
    else (invalid_status, v ∷ vs)

-- Validate
unfoldable pub validate : RpkiSet → Addr → ℕ → RpkiStatus × List Vrp
validate s a origin = judge (covering s a) origin

-- vrpsToProto
unfoldable pub vrps_to_proto : NetText → List Vrp → List RpkiRoa
vrps_to_proto t [] = []
vrps_to_proto t (v ∷ vs) =
    record { prefix = t.prefix_string v.prefix; max_length = uint32 v.max_len; asn = v.asn }
    ∷ vrps_to_proto t vs
