-- ===== src/Geoip/Iptoasn.antt =====
-- geoip/iptoasn.go: the IP-to-ASN tables and their binary search. `sort.Slice` is a parameter.
pub mod Loaded
pub mod Rows
pub mod Search
use proto_ip.Prelude.{
  Bool, List, Option, Result, [], err, false, get_elem?, if◌then◌else◌, is_empty, length, list_eq,
  ltb, nat_eq, none, not, ok, some, suc, true, zero, ℕ, ◌&&◌, ◌*◌, ◌++◌, ◌+◌, ◌/◌, ◌==◌, ◌∷◌,
}
use proto_ip.Geoip.Source.{granularity_from_fields}
use proto_ip.Golang.NetText.{NetText}
use proto_ip.Golang.Netip.{Addr, addr_eq, is4, less}
use proto_ip.Golang.Scanner.{Reader, ScanError, scan_err, scan_lines}
use proto_ip.Golang.Text.{Text, codes, nth, parse_uint32, split}
use proto_ip.Messages.Geo.{
  GeoConfidence, GeoLocation, GeoSourceResult, granularity_unknown, iptoasn,
}
use mathlib.Core.Option

-- asnRange
pub record AsnRange : Type 0 where
  pub start : Addr
  pub end : Addr
  pub asn : ℕ
  pub country : Text
  pub network : Text

pub record IptoasnSource : Type 0 where
  pub v4 : List AsnRange
  pub v6 : List AsnRange

abbrev pub iptoasn_attribution : Text
iptoasn_attribution =
    codes "BGP origin-AS data from iptoasn.com (RouteViews/RIPE RIS), Public Domain (PDDL)"

-- The range of a row whose AS number and addresses parse; `None` is no country. Interning a
-- string gives the same string.
unfoldable pub range_of : List Text → ℕ → Addr → Addr → AsnRange
range_of f asn start end = record {
  start = start;
  end = end;
  asn = asn;
  country = if nth 3 f == codes "None" then [] else nth 3 f;
  network = nth 4 f;
}

unfoldable pub parse_fields : NetText → List Text → Option AsnRange
parse_fields t f = elim (parse_uint32 (nth 2 f)) [
  | none ↦ none
  | some asn ↦ if asn == 0 then none else elim (t.parse_addr (nth 0 f)) [
    | none ↦ none
    | some start ↦ Option.map (range_of f asn start) (t.parse_addr (nth 1 f))
  ]
]

-- One round of the loop of `parseIPtoASN`: none where it continues.
unfoldable pub parse_range : NetText → Text → Option AsnRange
parse_range t line =
    if is_empty line
    then none
    else let f = split line 9 in if ltb (length f) 5 then none else parse_fields t f

unfoldable pub parse_ranges : NetText → List Text → List AsnRange
parse_ranges t [] = []
parse_ranges t (l ∷ ls) = elim (parse_range t l) [
  | none ↦ parse_ranges t ls
  | some r ↦ r ∷ parse_ranges t ls
]

abbrev pub iptoasn_line_limit : ℕ
iptoasn_line_limit = 1024 * 1024

-- parseIPtoASN; `sort` is sort.Slice by start address.
unfoldable pub parse_iptoasn :
    NetText → (List AsnRange → List AsnRange) → Reader → Result ScanError (List AsnRange)
parse_iptoasn t sort r = elim (scan_err iptoasn_line_limit r) [
  | some e ↦ err e
  | none ↦ ok (sort (parse_ranges t (scan_lines iptoasn_line_limit r)))
]

-- The loop of sort.Search with the interval [i, j) and the probe `p`; fuel for j - i halvings.
unfoldable pub search_from : (ℕ → Bool) → ℕ → ℕ → ℕ → ℕ
search_from p zero i j = i
search_from p (suc fuel) i j =
    let h = (i + j) / 2 in
    let right = search_from p fuel (h + 1) j in
    let left = search_from p fuel i h in
    if not (ltb i j) then i else if not (p h) then right else left

-- sort.Search(n, p): `n` rounds suffice, since each one shrinks the interval.
unfoldable pub sort_search : ℕ → (ℕ → Bool) → ℕ
sort_search n p = search_from p (suc n) 0 n

-- ip.Less(rs[i].start)
unfoldable pub starts_behind : List AsnRange → Addr → ℕ → Bool
starts_behind rs a i = elim (get_elem? rs i) [ none ↦ true | some r ↦ less a r.start ]

-- `!ip.Less(cand.start) && !cand.end.Less(ip)`
unfoldable pub in_range : AsnRange → Addr → Bool
in_range r a = not (less a r.start) && not (less r.end a)

unfoldable pub candidate : List AsnRange → Addr → ℕ → Option AsnRange
candidate rs a zero = none
candidate rs a (suc i) = elim (get_elem? rs i) [
  | none ↦ none
  | some r ↦ if in_range r a then some r else none
]

-- searchASNRange; none is false.
unfoldable pub search_asn_range : List AsnRange → Addr → Option AsnRange
search_asn_range rs a = candidate rs a (sort_search (length rs) (starts_behind rs a))

unfoldable pub range_result : NetText → AsnRange → GeoSourceResult
range_result t r =
    let loc : GeoLocation = record {
      latitude = none;
      longitude = none;
      country = r.country;
      region = [];
      city = [];
      postal_code = [];
      time_zone = [];
      granularity = granularity_unknown;
    } in
    record {
      source = iptoasn;
      location = some (record loc { granularity = granularity_from_fields loc });
      matched_prefix = t.addr_string r.start ++ codes "-" ++ t.addr_string r.end;
      authoritative = false;
      attribution = iptoasn_attribution;
      confidence = GeoConfidence.low;
      asn = r.asn;
      network = r.network;
    }

-- Lookup
unfoldable pub iptoasn_lookup : NetText → IptoasnSource → Addr → Option GeoSourceResult
iptoasn_lookup t s a =
    Option.map (range_result t) (search_asn_range (if is4 a then s.v4 else s.v6) a)
