-- ===== src/Tests/Loads.antt =====
-- Rows and texts of the databases, and a table loaded from a file whose rows are out of order.
use mathlib.Core.Path.{subst}
use proto_ip.Prelude.{
  All, List, Option, [], arith, if◌then◌else◌, inr, list_beq, list_eq, ltb, nat_eq, none, not, ok,
  refl, some, sym, true, ℕ, ◌++◌, ◌==◌, ◌^◌, ◌||◌, ◌↔◌, ◌∷◌, ◌≡◌,
}
use proto_ip.Geoip.Ipmap.{parse_ipmap_line}
use proto_ip.Geoip.Ipmap.Rows.{Columns, back, front, line_of, parse_ipmap_line-line_of}
use proto_ip.Geoip.Iptoasn.{
  AsnRange, in_range, iptoasn_line_limit, parse_fields, parse_iptoasn, parse_range, parse_ranges,
  range_of, search_asn_range,
}
use proto_ip.Geoip.Iptoasn.Loaded.{Disjoint, IsRow, Listed, parse_iptoasn-search}
use proto_ip.Geoip.Iptoasn.Rows.{parse_range-row_text, row_text}
use proto_ip.Geoip.Rpki.{parse_vrp_asn}
use proto_ip.Geoip.Rpki.AsNumbers.{capitals, parse_vrp_asn-written, written}
use proto_ip.Golang.NetText.{NetText}
use proto_ip.Golang.Netip.{Addr, addr_eq, has_zone, ip4, less}
use proto_ip.Golang.Scanner.{Reader, scan_err, scan_lines}
use proto_ip.Golang.Text.{Text, codes, decimal, parse_uint32, split, trim_space, trim_suffix}
use proto_ip.Golang.Text.Split.{Lacks, joined}
use proto_ip.Tests.Samples.{host, ten, texts, wide}
use proto_ip.Tests.Sorting.{insertion_sort, insertion_sort-IsSliceSort}
use proto_ip.Tests.Tables.{eleven_range, ten_range}

-- A quoted number with its letters.
parse_vrp_asn-written_example :
    parse_vrp_asn (written true capitals 13335) ≡ (if ltb 13335 (2 ^ 32) then some 13335 else none)
parse_vrp_asn-written_example = parse_vrp_asn-written true capitals 13335

-- The ends of the two ranges.
abbrev sample_addr : Text → Option Addr
sample_addr x =
    if x == codes "10.0.0.0"
    then some ten
    else if x == codes "10.255.255.255"
    then some (ip4 0x0affffff)
    else if x == codes "11.0.0.0"
    then some (ip4 0x0b000000)
    else if x == codes "11.0.0.255"
    then some (ip4 0x0b0000ff)
    else none

abbrev grammar : NetText
grammar = record texts { parse_addr = sample_addr; parse_float = λ _. some 5 }

abbrev as_ten : ℕ
as_ten = 64496

abbrev no_text : Text
no_text = []

abbrev ten_text : Text
ten_text = row_text (codes "10.0.0.0") (codes "10.255.255.255") 64496 [] [] []

abbrev eleven_text : Text
eleven_text = row_text (codes "11.0.0.0") (codes "11.0.0.255") 64497 [] [] []

parse_range-row_text_example : parse_range grammar ten_text ≡ (
    if as_ten == 0 || not (ltb as_ten (2 ^ 32))
    then none
    else some (record ten_range { country = if no_text == codes "None" then [] else no_text }))
unfolding row_text list_beq
parse_range-row_text_example =
    parse_range-row_text grammar (codes "10.0.0.0") (codes "10.255.255.255") [] [] [] 64496 ten
      (ip4 0x0affffff) tabless refl refl
  where
    tabless : All (Lacks 9) (codes "10.0.0.0" ∷ codes "10.255.255.255" ∷ [] ∷ [] ∷ [])
    tabless = ground arith

abbrev file : Reader
file = record { content = eleven_text ++ 10 ∷ ten_text; failure = none }

rows_of_file :
    parse_ranges grammar (scan_lines iptoasn_line_limit file) ≡ eleven_range ∷ ten_range ∷ []
unfolding parse_ranges parse_range parse_fields range_of scan_lines split trim_suffix row_text
    joined parse_uint32 decimal list_beq
rows_of_file = refl

two-IsRow : All IsRow (eleven_range ∷ ten_range ∷ [])
unfolding has_zone less
two-IsRow = (
  ((omega arith, refl), (omega arith, refl), refl),
  (((omega arith, refl), (omega arith, refl), refl), _),
)

two-Disjoint : Disjoint (eleven_range ∷ ten_range ∷ [])
unfolding less
two-Disjoint = ((inr refl, _), _)

parse_iptoasn-search_example :
    (table : List AsnRange) × (parse_iptoasn grammar insertion_sort file ≡ ok table)
    × ((search_asn_range table host ≡ some ten_range) ↔ (
        Listed ten_range (parse_ranges grammar (scan_lines iptoasn_line_limit file))
        × (in_range ten_range host ≡ true)))
unfolding scan_err split row_text joined decimal has_zone
parse_iptoasn-search_example =
    parse_iptoasn-search insertion_sort insertion_sort-IsSliceSort grammar file host ten_range refl
      (subst (All IsRow) (sym rows_of_file) two-IsRow)
      (subst Disjoint (sym rows_of_file) two-Disjoint) (omega arith, refl)

abbrev columns : Columns
columns = record {
  prefix = codes "10.0.0.0/8";
  geolocation_id = codes "1";
  city = codes "Seoul";
  state = [];
  country_name = codes "Korea, Republic of";
  cc_alpha2 = codes "KR";
  cc_alpha3 = codes "KOR";
  lat = codes "5";
  lon = codes "5";
  score = codes "9";
}

parse_ipmap_line-line_of_example :
    parse_ipmap_line grammar (line_of columns)
    ≡ some (
      wide.addr,
      record {
        city = trim_space (codes "Seoul");
        country = trim_space (codes "KR");
        lat = 5;
        lon = 5;
      },
    )
unfolding list_beq trim_space front back
parse_ipmap_line-line_of_example =
    parse_ipmap_line-line_of grammar columns wide 5 5 (ground arith) (ground arith) refl refl refl
