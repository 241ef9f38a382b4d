-- ===== src/Geoip/GeofeedCsv.antt =====
-- geoip/geofeed_csv.go: the RFC 8805 parser and the longest match.
pub mod Longest
use proto_ip.Prelude.{
  List, Option, [], best_from, get_elem?, if◌then◌else◌, is_empty, none, some, ℕ, ◌*◌, ◌∷◌,
}
use proto_ip.Golang.NetText.{NetText}
use proto_ip.Golang.Netip.{Addr, Prefix, contains, masked, prefix_eq}
use proto_ip.Golang.Scanner.{Reader, ScanError, scan_err, scan_lines}
use proto_ip.Golang.Text.{Text, before_byte, nth, split, trim_space}
use proto_ip.Messages.Geo.{city, country, region}
use mathlib.Core.Option

pub record GeofeedRecord : Type 0 where
  pub prefix : Prefix
  pub country : Text
  pub region : Text
  pub city : Text
  pub postal : Text

-- `if len(fields) > i { TrimSpace(fields[i]) }`, empty where it is missing
abbrev pub trimmed_field : ℕ → List Text → Text
trimmed_field i fields = elim (get_elem? fields i) [ none ↦ [] | some f ↦ trim_space f ]

unfoldable pub record_of : List Text → Prefix → GeofeedRecord
record_of fields p = record {
  prefix = masked p;
  country = trimmed_field 1 fields;
  region = trimmed_field 2 fields;
  city = trimmed_field 3 fields;
  postal = trimmed_field 4 fields;
}

-- The record of a line that is not blank once the comment is cut off.
unfoldable pub parse_row : NetText → Text → Option GeofeedRecord
parse_row t line =
    let fields = split line b',' in
    Option.map (record_of fields) (t.parse_prefix (trim_space (nth 0 fields)))

-- One round of the loop of `ParseGeofeed`: none where it continues.
unfoldable pub parse_line : NetText → Text → Option GeofeedRecord
parse_line t raw =
    let line = trim_space (before_byte b'#' raw) in if is_empty line then none else parse_row t line

unfoldable pub parse_lines : NetText → List Text → List GeofeedRecord
parse_lines t [] = []
parse_lines t (l ∷ ls) = elim (parse_line t l) [
  | none ↦ parse_lines t ls
  | some r ↦ r ∷ parse_lines t ls
]

abbrev pub geofeed_line_limit : ℕ
geofeed_line_limit = 4 * 1024 * 1024

-- ParseGeofeed: the records read, with the scanner's error if there is one.
unfoldable pub parse_geofeed : NetText → Reader → List GeofeedRecord × Option ScanError
parse_geofeed t r = (parse_lines t (scan_lines geofeed_line_limit r), scan_err geofeed_line_limit r)

-- longestMatch; none is `found` false.
unfoldable pub longest_match : List GeofeedRecord → Addr → Option GeofeedRecord
longest_match recs a =
    best_from (λ (r : GeofeedRecord). contains r.prefix a)
      (λ (r : GeofeedRecord). r.prefix.bits_plus_one) none recs
