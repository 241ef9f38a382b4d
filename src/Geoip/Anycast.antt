-- ===== src/Geoip/Anycast.antt =====
-- geoip/anycast.go: the anycast prefix lists.
use proto_ip.Prelude.{
  Bool, List, Option, Result, [], any, err, if◌then◌else◌, is_empty, length, none, not, ok, some, ℕ,
  ◌*◌, ◌+◌, ◌>>=◌, ◌||◌, ◌∷◌,
}
use proto_ip.Golang.NetText.{NetText}
use proto_ip.Golang.Netip.{Addr, Prefix, contains, is4, masked, prefix_eq}
use proto_ip.Golang.Scanner.{Reader, ScanError, scan_err, scan_lines}
use proto_ip.Golang.Text.{Text, before_byte, codes, trim_space}
use mathlib.Core.Option

pub record AnycastSet : Type 0 where
  pub v4 : List Prefix
  pub v6 : List Prefix

abbrev pub anycast_line_limit : ℕ
anycast_line_limit = 1024 * 1024

-- One round of the loop of `parsePrefixList`: none where it continues.
unfoldable pub parse_prefix_line : NetText → Text → Option Prefix
parse_prefix_line t raw =
    let line = trim_space (before_byte b'#' raw) in
    if is_empty line then none else Option.map masked (t.parse_prefix line)

unfoldable pub parse_prefix_lines : NetText → List Text → List Prefix
parse_prefix_lines t [] = []
parse_prefix_lines t (l ∷ ls) = elim (parse_prefix_line t l) [
  | none ↦ parse_prefix_lines t ls
  | some p ↦ p ∷ parse_prefix_lines t ls
]

-- parsePrefixList
unfoldable pub parse_prefix_list : NetText → Reader → List Prefix × Option ScanError
parse_prefix_list t r =
    (parse_prefix_lines t (scan_lines anycast_line_limit r), scan_err anycast_line_limit r)

-- loadPrefixFile on what os.Open gives; both results of the parser go on.
pub data LoadError : Type 0 where
  open_failed : Text → LoadError
  scan_failed : ScanError → LoadError

unfoldable pub load_prefix_file : NetText → Result Text Reader → Result LoadError (List Prefix)
load_prefix_file t (err e) = err (open_failed e)
load_prefix_file t (ok r) = elim (scan_err anycast_line_limit r) [
  | none ↦ ok (parse_prefix_list t r).0
  | some e ↦ err (scan_failed e)
]

-- A list whose path is empty is left empty.
unfoldable pub load_family :
    NetText → (Text → Result Text Reader) → Text → Result LoadError (List Prefix)
load_family t files path = if is_empty path then ok [] else load_prefix_file t (files path)

-- NewAnycastSet
unfoldable pub new_anycast_set :
    NetText → (Text → Result Text Reader) → Text → Text → Result LoadError AnycastSet
new_anycast_set t files v4_path v6_path = do
  fours ← load_family t files v4_path
  sixes ← load_family t files v6_path
  ok (record { v4 = fours; v6 = sixes })

-- FindAnycastFiles; `exists` is fileExists.
unfoldable pub find_anycast_files : (Text → Bool) → (Text → Text) → Text × Text × Bool
find_anycast_files exists in_dir =
    let p4 = in_dir (codes "anycast-v4-prefixes.txt") in
    let p6 = in_dir (codes "anycast-v6-prefixes.txt") in
    let v4 = if exists p4 then p4 else [] in
    let v6 = if exists p6 then p6 else [] in (v4, v6, not (is_empty v4) || not (is_empty v6))

-- Len
unfoldable pub anycast_len : AnycastSet → ℕ
anycast_len s = length s.v4 + length s.v6

-- Contains
unfoldable pub anycast_contains : AnycastSet → Addr → Bool
anycast_contains s a = any (λ p. contains p a) (if is4 a then s.v4 else s.v6)
