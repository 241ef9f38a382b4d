-- ===== src/Golang/Scanner.antt =====
-- A `bufio.Scanner` over lines with a buffer bound, run to its end over a reader.
use proto_ip.Prelude.{
  Bool, List, Option, [], false, if◌then◌else◌, is_empty, length, ltb, none, some, true, ℕ, ◌∷◌,
}
use proto_ip.Golang.NetIp.{take}
use proto_ip.Golang.Text.{Text, split, trim_suffix}

-- What a reader gives: its bytes, then the end of the file or an error.
pub record Reader : Type 0 where
  pub content : Text
  pub failure : Option Text

pub data ScanError : Type 0 where
  too_long : ScanError
  read_failed : Text → ScanError

-- A line's carriage return before its end is dropped.
drop_cr : Text → Text
drop_cr s = trim_suffix s (13 ∷ [])

-- The lines in order up to one that does not fit the buffer; the last piece has no line end.
scan : ℕ → List Text → List Text × Bool
unfolding drop_cr
scan limit [] = ([], false)
scan limit (p ∷ []) =
    if ltb (length p) limit then (if is_empty p then [] else drop_cr p ∷ [], false) else ([], true)
scan limit (p ∷ q ∷ ps) =
    let rest = scan limit (q ∷ ps) in
    if ltb (length p) limit then (drop_cr p ∷ rest.0, rest.1) else ([], true)

-- The texts that `sc.Scan()` yields with a buffer of at most `limit` bytes.
unfoldable pub scan_lines : ℕ → Reader → List Text
unfolding scan
scan_lines limit r = (scan limit (split r.content 10)).0

-- sc.Err() behind the loop
unfoldable pub scan_err : ℕ → Reader → Option ScanError
unfolding scan
scan_err limit r =
    if (scan limit (split r.content 10)).1
    then some too_long
    else elim r.failure [ none ↦ none | some e ↦ some (read_failed e) ]

-- io.LimitReader(r, n): at most `n` bytes, and the end of the file behind them.
unfoldable pub limit_reader : ℕ → Reader → Reader
unfolding take
limit_reader n r =
    if ltb (length r.content) n then r else record { content = take n r.content; failure = none }
