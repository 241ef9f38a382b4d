-- ===== src/Geoip/Ipmap/Rows.antt =====
-- The columns of a row.
use proto_ip.Prelude.{
  All, List, [], ap, append_assoc, arith, false, is_empty, length, length-append, le→ltb-false, ltb,
  refl, some, suc, zero, ℕ, ◌++◌, ◌+◌, ◌-◌, ◌∙◌, ◌∷◌, ◌≡◌,
}
use proto_ip.Geoip.Ipmap.{entry_of, parse_entry, parse_ipmap_line}
use proto_ip.Golang.NetText.{NetText}
use proto_ip.Golang.Netip.{Prefix, prefix_eq}
use proto_ip.Golang.Text.{Text, nth, split, trim_space}
use proto_ip.Golang.Text.Split.{Lacks, is_empty-append, joined, split-append, split-joined}
use proto_ip.Messages.Geo.{Float64}

-- A field behind others.
nth_behind : (xs ys : List Text) (i n : ℕ) → n ≡ length xs + i → nth n (xs ++ ys) ≡ nth i ys
nth_behind [] ys i n e = let same : n ≡ i = omega arith in ap (λ k. nth k ys) same
nth_behind (x ∷ xs) ys i zero e = absurd (omega arith)
nth_behind (x ∷ xs) ys i (suc n) e = nth_behind xs ys i n (omega arith)

-- The columns of the dump; the country's name may hold commas, the other ones may not.
pub record Columns : Type 0 where
  pub prefix : Text
  pub geolocation_id : Text
  pub city : Text
  pub state : Text
  pub country_name : Text
  pub cc_alpha2 : Text
  pub cc_alpha3 : Text
  pub lat : Text
  pub lon : Text
  pub score : Text

unfoldable pub front : Columns → List Text
front c = c.prefix ∷ c.geolocation_id ∷ c.city ∷ c.state ∷ []

unfoldable pub back : Columns → List Text
back c = c.cc_alpha2 ∷ c.cc_alpha3 ∷ c.lat ∷ c.lon ∷ c.score ∷ []

-- The line of the dump.
pub line_of : Columns → Text
line_of c = joined b',' (front c) ++ b',' ∷ (c.country_name ++ b',' ∷ joined b',' (back c))

split-line_of :
    (c : Columns)
    → All (Lacks b',') (front c)
    → All (Lacks b',') (back c)
    → split (line_of c) b',' ≡ front c ++ (split c.country_name b',' ++ back c)
unfolding line_of front back
split-line_of c lf lb =
    split-append (joined b',' (front c)) (c.country_name ++ b',' ∷ joined b',' (back c)) b','
    ∙ ap (λ fs. split (joined b',' (front c)) b',' ++ fs)
        (split-append c.country_name (joined b',' (back c)) b',')
    ∙ rw (split-joined b',' c.prefix _ lf, split-joined b',' c.cc_alpha2 _ lb) refl

-- The columns that the parser reads, wherever the commas of the country's name leave them.
fields-read :
    (c : Columns) (middle : List Text)
    → let f = front c ++ (middle ++ back c) in
      (length f ≡ 9 + length middle)
      × (nth (length f - 5) f ≡ c.cc_alpha2)
      × (nth (length f - 3) f ≡ c.lat)
      × (nth (length f - 2) f ≡ c.lon)
unfolding front back
fields-read c middle =
    let f = front c ++ (middle ++ back c) in
    let size : length f ≡ 9 + length middle = omega (arith, length-append middle (back c)) in
    (
      size,
      nth_behind (front c ++ middle) (back c) 0 (length f - 5) (omega (arith, size)),
      nth_behind (front c ++ middle) (back c) 2 (length f - 3) (omega (arith, size)),
      nth_behind (front c ++ middle) (back c) 3 (length f - 2) (omega (arith, size)),
    )

is_empty-line_of : (c : Columns) → is_empty (line_of c) ≡ false
unfolding line_of joined front
is_empty-line_of c = ap is_empty (append_assoc c.prefix _ _) ∙ is_empty-append c.prefix _ _

parse_entry-columns :
    (t : NetText) (f : List Text) (c : Columns) (p : Prefix) (lat lon : Float64)
    → nth 0 f ≡ c.prefix
    → nth 2 f ≡ c.city
    → nth (length f - 5) f ≡ c.cc_alpha2
    → nth (length f - 3) f ≡ c.lat
    → nth (length f - 2) f ≡ c.lon
    → t.parse_prefix (trim_space c.prefix) ≡ some p
    → t.parse_float (trim_space c.lat) ≡ some lat
    → t.parse_float (trim_space c.lon) ≡ some lon
    → parse_entry t f
      ≡ some (
        p.addr,
        record { city = trim_space c.city; country = trim_space c.cc_alpha2; lat = lat; lon = lon },
      )
unfolding parse_entry entry_of
parse_entry-columns t f c p lat lon e0 e2 e5 e3 e1 at_prefix at_lat at_lon =
    rw
      (
        e0, at_prefix, parse_entry, e3, at_lat, parse_entry, e1, at_lon, parse_entry, entry_of, e2,
        e5,
      )
      refl

-- The name of a country may hold commas: a row whose other columns hold none, whose prefix, latitude
-- and longitude parse, is read as the address of its prefix with the city, the two-letter code and
-- the coordinates of its own columns, white space around them cut off.
pub parse_ipmap_line-line_of :
    (t : NetText) (c : Columns) (p : Prefix) (lat lon : Float64)
    → All (Lacks b',') (front c)
    → All (Lacks b',') (back c)
    → t.parse_prefix (trim_space c.prefix) ≡ some p
    → t.parse_float (trim_space c.lat) ≡ some lat
    → t.parse_float (trim_space c.lon) ≡ some lon
    → parse_ipmap_line t (line_of c)
      ≡ some (
        p.addr,
        record { city = trim_space c.city; country = trim_space c.cc_alpha2; lat = lat; lon = lon },
      )
unfolding parse_ipmap_line front
parse_ipmap_line-line_of t c p lat lon lf lb at_prefix at_lat at_lon =
    let f = front c ++ (split c.country_name b',' ++ back c) in
    let fields = fields-read c (split c.country_name b',') in
    let long : ltb (length f) 9 ≡ false = le→ltb-false (length f) 9 (omega (arith, fields)) in
    rw (is_empty-line_of c, parse_ipmap_line, split-line_of c lf lb, long, parse_ipmap_line)
      (parse_entry-columns t f c p lat lon refl refl fields.1 fields.2 fields.3 at_prefix at_lat
        at_lon)
