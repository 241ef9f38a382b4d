-- ===== src/Geoip/Iptoasn/Rows.antt =====
-- The rows of the tables.
use proto_ip.Prelude.{
  All, All-mono, Bool-cases, List, [], arith, false, if◌then◌else◌, inl, inr, length, le→ltb-false,
  list_eq, ltb, nat_eq, none, not, refl, some, ℕ, ◌==◌, ◌^◌, ◌||◌, ◌∷◌, ◌≡◌,
}
use proto_ip.Geoip.Iptoasn.{parse_fields, parse_range, range_of}
use proto_ip.Golang.NetText.{NetText}
use proto_ip.Golang.Netip.{Addr, addr_eq}
use proto_ip.Golang.Text.{Text, codes, decimal}
use proto_ip.Golang.Text.Decimal.{Within-decimal, parse_uint32-decimal}
use proto_ip.Golang.Text.Split.{Lacks, is_empty-append, joined, split-joined}
use proto_ip.Golang.Text.Trim.{differs_from}

-- The line of a table: columns between tabulators, and more behind them that are not read.
unfoldable pub row_text : Text → Text → ℕ → Text → Text → List Text → Text
row_text start end asn country network more =
    joined 9 (start ∷ end ∷ decimal asn ∷ country ∷ network ∷ more)

tabless-decimal : (n : ℕ) → Lacks 9 (decimal n)
unfolding differs_from
tabless-decimal n =
    All-mono (decimal n) (λ c h. ground (arith, h))
      (Within-decimal (differs_from 9) n (λ d h. ground arith))

parse_fields-row :
    (t : NetText) (start end country network : Text) (more : List Text) (asn : ℕ) (a b : Addr)
    → t.parse_addr start ≡ some a
    → t.parse_addr end ≡ some b
    → parse_fields t (start ∷ end ∷ decimal asn ∷ country ∷ network ∷ more) ≡ (
        if asn == 0 || not (ltb asn (2 ^ 32))
        then none
        else some (record {
          start = a;
          end = b;
          asn = asn;
          country = if country == codes "None" then [] else country;
          network = network;
        }))
unfolding parse_fields range_of
parse_fields-row t start end country network more asn a b at_start at_end =
    elim (Bool-cases (ltb asn (2 ^ 32))) [
      | inl fits ↦ elim (Bool-cases (asn == 0)) [
        | inl zero_asn ↦ rw (parse_uint32-decimal asn, fits, parse_fields, zero_asn) refl
        | inr known ↦
            rw (parse_uint32-decimal asn, fits, parse_fields, known, at_start, at_end) refl
      ]
      | inr large ↦ rw (parse_uint32-decimal asn, large, parse_fields) (ground (arith, large))
    ]

-- A row of columns without tabulators whose addresses parse is kept with the number, the country and
-- the network of its own columns, unless the number is 0 or has more than 32 bits; the country
-- None is read as none.
pub parse_range-row_text :
    (t : NetText) (start end country network : Text) (more : List Text) (asn : ℕ) (a b : Addr)
    → All (Lacks 9) (start ∷ end ∷ country ∷ network ∷ more)
    → t.parse_addr start ≡ some a
    → t.parse_addr end ≡ some b
    → parse_range t (row_text start end asn country network more) ≡ (
        if asn == 0 || not (ltb asn (2 ^ 32))
        then none
        else some (record {
          start = a;
          end = b;
          asn = asn;
          country = if country == codes "None" then [] else country;
          network = network;
        }))
unfolding row_text parse_range joined
parse_range-row_text t start end country network more asn a b lacks at_start at_end =
    let whole : All (Lacks 9) (start ∷ end ∷ decimal asn ∷ country ∷ network ∷ more) =
      (lacks.0, (lacks.1.0, (tabless-decimal asn, lacks.1.1))) in
    let long : ltb (length (start ∷ end ∷ decimal asn ∷ country ∷ network ∷ more)) 5 ≡ false =
      le→ltb-false _ _ (omega arith) in
    rw (is_empty-append start _ _, parse_range, split-joined 9 start _ whole, long, parse_range)
      (parse_fields-row t start end country network more asn a b at_start at_end)
