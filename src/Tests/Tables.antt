-- ===== src/Tests/Tables.antt =====
-- The longest match of a geofeed and the search of a table of AS numbers.
use mathlib.Core.Option.{some-injective}
use mathlib.Core.Path.{subst}
use proto_ip.Prelude.{
  All, IsBest, List, [], arith, best_from, false, get_elem?, none, refl, some, suc, true, zero, ℕ,
  ◌<◌, ◌↔◌, ◌∷◌, ◌≡◌, ◌⊎◌,
}
use proto_ip.Geoip.GeofeedCsv.{GeofeedRecord, longest_match}
use proto_ip.Geoip.GeofeedCsv.Longest.{longest_match-IsBest}
use proto_ip.Geoip.Iptoasn.{AsnRange, in_range, search_asn_range}
use proto_ip.Geoip.Iptoasn.Search.{IsPlain, IsTable, search_asn_range_iff}
use proto_ip.Golang.Netip.{contains, has_zone, ip4, less, same_bits}
use proto_ip.Golang.Text.{codes}
use proto_ip.Tests.Samples.{host, narrow, ten, wide}

abbrev wide_row : GeofeedRecord
wide_row = record { prefix = wide; country = codes "DE"; region = []; city = []; postal = [] }

abbrev narrow_row : GeofeedRecord
narrow_row = record { prefix = narrow; country = codes "FR"; region = []; city = []; postal = [] }

abbrev feed : List GeofeedRecord
feed = wide_row ∷ narrow_row ∷ []

longest_match-IsBest_example :
    (All (λ (r : GeofeedRecord). contains r.prefix host ≡ false) feed
      × (longest_match feed host ≡ none))
    ⊎ ((r : GeofeedRecord) × (longest_match feed host ≡ some r)
        × IsBest
            (λ (x : GeofeedRecord). contains x.prefix host)
            (λ (x : GeofeedRecord). x.prefix.bits_plus_one)
            feed
            r)
longest_match-IsBest_example = longest_match-IsBest feed host

match_of_host : longest_match feed host ≡ some narrow_row
unfolding longest_match best_from contains same_bits
match_of_host = refl

abbrev pub ten_range : AsnRange
ten_range = record { start = ten; end = ip4 0x0affffff; asn = 64496; country = []; network = [] }

abbrev pub eleven_range : AsnRange
eleven_range = record {
  start = ip4 0x0b000000;
  end = ip4 0x0b0000ff;
  asn = 64497;
  country = [];
  network = [];
}

abbrev table : List AsnRange
table = ten_range ∷ eleven_range ∷ []

-- Both ranges are plain and in order.
abbrev InOrder : AsnRange → Type 0
InOrder r = (IsPlain r.start × IsPlain r.end) × (less r.end r.start ≡ false)

table-InOrder : (i : ℕ) (r : AsnRange) → get_elem? table i ≡ some r → InOrder r
unfolding less has_zone
table-InOrder zero r e =
    subst InOrder (some-injective _ _ e) (((omega arith, refl), (omega arith, refl)), refl)
table-InOrder (suc zero) r e =
    subst InOrder (some-injective _ _ e) (((omega arith, refl), (omega arith, refl)), refl)
table-InOrder (suc (suc i)) r e = cc

table-disjoint :
    (i j : ℕ) (r s : AsnRange)
    → i < j
    → get_elem? table i ≡ some r
    → get_elem? table j ≡ some s
    → less r.end s.start ≡ true
unfolding less
table-disjoint zero (suc zero) r s lt e f =
    subst (λ (x : AsnRange). less x.end s.start ≡ true) (some-injective _ _ e)
      (subst (λ (x : AsnRange). less (ip4 0x0affffff) x.start ≡ true) (some-injective _ _ f) refl)
table-disjoint zero zero r s lt e f = absurd (omega arith)
table-disjoint zero (suc (suc j)) r s lt e f = cc
table-disjoint (suc zero) zero r s lt e f = absurd (omega arith)
table-disjoint (suc zero) (suc zero) r s lt e f = absurd (omega arith)
table-disjoint (suc zero) (suc (suc j)) r s lt e f = cc
table-disjoint (suc (suc i)) j r s lt e f = cc

table-IsTable : IsTable table
table-IsTable = record {
  plain = λ i r e. (table-InOrder i r e).0;
  in_order = λ i r e. (table-InOrder i r e).1;
  disjoint = table-disjoint;
}

search_asn_range_iff_example :
    (search_asn_range table host ≡ some ten_range)
    ↔ ((i : ℕ) × (get_elem? table i ≡ some ten_range) × (in_range ten_range host ≡ true))
search_asn_range_iff_example =
    search_asn_range_iff table host ten_range table-IsTable (omega arith, (unfold has_zone in refl))
