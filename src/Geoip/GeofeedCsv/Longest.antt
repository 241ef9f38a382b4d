-- ===== src/Geoip/GeofeedCsv/Longest.antt =====
-- The match of a geofeed.
use proto_ip.Prelude.{All, IsBest, List, best_from-IsBest, false, none, some, ◌≡◌, ◌⊎◌}
use proto_ip.Geoip.GeofeedCsv.{GeofeedRecord, longest_match}
use proto_ip.Golang.Netip.{Addr, contains}

-- Either no record contains the address and there is no match, or the match is the first record of
-- the longest prefix among those that contain it: those before it are shorter, those behind it are
-- no longer.
pub longest_match-IsBest :
    (recs : List GeofeedRecord) (a : Addr)
    → (All (λ (r : GeofeedRecord). contains r.prefix a ≡ false) recs
        × (longest_match recs a ≡ none))
      ⊎ ((r : GeofeedRecord) × (longest_match recs a ≡ some r)
          × IsBest
              (λ (x : GeofeedRecord). contains x.prefix a)
              (λ (x : GeofeedRecord). x.prefix.bits_plus_one)
              recs
              r)
unfolding longest_match
longest_match-IsBest recs a = best_from-IsBest _ _ recs
