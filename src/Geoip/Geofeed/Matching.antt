-- ===== src/Geoip/Geofeed/Matching.antt =====
-- What a geofeed's answer rests on.
use proto_ip.Prelude.{IsBest, List, Result, [], err, inl, inr, ok, refl, some, ◌∷◌, ◌≡◌, ◌≢◌}
use proto_ip.Geoip.Geofeed.{
  FeedError, FeedNet, GeofeedCache, answer, discover, feed_result, geofeed_lookup, lookup_url,
  records,
}
use proto_ip.Geoip.GeofeedCsv.{GeofeedRecord}
use proto_ip.Geoip.GeofeedCsv.Longest.{longest_match-IsBest}
use proto_ip.Golang.NetText.{NetText}
use proto_ip.Golang.Netip.{Addr, contains}
use proto_ip.Golang.Text.{Text}
use proto_ip.Messages.Geo.{GeoSourceResult}

module _ {W : Type 0} (t : NetText) (n : FeedNet W) where
  answer-found :
      (a : Addr) (r : Result FeedError (List GeofeedRecord)) (res : GeoSourceResult)
      → answer t n a r ≡ ok (some res)
      → (recs : List GeofeedRecord) × (rec : GeofeedRecord) × (r ≡ ok recs)
        × IsBest
            (λ (x : GeofeedRecord). contains x.prefix a)
            (λ (x : GeofeedRecord). x.prefix.bits_plus_one)
            recs
            rec
        × (res ≡ feed_result t rec)
  unfolding answer
  answer-found a (err e) res h = cc
  answer-found a (ok recs) res h = elim (longest_match-IsBest recs a) [
    | inl (out, e) ↦ absurd (cc (rw e at h))
    | inr (rec, e, best) ↦ (recs, rec, refl, best, cc (rw e at h))
  ]

  -- An answer of the source is the first record of the longest prefix that contains the address,
  -- among the records of the non-empty URL that was discovered for it.
  pub geofeed_lookup-IsBest :
      (a : Addr) (cache : GeofeedCache) (w : W) (res : GeoSourceResult)
      → (geofeed_lookup t n a cache w).0.0 ≡ ok (some res)
      → (url : Text) × (recs : List GeofeedRecord) × (rec : GeofeedRecord) × ((discover t n a w).0
          ≡ ok url)
        × (url ≢ [])
        × ((records t n url cache (discover t n a w).1).0.0 ≡ ok recs)
        × IsBest
            (λ (x : GeofeedRecord). contains x.prefix a)
            (λ (x : GeofeedRecord). x.prefix.bits_plus_one)
            recs
            rec
        × (res ≡ feed_result t rec)
  unfolding geofeed_lookup lookup_url
  geofeed_lookup-IsBest a cache w res h = of_url (discover t n a w).0 h
    where
      of_url :
          (d : Result FeedError Text)
          → (lookup_url t n a d cache (discover t n a w).1).0.0 ≡ ok (some res)
          → (url : Text) × (recs : List GeofeedRecord) × (rec : GeofeedRecord) × (d ≡ ok url)
            × (url ≢ [])
            × ((records t n url cache (discover t n a w).1).0.0 ≡ ok recs)
            × IsBest
                (λ (x : GeofeedRecord). contains x.prefix a)
                (λ (x : GeofeedRecord). x.prefix.bits_plus_one)
                recs
                rec
            × (res ≡ feed_result t rec)
      of_url (err e) p = cc
      of_url (ok []) p = cc
      of_url (ok (c ∷ u)) p =
          let (recs, rec, got, best, same) =
            answer-found a (records t n (c ∷ u) cache (discover t n a w).1).0.0 res p in
          (c ∷ u, recs, rec, refl, (λ e. cc), got, best, same)
