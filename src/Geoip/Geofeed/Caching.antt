-- ===== src/Geoip/Geofeed/Caching.antt =====
-- The cache of fetched feeds and its time to live.
use proto_ip.Prelude.{
  Bool-cases, List, Result, arith, beq_refl, err, if◌then◌else◌, inl, inr, le→ltb-false, list_eq,
  ltb, nat_eq, none, ok, refl, some, ℕ, ◌+◌, ◌-◌, ◌==◌, ◌∙◌, ◌≡◌, ◌≤◌,
}
use proto_ip.Geoip.Geofeed.{
  FeedError, FeedNet, GeofeedCache, fetch, geofeed_ttl, get_feed, put_feed, records, store,
}
use proto_ip.Geoip.GeofeedCsv.{GeofeedRecord}
use proto_ip.Golang.Maps.{lookup-insert}
use proto_ip.Golang.NetText.{NetText}
use proto_ip.Golang.Text.{Text}

-- A feed that is put into the cache is found under its URL up to the time to live and not behind
-- it, and the entries of other URLs stay as they were.
pub get_feed-put_feed :
    (now later : ℕ) (url other_url : Text) (recs : List GeofeedRecord) (cache : GeofeedCache)
    → get_feed later other_url (put_feed now url recs cache) ≡ (
        if url == other_url
        then (if ltb geofeed_ttl (later - now) then none else some recs)
        else get_feed later other_url cache)
unfolding get_feed put_feed
get_feed-put_feed now later url other_url recs cache = elim (Bool-cases (url == other_url)) [
  | inl same ↦
      let e = lookup-insert url other_url (record { recs = recs; fetched = now }) cache in
      rw (e, same, get_feed) refl
  | inr apart ↦
      let e = lookup-insert url other_url (record { recs = recs; fetched = now }) cache in
      rw (e, apart, get_feed) refl
]

module _ {W : Type 0} (t : NetText) (n : FeedNet W) where
  records_cached :
      (url : Text) (recs : List GeofeedRecord) (cache : GeofeedCache) (w : W)
      → get_feed (n.now w) url cache ≡ some recs
      → records t n url cache w ≡ ((ok recs, cache), w)
  unfolding records
  records_cached url recs cache w e = rw (e, records)

  records_fetched :
      (url : Text) (cache : GeofeedCache) (w : W)
      → get_feed (n.now w) url cache ≡ none
      → records t n url cache w
        ≡ (store t n url (n.now (fetch t n url w).1) (fetch t n url w).0 cache, (fetch t n url w).1)
  unfolding records
  records_fetched url cache w e = rw (e, records)

  stored :
      (url : Text) (now later : ℕ) (recs : List GeofeedRecord)
      (r : Result FeedError (List GeofeedRecord)) (cache : GeofeedCache)
      → (store t n url now r cache).0 ≡ ok recs
      → later ≤ now + geofeed_ttl
      → get_feed later url (store t n url now r cache).1 ≡ some recs
  unfolding store
  stored url now later recs (err e) cache h le = cc
  stored url now later recs (ok kept) cache h le =
      get_feed-put_feed now later url url kept cache
      ∙ (rw (beq_refl url, le→ltb-false geofeed_ttl (later - now) (omega arith)) (cc))

  -- Once a feed has been fetched, every request for its URL up to the time to live after the fetch
  -- gives the same records, without a request to the network and without a change to the cache.
  pub records-records :
      (url : Text) (recs : List GeofeedRecord) (cache : GeofeedCache) (w later : W)
      → get_feed (n.now w) url cache ≡ none
      → (records t n url cache w).0.0 ≡ ok recs
      → n.now later ≤ n.now (records t n url cache w).1 + geofeed_ttl
      → records t n url (records t n url cache w).0.1 later
        ≡ ((ok recs, (records t n url cache w).0.1), later)
  records-records url recs cache w later fresh h le =
      let asked = records_fetched url cache w fresh in
      records_cached url recs (records t n url cache w).0.1 later (
        rw asked (
          stored url (n.now (fetch t n url w).1) (n.now later) recs (fetch t n url w).0 cache
            (rw asked at h) (rw asked at le)))
