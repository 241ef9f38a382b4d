-- ===== src/Service/Register/Measured.antt =====
-- Measured locations win.
use proto_ip.Prelude.{
  List, Option, Result, [], ap, err, list_eq, map, nat_eq, ok, refl, some, ℕ, ◌++◌, ◌∙◌, ◌∷◌, ◌≡◌,
}
use proto_ip.Geoip.Disk.{Disk}
use proto_ip.Geoip.Ipmap.{IpmapEntry, entry_result, ipmap_lookup}
use proto_ip.Geoip.Merge.{merge}
use proto_ip.Geoip.Merge.Best.{AtMost-coordinates}
use proto_ip.Geoip.Merge.Ties.{merge-IsWinner}
use proto_ip.Geoip.NetInfo.{AutnumFacts}
use proto_ip.Geoip.Rpki.{RpkiSet}
use proto_ip.Geoip.Server.{Lookup, ask_all, lookup_addr}
use proto_ip.Geoip.Server.Response.{lookup_addr-ask_all}
use proto_ip.Geoip.Setup.{AnySource, geofeed_source, ipmap_source, lookup_of, to_server}
use proto_ip.Golang.Maps.{lookup}
use proto_ip.Golang.NetText.{NetText}
use proto_ip.Golang.Netip.{Addr, addr_eq}
use proto_ip.Golang.Scanner.{Reader}
use proto_ip.Golang.Text.{Text}
use proto_ip.Messages.Geo.{GeoLocation, GeoResponse, GeoSourceResult, coordinates, ipmap}
use proto_ip.Rdap.Bootstrap.{Bootstrap}
use proto_ip.Service.Register.{
  add_source, all_sources, data_dir, load_dbip, load_ip2location, load_ipmap, load_iptoasn,
  register, with_client,
}
use proto_ip.Service.Register.Composition.{register-all_sources}

add_source-head :
    (r : Result Text AnySource) (s : AnySource) (sources : List AnySource)
    → (rest : List AnySource) × (add_source r (s ∷ sources) ≡ s ∷ rest)
unfolding add_source
add_source-head (err e) s sources = (sources, refl)
add_source-head (ok x) s sources = (sources ++ x ∷ [], refl)

module _ (t : NetText) (vrps : Reader → Result Text RpkiSet) (d : Disk) (dir : Text) where
  with_client-head :
      (boot : Result Text Bootstrap) (s : AnySource) (sources : List AnySource)
      → (rest : List AnySource) × (with_client t vrps d dir boot (s ∷ sources) ≡ s ∷ rest)
  unfolding with_client
  with_client-head (err e) s sources = (sources, refl)
  with_client-head (ok c) s sources = (sources ++ geofeed_source c ∷ [], refl)

  -- The IPmap source is the first one.
  all_sources-first :
      (boot : Result Text Bootstrap) (s : AnySource)
      → load_ipmap t vrps d dir ≡ ok s
      → (rest : List AnySource) × (all_sources t vrps d dir boot ≡ s ∷ rest)
  unfolding all_sources add_source
  all_sources-first boot s h =
      let (two, e2) = add_source-head (load_dbip t vrps d dir) s [] in
      let (three, e3) = add_source-head (load_ip2location t vrps d dir) s two in
      let (four, e4) = add_source-head (load_iptoasn t vrps d dir) s three in
      let (five, e5) = with_client-head boot s four in (five, rw (h, e2, e3, e4) e5)

-- An IPmap entry that is asked first wins the merge.
ipmap_asked :
    {W : Type 0} (t : NetText) (geofeeds : Bootstrap → Lookup W) (m : List (Addr × IpmapEntry))
    (rest : List AnySource) (a : Addr) (e : IpmapEntry) (w : W)
    → lookup a m ≡ some e
    → (rs : List (Option GeoSourceResult)) × ((ask_all
          (map (lookup_of t geofeeds) (ipmap_source m ∷ rest))
          a
          w).0
        ≡ some (entry_result t a e) ∷ rs)
unfolding ask_all lookup_of ipmap_lookup
ipmap_asked t geofeeds m rest a e w h =
    ((ask_all (map (lookup_of t geofeeds) rest) a w).0, rw (h, ipmap_lookup) refl)

-- Where the IPmap dump loads and has the queried address, the composed server answers with the
-- measured location, whatever the other sources give: the response is credited to IPmap and has the
-- coordinates of the entry.
pub register-ipmap :
    {W : Type 0} (t : NetText) (vrps : Reader → Result Text RpkiSet) (d : Disk) (env : Text)
    (boot : Result Text Bootstrap) (geofeeds : Bootstrap → Lookup W)
    (facts : W → Bootstrap → ℕ → Result Text AutnumFacts) (ptr : W → Addr → Result Text Text)
    (m : List (Addr × IpmapEntry)) (a : Addr) (e : IpmapEntry) (w : W)
    → load_ipmap t vrps d (data_dir env) ≡ ok (ipmap_source m)
    → lookup a m ≡ some e
    → let server = to_server t geofeeds facts ptr (register t vrps d env boot).geo in
      let resp = (lookup_addr t server a w).0 in
      (resp.best_source ≡ ipmap)
      × ((loc : GeoLocation) × (resp.best ≡ some loc)
          × (loc.latitude ≡ some e.lat)
          × (loc.longitude ≡ some e.lon)
          × (loc.granularity ≡ coordinates))
unfolding to_server entry_result
register-ipmap t vrps d env boot geofeeds facts ptr m a e w loads listed =
    let geo = (register t vrps d env boot).geo in
    let server = to_server t geofeeds facts ptr geo in
    let (rest, first) = all_sources-first t vrps d (data_dir env) boot (ipmap_source m) loads in
    let sources : geo.sources ≡ ipmap_source m ∷ rest =
      register-all_sources t vrps d env boot ∙ first in
    let (rs, asked) = ipmap_asked t geofeeds m rest a e w listed in
    let gathered : (ask_all server.sources a w).0 ≡ some (entry_result t a e) ∷ rs =
      ap (λ (x : List AnySource). (ask_all (map (lookup_of t geofeeds) x) a w).0) sources ∙ asked in
    let estimate = lookup_addr-ask_all t server a w in
    let merged = ap merge gathered in
    let winner =
      merge-IsWinner [] rs (entry_result t a e) _ e.lat refl refl tt (AtMost-coordinates rs) in
    (
      estimate.best_source_of ∙ ap (λ (r : GeoResponse). r.best_source) merged ∙ winner.source_of,
      (
        winner.location,
        estimate.best_of ∙ ap (λ (r : GeoResponse). r.best) merged ∙ winner.best_of,
        winner.latitude_of,
        winner.longitude_of,
        winner.granularity_of,
      ),
    )
