-- ===== src/Cmd/GeoServer/Mirror.antt =====
-- The program against Register.
use proto_ip.Prelude.{
  Bool-cases, List, Result, [], ap, err, inl, inr, is_empty, map, none, ok, refl, sym, true, ◌++◌,
  ◌∙◌, ◌∷◌, ◌≡◌, ◌≢◌, ◌⊎◌,
}
use proto_ip.Cmd.GeoServer.{geo_server, no_sources}
use proto_ip.Geoip.Disk.{Disk}
use proto_ip.Geoip.Rpki.{RpkiSet}
use proto_ip.Geoip.Setup.{kind_of}
use proto_ip.Golang.NetText.{NetText}
use proto_ip.Golang.Scanner.{Reader}
use proto_ip.Golang.Text.{Text}
use proto_ip.Messages.Geo.{GeoSource, dbip_lite, ip2location_lite}
use proto_ip.Rdap.Bootstrap.{Bootstrap}
use proto_ip.Service.Register.{
  all_sources, data_dir, load_dbip, load_ip2location, load_ipmap, load_iptoasn, register,
}
use proto_ip.Service.Register.Composition.{
  all_sources-kinds, loaded, present, present_nothing, register-all_sources,
}

append_nothing {ℓ} : {A : Type ℓ} (xs ys : List A) → xs ++ ys ≡ [] → (xs ≡ []) × (ys ≡ [])
append_nothing [] ys h = (refl, h)
append_nothing (x ∷ xs) ys h = absurd cc

is_empty-nil {ℓ} : {A : Type ℓ} (xs : List A) → is_empty xs ≡ true → xs ≡ []
is_empty-nil [] h = refl
is_empty-nil (x ∷ xs) h = absurd cc

module _ (t : NetText) (vrps : Reader → Result Text RpkiSet) (d : Disk) (dir : Text)
    (boot : Result Text Bootstrap) where
  -- No source of any kind loads.
  abbrev pub NothingLoads : Type 0
  NothingLoads =
      (loaded (load_ipmap t vrps d dir) ≡ none)
      × (loaded (load_dbip t vrps d dir) ≡ none)
      × (loaded (load_ip2location t vrps d dir) ≡ none)
      × (loaded (load_iptoasn t vrps d dir) ≡ none)
      × (loaded boot ≡ none)

  no_kinds : all_sources t vrps d dir boot ≡ [] → NothingLoads
  no_kinds h =
      let kinds = sym (all_sources-kinds t vrps d dir boot) ∙ ap (map kind_of) h in
      let (one, rest) =
        append_nothing (present GeoSource.ipmap (load_ipmap t vrps d dir)) _ kinds in
      let (two, rest) = append_nothing (present dbip_lite (load_dbip t vrps d dir)) _ rest in
      let (three, rest) =
        append_nothing (present ip2location_lite (load_ip2location t vrps d dir)) _ rest in
      let (four, five) =
        append_nothing (present GeoSource.iptoasn (load_iptoasn t vrps d dir)) _ rest in
      (
        present_nothing _ _ one,
        present_nothing _ _ two,
        present_nothing _ _ three,
        present_nothing _ _ four,
        present_nothing _ _ five,
      )

-- Over the same files, bootstrap and directory, geo-server and Register differ only where nothing
-- loads: then geo-server stops, and else it starts with the server that Register registers, which
-- has a source.
pub geo_server-register :
    (t : NetText) (vrps : Reader → Result Text RpkiSet) (d : Disk) (env : Text)
    (boot : Result Text Bootstrap)
    → ((geo_server t vrps d (data_dir env) boot ≡ err no_sources)
        × NothingLoads t vrps d (data_dir env) boot)
      ⊎ ((geo_server t vrps d (data_dir env) boot ≡ ok (register t vrps d env boot).geo)
          × ((register t vrps d env boot).geo.sources ≢ []))
unfolding geo_server register all_sources
geo_server-register t vrps d env boot =
    let dir = data_dir env in
    elim (Bool-cases (is_empty (all_sources t vrps d dir boot))) [
      | inl nothing ↦
          inl (rw (nothing, geo_server) refl, no_kinds t vrps d dir boot (is_empty-nil _ nothing))
      | inr there_are ↦ inr (
        rw (there_are, geo_server) refl,
        λ h. cc (sym (register-all_sources t vrps d env boot) ∙ h, there_are),
      )
    ]
