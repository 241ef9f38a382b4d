-- ===== src/Cmd/Servers/Ends.antt =====
-- How a server ends.
use proto_ip.Prelude.{Option-cases, Result, err, inl, inr, none, ok, refl, ◌++◌, ◌↔◌, ◌≡◌}
use proto_ip.Cmd.Servers.{
  Network, bind_and_serve, died, ended_well, int_text, rdap_server, serve_on,
}
use proto_ip.Golang.Ints.{ℤ}
use proto_ip.Golang.Text.{Text, codes}
use proto_ip.Rdap.Bootstrap.{Bootstrap}

module _ {L S : Type 0} (n : Network L S) where
  -- The server listens on the port, and Serve returns without an error.
  abbrev pub Serves : ℤ → S → Type 0
  Serves port services =
      (lis : L) × (n.listen (codes ":" ++ int_text port) ≡ ok lis) × (n.serve lis services ≡ none)

  served :
      (services : S) (lis : L) → serve_on n lis services ≡ ended_well → n.serve lis services ≡ none
  unfolding serve_on
  served services lis h = elim (Option-cases (n.serve lis services)) [
    | inl well ↦ well
    | inr (e, at_serve) ↦ cc (rw (at_serve, serve_on) at h)
  ]

  listened :
      (port : ℤ) (services : S) (r : Result Text L)
      → n.listen (codes ":" ++ int_text port) ≡ r
      → elim r [
        | err e ↦ died (codes "listen " ++ ((codes ":" ++ int_text port) ++ (codes ": " ++ e)))
        | ok lis ↦ serve_on n lis services
      ]
        ≡ ended_well
      → Serves port services
  listened port services (ok lis) at_listen h = (lis, at_listen, served services lis h)
  listened port services (err e) at_listen h = cc

  bind_and_serve_iff :
      (port : ℤ) (services : S)
      → (bind_and_serve n port services ≡ ended_well) ↔ Serves port services
  unfolding bind_and_serve serve_on
  bind_and_serve_iff port services = (
    listened port services (n.listen (codes ":" ++ int_text port)) refl,
    λ s. rw (s.1, bind_and_serve, s.2, serve_on) refl,
  )

module _ {L : Type 0} (n : Network L Bootstrap) where
  booted :
      (port : ℤ) (boot : Result Text Bootstrap)
      → rdap_server n port boot ≡ ended_well
      → (b : Bootstrap) × (boot ≡ ok b) × Serves n port b
  unfolding rdap_server
  booted port (err e) h = cc
  booted port (ok b) h = (b, refl, (bind_and_serve_iff n port b).0 h)

  -- The server of RDAP ends well exactly if the bootstrap was fetched, the port could be bound and
  -- Serve, with the services over this bootstrap, returned without an error; any failure before ends it.
  pub rdap_server_iff :
      (port : ℤ) (boot : Result Text Bootstrap)
      → (rdap_server n port boot ≡ ended_well) ↔ ((b : Bootstrap) × (boot ≡ ok b) × Serves n port b)
  unfolding rdap_server
  rdap_server_iff port boot =
      (booted port boot, λ s. rw (s.1, rdap_server) ((bind_and_serve_iff n port s.0).1 s.2))
