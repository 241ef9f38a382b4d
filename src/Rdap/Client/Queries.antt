-- ===== src/Rdap/Client/Queries.antt =====
-- Where a lookup goes.
use proto_ip.Prelude.{
  All, IsBest, Result, err, false, inl, inr, refl, some, true, ◌++◌, ◌∙◌, ◌≡◌, ◌⊎◌,
}
use proto_ip.Golang.NetIp.{NetIp, to16}
use proto_ip.Golang.NetText.{NetText}
use proto_ip.Golang.Text.{Text, codes, has_suffix}
use proto_ip.Localip.{to_ip}
use proto_ip.Localip.RoundTrip.{IsNetIp, ip_from_proto-to_ip}
use proto_ip.Messages.Ip.{Ip}
use proto_ip.Rdap.Bootstrap.{
  Bootstrap, BsEntry, entries_for, entry_contains, entry_ones, with_slash,
}
use proto_ip.Rdap.Bootstrap.Resolving.{resolve-IsBest}
use proto_ip.Rdap.Client.{lookup_ip, query_at, render_net_ip}
use proto_ip.Rdap.Wire.{ip_from_proto}
use proto_ip.Localip

-- The client and the listing rebuild the same bytes.
pub same_bytes : (ip : Ip) → ip_from_proto (some ip) ≡ Localip.ip_from_proto (some ip)
unfolding ip_from_proto Localip.ip_from_proto
same_bytes ip = refl

module _ {W A : Type 0} (t : NetText) (b : Bootstrap)
    (query : Text → Text → W → Result Text A × W) where
  -- A lookup of an address in 4-byte or 16-byte form, put into a message, asks nobody if no entry of
  -- the bootstrap's family contains the address; else it makes one query, at the first entry of the
  -- longest mask among those that do, for the path of the address behind the slash of its URL.
  pub lookup_ip-to_ip :
      (ip full : NetIp) (w : W)
      → IsNetIp ip
      → to16 ip ≡ some full
      → (All (λ e. entry_contains full e ≡ false) (entries_for b full)
          × (lookup_ip t b query (some (to_ip t.ip_string ip)) w
              ≡ (err (codes "no RDAP server found for " ++ t.ip_string full), w)))
        ⊎ ((e : BsEntry) × IsBest (entry_contains full) entry_ones (entries_for b full) e
            × (has_suffix (with_slash e.url) (codes "/") ≡ true)
            × (lookup_ip t b query (some (to_ip t.ip_string ip)) w
                ≡ query
                    (with_slash e.url ++ (codes "ip/" ++ render_net_ip t full))
                    (with_slash e.url)
                    w))
  unfolding lookup_ip query_at
  lookup_ip-to_ip ip full w h e16 =
      let same : ip_from_proto (some (to_ip t.ip_string ip)) ≡ some full =
        same_bytes _ ∙ ip_from_proto-to_ip t.ip_string ip h ∙ e16 in
      elim (resolve-IsBest t b full) [
        | inl (out, e) ↦ inl (out, rw (same, e, lookup_ip, query_at) refl)
        | inr (x, best, e, slash) ↦ inr (x, best, slash, rw (same, e, lookup_ip, query_at) refl)
      ]
