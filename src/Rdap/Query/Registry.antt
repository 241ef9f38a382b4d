-- ===== src/Rdap/Query/Registry.antt =====
-- A lookup from the address to the registry's answer.
use proto_ip.Prelude.{IsBest, Result, ap, inl, inr, ok, some, ◌++◌, ◌≡◌}
use proto_ip.Golang.NetIp.{NetIp, to16}
use proto_ip.Golang.NetText.{NetText}
use proto_ip.Golang.Text.{Text, codes}
use proto_ip.Localip.{to_ip}
use proto_ip.Localip.RoundTrip.{IsNetIp}
use proto_ip.Messages.Rdap.{RdapNetwork, RdapResponse}
use proto_ip.Rdap.Bootstrap.{
  Bootstrap, BsEntry, entries_for, entry_contains, entry_ones, with_slash,
}
use proto_ip.Rdap.Client.{lookup_ip, render_net_ip}
use proto_ip.Rdap.Client.Queries.{lookup_ip-to_ip}
use proto_ip.Rdap.Parse.{network_of}
use proto_ip.Rdap.Query.{RdapNet, query}
use proto_ip.Rdap.Query.Answers.{IsReply, query_iff}

-- A lookup of an address in 4-byte or 16-byte form, put into a message, that succeeds is the answer
-- of one registry: the first entry of the longest mask among those of the bootstrap's family that
-- contain the address, asked for the path of the address; its server is the one in the network.
pub lookup_ip-IsReply :
    {W : Type 0} (t : NetText) (b : Bootstrap) (n : RdapNet W) (ip full : NetIp) (w : W)
    (resp : RdapResponse)
    → IsNetIp ip
    → to16 ip ≡ some full
    → (lookup_ip t b (query n) (some (to_ip t.ip_string ip)) w).0 ≡ ok resp
    → (e : BsEntry) × IsBest (entry_contains full) entry_ones (entries_for b full) e
      × IsReply n
          (with_slash e.url ++ (codes "ip/" ++ render_net_ip t full))
          (with_slash e.url)
          w
          resp
      × (resp.network.rdap_server ≡ with_slash e.url)
unfolding network_of
lookup_ip-IsReply t b n ip full w resp h f done =
    elim (lookup_ip-to_ip t b (query n) ip full w h f) [
      | inl (out, e) ↦ absurd (cc (done, ap (λ (r : Result Text RdapResponse × _). r.0) e))
      | inr (x, best, slash, e) ↦
          let reply : IsReply n (with_slash x.url ++ (codes "ip/" ++ render_net_ip t full))
              (with_slash x.url) w resp =
            (query_iff n _ _ w resp).0 (rw e at done) in
          (x, best, reply, ap (λ (m : RdapNetwork). m.rdap_server) reply.made)
    ]
