-- ===== src/Tests/Registries.antt =====
-- Resolutions in a registry of one IPv4 network and one range of AS numbers.
use proto_ip.Prelude.{
  All, IsBest, IsFirst, [], err, false, none, ok, true, ◌++◌, ◌∷◌, ◌≡◌, ◌≤◌, ◌⊎◌,
}
use proto_ip.Golang.NetIp.{NetIp}
use proto_ip.Golang.Text.{codes, decimal, has_suffix}
use proto_ip.Rdap.Bootstrap.{
  AsnEntry, Bootstrap, BsEntry, entries_for, entry_contains, entry_ones, resolve, resolve_asn,
  with_slash,
}
use proto_ip.Rdap.Bootstrap.Resolving.{resolve-IsBest, resolve_asn-IsFirst, server_of}
use proto_ip.Tests.Samples.{texts}

abbrev registry : Bootstrap
registry = record {
  v4 =
      record {
        prefix = record { ip = 10 ∷ 0 ∷ 0 ∷ 0 ∷ []; mask = 255 ∷ 0 ∷ 0 ∷ 0 ∷ [] };
        url = codes "https://rdap.example.net";
        mirrors = [];
      }
      ∷ [];
  v6 = [];
  asn =
      record { start = 64496; end = 64511; url = codes "https://rdap.example.org/"; mirrors = [] }
      ∷ [];
}

abbrev ten_ip : NetIp
ten_ip = 10 ∷ 1 ∷ 2 ∷ 3 ∷ []

resolve-IsBest_example :
    (All (λ e. entry_contains ten_ip e ≡ false) (entries_for registry ten_ip)
      × (resolve texts registry ten_ip
          ≡ err (codes "no RDAP server found for " ++ texts.ip_string ten_ip)))
    ⊎ ((e : BsEntry) × IsBest (entry_contains ten_ip) entry_ones (entries_for registry ten_ip) e
        × (resolve texts registry ten_ip ≡ ok (with_slash e.url))
        × (has_suffix (with_slash e.url) (codes "/") ≡ true))
resolve-IsBest_example = resolve-IsBest texts registry ten_ip

resolve_asn-IsFirst_example :
    (All (λ e. server_of 64500 e ≡ none) registry.asn
      × (resolve_asn registry 64500 ≡ err (codes "no RDAP server found for AS" ++ decimal 64500)))
    ⊎ ((e : AsnEntry) × IsFirst (server_of 64500) (with_slash e.url) registry.asn
        × (resolve_asn registry 64500 ≡ ok (with_slash e.url))
        × (e.start ≤ 64500)
        × (64500 ≤ e.end)
        × (has_suffix (with_slash e.url) (codes "/") ≡ true))
resolve_asn-IsFirst_example = resolve_asn-IsFirst registry 64500
