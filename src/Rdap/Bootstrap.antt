-- ===== src/Rdap/Bootstrap.antt =====
-- rdap/bootstrap.go: the registries that map prefixes and AS numbers to RDAP servers. Fetching and
-- the JSON decoder are parameters; a service is the list of its raw JSON parts.
pub mod Fetching
pub mod Resolving
use proto_ip.Prelude.{
  Bool, List, Option, Result, [], best_from, err, find?, if◌then◌else◌, leb, map_err, none, ok,
  some, ℕ, ◌&&◌, ◌++◌, ◌>>=◌, ◌∷◌,
}
use proto_ip.Golang.NetIp.{IpNet, NetIp, mask_size, net_contains, to4}
use proto_ip.Golang.NetText.{NetText}
use proto_ip.Golang.Text.{Text, codes, decimal, has_suffix}

-- bsEntry; the loaders only make entries with at least one URL, the first of which is `url`.
pub record BsEntry : Type 0 where
  pub prefix : IpNet
  pub url : Text
  pub mirrors : List Text

-- asnEntry
pub record AsnEntry : Type 0 where
  pub start : ℕ
  pub end : ℕ
  pub url : Text
  pub mirrors : List Text

pub record Bootstrap : Type 0 where
  pub v4 : List BsEntry
  pub v6 : List BsEntry
  pub asn : List AsnEntry

-- The decoders that the loaders call; none is an error.
pub record Decoders : Type 0 where
  -- json.Unmarshal into []string
  pub strings : Text → Option (List Text)
  -- net.ParseCIDR, its network
  pub parse_cidr : Text → Option IpNet
  -- fmt.Sscanf "%d-%d" and "%d" into uint32
  pub scan_range : Text → Option (ℕ × ℕ)
  pub scan_one : Text → Option ℕ

-- The names and the URLs of a service, where it has both and a URL.
pub record Service : Type 0 where
  pub names : List Text
  pub url : Text
  pub mirrors : List Text

with_urls : List Text → List Text → Option Service
with_urls names [] = none
with_urls names (u ∷ us) = some (record { names = names; url = u; mirrors = us })

unfoldable pub service_of : Decoders → List Text → Option Service
unfolding with_urls
service_of d [] = none
service_of d (_ ∷ []) = none
service_of d (names ∷ urls ∷ more) = elim (d.strings names) [
  | none ↦ none
  | some ns ↦ elim (d.strings urls) [ none ↦ none | some us ↦ with_urls ns us ]
]

unfoldable pub prefix_entries : Decoders → Service → List Text → List BsEntry
prefix_entries d s [] = []
prefix_entries d s (p ∷ ps) = elim (d.parse_cidr p) [
  | none ↦ prefix_entries d s ps
  | some n ↦ record { prefix = n; url = s.url; mirrors = s.mirrors } ∷ prefix_entries d s ps
]

-- The loop of `fetchBootstrap` over the services.
unfoldable pub bootstrap_entries : Decoders → List (List Text) → List BsEntry
bootstrap_entries d [] = []
bootstrap_entries d (svc ∷ svcs) = elim (service_of d svc) [
  | none ↦ bootstrap_entries d svcs
  | some s ↦ prefix_entries d s s.names ++ bootstrap_entries d svcs
]

-- "start-end", or a single number
unfoldable pub asn_range_of : Decoders → Text → Option (ℕ × ℕ)
asn_range_of d r = elim (d.scan_range r) [
  | some range ↦ some range
  | none ↦ elim (d.scan_one r) [ none ↦ none | some n ↦ some (n, n) ]
]

unfoldable pub range_entries : Decoders → Service → List Text → List AsnEntry
range_entries d s [] = []
range_entries d s (r ∷ rs) = elim (asn_range_of d r) [
  | none ↦ range_entries d s rs
  | some range ↦
      record { start = range.0; end = range.1; url = s.url; mirrors = s.mirrors }
      ∷ range_entries d s rs
]

-- The loop of `fetchASNBootstrap` over the services.
unfoldable pub asn_entries : Decoders → List (List Text) → List AsnEntry
asn_entries d [] = []
asn_entries d (svc ∷ svcs) = elim (service_of d svc) [
  | none ↦ asn_entries d svcs
  | some s ↦ range_entries d s s.names ++ asn_entries d svcs
]

-- NewBootstrap on what the three fetches give.
unfoldable pub new_bootstrap :
    Decoders
    → Result Text (List (List Text))
    → Result Text (List (List Text))
    → Result Text (List (List Text))
    → Result Text Bootstrap
new_bootstrap d ipv4 ipv6 asns = do
  a ← map_err (λ e. codes "rdap bootstrap ipv4: " ++ e) ipv4
  b ← map_err (λ e. codes "rdap bootstrap ipv6: " ++ e) ipv6
  c ← map_err (λ e. codes "rdap bootstrap asn: " ++ e) asns
  ok (record { v4 = bootstrap_entries d a; v6 = bootstrap_entries d b; asn = asn_entries d c })

-- `if !strings.HasSuffix(u, "/") { u += "/" }`
unfoldable pub with_slash : Text → Text
with_slash u = if has_suffix u (codes "/") then u else u ++ codes "/"

unfoldable pub covers_asn : ℕ → AsnEntry → Bool
covers_asn n e = leb e.start n && leb n e.end

-- ResolveASN
unfoldable pub resolve_asn : Bootstrap → ℕ → Result Text Text
resolve_asn b n = elim (find? (covers_asn n) b.asn) [
  | some e ↦ ok (with_slash e.url)
  | none ↦ err (codes "no RDAP server found for AS" ++ decimal n)
]

-- The entries of the address's family.
unfoldable pub entries_for : Bootstrap → NetIp → List BsEntry
entries_for b ip = elim (to4 ip) [ none ↦ b.v6 | some _ ↦ b.v4 ]

abbrev pub entry_contains : NetIp → BsEntry → Bool
entry_contains ip e = net_contains e.prefix ip

abbrev pub entry_ones : BsEntry → ℕ
entry_ones e = mask_size e.prefix.mask

-- Resolve
unfoldable pub resolve : NetText → Bootstrap → NetIp → Result Text Text
resolve t b ip = elim (best_from (entry_contains ip) entry_ones none (entries_for b ip)) [
  | none ↦ err (codes "no RDAP server found for " ++ t.ip_string ip)
  | some e ↦ ok (with_slash e.url)
]
