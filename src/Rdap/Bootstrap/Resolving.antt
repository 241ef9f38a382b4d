-- ===== src/Rdap/Bootstrap/Resolving.antt =====
-- Which server a resolution gives.
use mathlib.Core.List.{reverse-append}
use proto_ip.Prelude.{
  All, Bool-cases, IsBest, IsFirst, List, Option, [], arith, best_from-IsBest, err, false, find?,
  here, if◌then◌else◌, inl, inr, none, ok, refl, some, there, true, ℕ, ◌++◌, ◌∷◌, ◌≡◌, ◌≤◌, ◌⊎◌,
}
use proto_ip.Golang.NetIp.{NetIp}
use proto_ip.Golang.NetText.{NetText}
use proto_ip.Golang.Text.{Text, codes, decimal, has_suffix}
use proto_ip.Rdap.Bootstrap.{
  AsnEntry, Bootstrap, BsEntry, covers_asn, entries_for, entry_contains, entry_ones, resolve,
  resolve_asn, with_slash,
}

-- A text with the slash ends in it.
with_slash-has_suffix : (u : Text) → has_suffix (with_slash u) (codes "/") ≡ true
unfolding with_slash
with_slash-has_suffix u = elim (Bool-cases (has_suffix u (codes "/"))) [
  | inl ends ↦ rw (ends, with_slash) ends
  | inr open_end ↦ rw (open_end, with_slash) (appended u)
]
  where
    appended : (u : Text) → has_suffix (u ++ codes "/") (codes "/") ≡ true
    appended u = unfold has_suffix in rw (reverse-append u (codes "/"))

-- A resolution by address: no server exactly if no entry of the family contains the address; else
-- that of the first entry of the longest mask among those that do, its URL ended by a slash.
pub resolve-IsBest :
    (t : NetText) (b : Bootstrap) (ip : NetIp)
    → (All (λ e. entry_contains ip e ≡ false) (entries_for b ip)
        × (resolve t b ip ≡ err (codes "no RDAP server found for " ++ t.ip_string ip)))
      ⊎ ((e : BsEntry) × IsBest (entry_contains ip) entry_ones (entries_for b ip) e
          × (resolve t b ip ≡ ok (with_slash e.url))
          × (has_suffix (with_slash e.url) (codes "/") ≡ true))
resolve-IsBest t b ip = elim (best_from-IsBest (entry_contains ip) entry_ones (entries_for b ip)) [
  | inl (h, e) ↦ inl (h, unfold resolve in rw (e, resolve))
  | inr (r, e, h) ↦ inr (r, h, unfold resolve in rw (e, resolve), with_slash-has_suffix r.url)
]

-- The entry's URL, if the entry covers the number.
abbrev pub server_of : ℕ → AsnEntry → Option Text
server_of n e = if covers_asn n e then some (with_slash e.url) else none

find-server :
    (n : ℕ) (es : List AsnEntry)
    → (All (λ e. server_of n e ≡ none) es × (find? (covers_asn n) es ≡ none))
      ⊎ ((e : AsnEntry) × IsFirst (server_of n) (with_slash e.url) es
          × (find? (covers_asn n) es ≡ some e)
          × (e.start ≤ n)
          × (n ≤ e.end))
unfolding find?
find-server n [] = inl (tt, refl)
find-server n (e ∷ es) = elim (Bool-cases (covers_asn n e)) [
  | inl hit ↦ inr (
    e,
    here (rw hit),
    rw hit,
    (unfold covers_asn in ground arith),
    (unfold covers_asn in ground arith),
  )
  | inr miss ↦ elim (find-server n es) [
    | inl (h, p) ↦ inl ((rw miss, h), rw miss p)
    | inr (x, h, p, lo, hi) ↦ inr (x, there (rw miss) h, rw miss p, lo, hi)
  ]
]

-- A resolution by AS number: no server exactly if no range covers the number; else the first range
-- in registry order that does, its URL ended by a slash.
pub resolve_asn-IsFirst :
    (b : Bootstrap) (n : ℕ)
    → (All (λ e. server_of n e ≡ none) b.asn
        × (resolve_asn b n ≡ err (codes "no RDAP server found for AS" ++ decimal n)))
      ⊎ ((e : AsnEntry) × IsFirst (server_of n) (with_slash e.url) b.asn
          × (resolve_asn b n ≡ ok (with_slash e.url))
          × (e.start ≤ n)
          × (n ≤ e.end)
          × (has_suffix (with_slash e.url) (codes "/") ≡ true))
resolve_asn-IsFirst b n = elim (find-server n b.asn) [
  | inl (h, e) ↦ inl (h, unfold resolve_asn in rw (e, resolve_asn))
  | inr (x, h, e, lo, hi) ↦
      inr (x, h, unfold resolve_asn in rw (e, resolve_asn), lo, hi, with_slash-has_suffix x.url)
]
