-- ===== src/Geoip/Rpki/Verdict.antt =====
-- The loop over prefix lengths against the list of accepted VRPs.
use mathlib.Core.List.{Memᴰ}
use mathlib.Core.List.Memᴰ.{append_cases, append_left, append_right}
use mathlib.Core.Path.{subst}
use proto_ip.Prelude.{
  All, Bool, Bool-cases, List, [], ap, arith, false, filter, filter-mem, if◌then◌else◌, inl, inr,
  list_eq, mem-filter, nat_eq, refl, some, suc, sym, true, zero, ℕ, ◌&&◌, ◌+◌, ◌<◌, ◌==◌, ◌↔◌, ◌∙◌,
  ◌∷◌, ◌≡◌, ◌≤◌,
}
use proto_ip.Geoip.Rpki.{RpkiSet, Vrp, at, covering, covering_from, probe}
use proto_ip.Geoip.Rpki.Index.{Indexes, having}
use proto_ip.Golang.Netip.{
  Addr, Prefix, addr_eq, addr_prefix, bit_len, contains, has_zone, invalid, ip4, ip6, is4,
  prefix_eq,
}
use proto_ip.Golang.Netip.Laws.{IsNetwork, IsNetworkOf}
use proto_ip.Golang.Netip.Probe.{addr_prefix_total, bits_plus_one-le-bit_len, probe-eq-contains}

-- Tests that agree on every element of a list keep the same elements.
filter_agree :
    (P Q : Vrp → Bool) (log : List Vrp) → All (λ v. P v ≡ Q v) log → filter P log ≡ filter Q log
unfolding filter
filter_agree P Q [] h = refl
filter_agree P Q (v ∷ log) (e, h) = ground (arith, filter_agree P Q log h)

addr_prefix-is4 :
    (a : Addr) (plen : ℕ) (q : Prefix) → addr_prefix a plen ≡ some q → is4 q.addr ≡ is4 a
unfolding addr_prefix is4
addr_prefix-is4 invalid plen q e = ground arith
addr_prefix-is4 (ip4 x) plen q e = ground arith
addr_prefix-is4 (ip6 x zone) plen q e = ground arith

network_bits_pos : (p : Prefix) → IsNetwork p → 0 < p.bits_plus_one
network_bits_pos p = of p.addr p.bits_plus_one
  where
    of : (a : Addr) (n : ℕ) → IsNetworkOf a n → 0 < n
    of invalid n h = elim h [ ]
    of (ip4 x) zero h = elim h [ ]
    of (ip4 x) (suc n) h = omega arith
    of (ip6 x zone) zero h = elim h [ ]
    of (ip6 x zone) (suc n) h = omega arith

All-mem : (P : Vrp → Type 0) {v : Vrp} {log : List Vrp} → All P log → Memᴰ v log → P v
All-mem P {log = x ∷ xs} h (Memᴰ.head e) = subst P (sym e) h.0
All-mem P {log = x ∷ xs} h (Memᴰ.tail m) = All-mem P h.1 m
All-mem P {log = []} h m = elim m [ ]

-- The VRPs whose prefix contains the address and has `n - 1` bits.
abbrev containing : Addr → ℕ → Vrp → Bool
containing a n v = contains v.prefix a && v.prefix.bits_plus_one == n

module _ (s : RpkiSet) (log : List Vrp) (h : Indexes s log)
    (networks : All (λ (v : Vrp). IsNetwork v.prefix) log) (a : Addr)
    (no_zone : has_zone a ≡ false) where
  agree-All :
      (plen : ℕ) (q : Prefix) (vs : List Vrp)
      → addr_prefix a plen ≡ some q
      → All (λ (v : Vrp). IsNetwork v.prefix) vs
      → All (λ (v : Vrp). (v.prefix == q) ≡ containing a (suc plen) v) vs
  agree-All plen q [] e n = tt
  agree-All plen q (v ∷ vs) e (n, ns) =
      (probe-eq-contains v.prefix a plen q n no_zone e, agree-All plen q vs e ns)

  -- The map of the address's family answers for the prefixes of the address.
  at_family :
      (plen : ℕ) (q : Prefix)
      → addr_prefix a plen ≡ some q
      → at q (if is4 a then s.v4 else s.v6) ≡ having q log
  at_family plen q e = elim (Bool-cases (is4 a)) [
    | inl yes4 ↦
        ap (λ (b : Bool). at q (if b then s.v4 else s.v6)) yes4
        ∙ h.four q (addr_prefix-is4 a plen q e ∙ yes4)
    | inr no4 ↦
        ap (λ (b : Bool). at q (if b then s.v4 else s.v6)) no4
        ∙ h.six q (addr_prefix-is4 a plen q e ∙ no4)
  ]

  probe-filter :
      (plen : ℕ)
      → plen ≤ bit_len a
      → probe (if is4 a then s.v4 else s.v6) a plen ≡ filter (containing a (suc plen)) log
  unfolding probe
  probe-filter plen le =
      let (q, e) = addr_prefix_total a plen le in
      rw (e, probe)
        (at_family plen q e
          ∙ filter_agree (λ (v : Vrp). v.prefix == q) (containing a (suc plen)) log
              (agree-All plen q log e networks))

  covering_from_sound :
      (n plen : ℕ) (v : Vrp)
      → plen + n ≤ suc (bit_len a)
      → Memᴰ v (covering_from (if is4 a then s.v4 else s.v6) a n plen)
      → Memᴰ v log × (contains v.prefix a ≡ true)
  unfolding covering_from
  covering_from_sound zero plen v le m = elim m [ ]
  covering_from_sound (suc n) plen v le m =
      elim (append_cases (probe (if is4 a then s.v4 else s.v6) a plen) m) [
        | inr later ↦ covering_from_sound n (suc plen) v (omega arith) later
        | inl now ↦
            let (k, t) =
              filter-mem (containing a (suc plen)) log
                (rw (probe-filter plen (omega arith)) at now) in
            (k, ground arith)
      ]

  covering_from_complete :
      (n plen : ℕ) (v : Vrp)
      → plen + n ≤ suc (bit_len a)
      → Memᴰ v log
      → contains v.prefix a ≡ true
      → plen < v.prefix.bits_plus_one
      → v.prefix.bits_plus_one ≤ plen + n
      → Memᴰ v (covering_from (if is4 a then s.v4 else s.v6) a n plen)
  unfolding covering_from
  covering_from_complete zero plen v le m c lo hi = absurd (omega arith)
  covering_from_complete (suc n) plen v le m c lo hi =
      elim (Bool-cases (v.prefix.bits_plus_one == suc plen)) [
        | inl now ↦ append_left (covering_from (if is4 a then s.v4 else s.v6) a n (suc plen)) (
            rw (probe-filter plen (omega arith))
              (mem-filter (containing a (suc plen)) m (ground arith)))
        | inr later ↦
            append_right (probe (if is4 a then s.v4 else s.v6) a plen)
              (covering_from_complete n (suc plen) v (omega arith) m c (ground arith) (omega arith))
      ]

  -- The loop finds exactly the VRPs of the log whose prefix contains the address.
  pub covering_iff : (v : Vrp) → Memᴰ v (covering s a) ↔ (Memᴰ v log × (contains v.prefix a ≡ true))
  unfolding covering
  covering_iff v = (
    covering_from_sound (suc (bit_len a)) 0 v (omega arith),
    λ h'.
        covering_from_complete (suc (bit_len a)) 0 v (omega arith) h'.0 h'.1
          (network_bits_pos v.prefix (All-mem (λ (w : Vrp). IsNetwork w.prefix) networks h'.0))
          (omega (
            arith,
            bits_plus_one-le-bit_len v.prefix a
                (All-mem (λ (w : Vrp). IsNetwork w.prefix) networks h'.0) h'.1,
          )),
  )
