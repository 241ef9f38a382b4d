-- ===== src/Geoip/NetInfo/Concurrent/Exclusion.antt =====
-- The mutex: who is between a Lock and its Unlock.
use mathlib.Core.Path.{subst}
use proto_ip.Prelude.{
  Bool, Bool-cases, Result, beq-false→ne, beq→eq, false, inl, inr, list_eq, nat_eq, refl, sym, true,
  ℕ, ◌==◌, ◌∙◌, ◌≡◌, ◌⊎◌,
}
use proto_ip.Geoip.NetInfo.Concurrent.{
  Move, Pc, Runs, Shared, System, answered, call, finish, give_up, hit, init, lock_to_read,
  lock_to_write, miss, pick, reading, refused, store, update, writing,
}
use proto_ip.Geoip.NetInfo.Concurrent.Steps.{not_updated, updated}
use proto_ip.Golang.Text.{Text}
use proto_ip.Messages.Rdap.{RdapAutnumResponse}

-- Between a Lock and its Unlock, where the cache is read or written.
unfoldable pub in_section : Pc → Bool
in_section (reading asn) = true
in_section (writing asn f) = true
in_section _ = false

-- The mutex is locked just while a goroutine is in a critical section, and there is one at most.
pub record IsGuarded (locked : Bool) (pc : ℕ → Pc) : Type 0 where
  pub held : (i : ℕ) → in_section (pc i) ≡ true → locked ≡ true
  pub alone : (i j : ℕ) → in_section (pc i) ≡ true → in_section (pc j) ≡ true → i ≡ j
  pub holder : locked ≡ true → (i : ℕ) × (in_section (pc i) ≡ true)

module _ (pc : ℕ → Pc) (i : ℕ) (p : Pc) where
  -- Who is in a section behind a move of `i`: `i`, or one that was there before.
  inside-cases :
      (j : ℕ)
      → in_section (update pc i p j) ≡ true
      → ((j ≡ i) × (in_section p ≡ true)) ⊎ (((j == i) ≡ false) × (in_section (pc j) ≡ true))
  unfolding update
  inside-cases j h = elim (Bool-cases (j == i)) [
    | inl same ↦ inl (beq→eq j i same, rw same at h)
    | inr apart ↦ inr (apart, rw apart at h)
  ]

  acquire-IsGuarded : IsGuarded false pc → in_section p ≡ true → IsGuarded true (update pc i p)
  acquire-IsGuarded g e = record {
    held = λ j h. refl;
    alone = λ j k hj hk. only j hj ∙ sym (only k hk);
    holder = λ _. (i, ap_section (updated pc i p));
  }
    where
      only : (j : ℕ) → in_section (update pc i p j) ≡ true → j ≡ i
      only j h = elim (inside-cases j h) [
        | inl (same, x) ↦ same
        | inr (apart, before) ↦ absurd (cc (g.held j before))
      ]

      ap_section : update pc i p i ≡ p → in_section (update pc i p i) ≡ true
      ap_section u = rw u e

  module _ (out : in_section p ≡ false) where
    still :
        (j : ℕ)
        → in_section (update pc i p j) ≡ true
        → ((j == i) ≡ false) × (in_section (pc j) ≡ true)
    still j h = elim (inside-cases j h) [
      | inl (same, x) ↦ absurd (cc (x, out))
      | inr before ↦ before
    ]

    release-IsGuarded :
        {locked : Bool}
        → IsGuarded locked pc
        → in_section (pc i) ≡ true
        → IsGuarded false (update pc i p)
    release-IsGuarded g e = record {
      held = λ j h. absurd (nobody j h);
      alone = λ j k hj hk. absurd (nobody j hj);
      holder = λ z. cc;
    }
      where
        nobody : (j : ℕ) → in_section (update pc i p j) ≡ true → ⊥
        nobody j h = beq-false→ne j i (still j h).0 (g.alone j i (still j h).1 e)

    keep-IsGuarded :
        {locked : Bool}
        → IsGuarded locked pc
        → in_section (pc i) ≡ false
        → IsGuarded locked (update pc i p)
    keep-IsGuarded g e = record {
      held = λ j h. g.held j (still j h).1;
      alone = λ j k hj hk. g.alone j k (still j hj).1 (still k hk).1;
      holder = λ z. let (j, h) = g.holder z in (j, elsewhere j h);
    }
      where
        elsewhere : (j : ℕ) → in_section (pc j) ≡ true → in_section (update pc i p j) ≡ true
        elsewhere j h = elim (Bool-cases (j == i)) [
          | inl same ↦
              absurd (cc (subst (λ (k : ℕ). in_section (pc k) ≡ true) (beq→eq j i same) h, e))
          | inr apart ↦ rw (not_updated pc i j p apart) h
        ]

module _ (Answers : ℕ → Result Text RdapAutnumResponse → Type 0) where
  -- A step takes the free mutex, or releases it, or is outside the critical sections.
  Move-cases :
      {m k : Shared} {q p : Pc}
      → Move Answers m q k p
      → ((m.locked ≡ false) × (k.locked ≡ true) × (in_section p ≡ true))
        ⊎ ((k.locked ≡ false) × (in_section q ≡ true) × (in_section p ≡ false))
        ⊎ ((k.locked ≡ m.locked) × (in_section q ≡ false) × (in_section p ≡ false))
  unfolding in_section
  Move-cases (call asn) = inr (inr (refl, refl, refl))
  Move-cases (lock_to_read e) = inl (e, refl, refl)
  Move-cases (hit e) = inr (inl (refl, refl, refl))
  Move-cases (miss e) = inr (inl (refl, refl, refl))
  Move-cases (refused a) = inr (inr (refl, refl, refl))
  Move-cases (answered a) = inr (inr (refl, refl, refl))
  Move-cases (lock_to_write e) = inl (e, refl, refl)
  Move-cases store = inr (inl (refl, refl, refl))
  Move-cases finish = inr (inr (refl, refl, refl))
  Move-cases give_up = inr (inr (refl, refl, refl))

  Move-IsGuarded :
      {m k : Shared} {p : Pc} (pc : ℕ → Pc) (i : ℕ)
      → Move Answers m (pc i) k p
      → IsGuarded m.locked pc
      → IsGuarded k.locked (update pc i p)
  Move-IsGuarded {p = p} pc i mv g = elim (Move-cases mv) [
    | inl (free, taken, e) ↦
        rw taken (acquire-IsGuarded pc i p (subst (λ (b : Bool). IsGuarded b pc) free g) e)
    | inr (inl (free, e, out)) ↦ rw free (release-IsGuarded pc i p out g e)
    | inr (inr (same, e, out)) ↦ rw same (keep-IsGuarded pc i p out g e)
  ]

  -- In every interleaving of calls the mutex is locked just while a goroutine is between a Lock and
  -- its Unlock, where the cache is read and written, and never are two goroutines there.
  pub Runs-IsGuarded : {s : System} → Runs Answers init s → IsGuarded s.shared.locked s.pc
  unfolding in_section
  Runs-IsGuarded Runs.here = record {
    held = λ i h. cc;
    alone = λ i j h k. absurd (cc);
    holder = λ h. cc;
  }
  Runs-IsGuarded (Runs.next {t = t} r (pick i mv)) = Move-IsGuarded t.pc i mv (Runs-IsGuarded r)
