-- ===== src/Geoip/NetInfo/Concurrent/Safety.antt =====
-- What the cache and the calls hold in every reachable state.
use mathlib.Core.Option.{some-injective}
use mathlib.Core.Path.{subst}
use proto_ip.Prelude.{
  Bool-cases, List, Result, beq→eq, err, inl, inr, list_eq, nat_eq, ok, refl, some, sym, ℕ, ◌==◌,
  ◌≡◌,
}
use proto_ip.Geoip.NetInfo.{AutnumFacts, autnum_facts_from_rdap}
use proto_ip.Geoip.NetInfo.Concurrent.{
  Move, Pc, Runs, Shared, System, answered, call, failed, finish, give_up, hit, init, lock_to_read,
  lock_to_write, miss, pick, refused, returned, store, storing, update, writing,
}
use proto_ip.Golang.Maps.{insert, lookup, lookup-insert}
use proto_ip.Golang.Text.{Text}
use proto_ip.Messages.Rdap.{RdapAutnumResponse}

module _ (Answers : ℕ → Result Text RdapAutnumResponse → Type 0) where
  -- Facts taken from an answer that the client may give for the AS.
  pub record IsGenuine (asn : ℕ) (f : AutnumFacts) : Type 0 where
    pub resp : RdapAutnumResponse
    pub given : Answers asn (ok resp)
    pub taken : f ≡ autnum_facts_from_rdap resp.autnum

  abbrev pub Holds : Pc → Type 0
  Holds (storing asn f) = IsGenuine asn f
  Holds (writing asn f) = IsGenuine asn f
  Holds (returned asn f) = IsGenuine asn f
  Holds (failed asn e) = Answers asn (err e)
  Holds _ = Unit

  pub record IsSound (m : Shared) (pc : ℕ → Pc) : Type 0 where
    pub cached : (asn : ℕ) (f : AutnumFacts) → lookup asn m.cache ≡ some f → IsGenuine asn f
    pub held : (i : ℕ) → Holds (pc i)

  -- A moved goroutine holds what is genuine, and so does every other as before.
  update-Holds :
      (pc : ℕ → Pc) (i : ℕ) (p : Pc)
      → ((j : ℕ) → Holds (pc j))
      → Holds p
      → (j : ℕ) → Holds (update pc i p j)
  unfolding update
  update-Holds pc i p h hp j = elim (Bool-cases (j == i)) [
    | inl e ↦ subst Holds (sym (rw e refl)) hp
    | inr e ↦ subst Holds (sym (rw e refl)) (h j)
  ]

  insert-IsGenuine :
      (asn : ℕ) (f : AutnumFacts) (cache : List (ℕ × AutnumFacts))
      → IsGenuine asn f
      → ((n : ℕ) (g : AutnumFacts) → lookup n cache ≡ some g → IsGenuine n g)
      → (n : ℕ) (g : AutnumFacts) → lookup n (insert asn f cache) ≡ some g
      → IsGenuine n g
  insert-IsGenuine asn f cache fine h n g e = elim (Bool-cases (asn == n)) [
    | inl same ↦
        subst (λ (k : ℕ). IsGenuine k g) (beq→eq asn n same)
          (subst (IsGenuine asn) (some-injective _ _ (rw (lookup-insert asn n f cache, same) at e))
            fine)
    | inr apart ↦ h n g (rw (lookup-insert asn n f cache, apart) at e)
  ]

  Move-IsSound :
      {m k : Shared} {q p : Pc} (pc : ℕ → Pc) (i : ℕ)
      → Move Answers m q k p
      → Holds q
      → IsSound m pc
      → IsSound k (update pc i p)
  Move-IsSound pc i (call asn) hq s = record {
    cached = s.cached;
    held = update-Holds pc i _ s.held tt;
  }
  Move-IsSound pc i (lock_to_read e) hq s = record {
    cached = s.cached;
    held = update-Holds pc i _ s.held tt;
  }
  Move-IsSound pc i (lock_to_write e) hq s = record {
    cached = s.cached;
    held = update-Holds pc i _ s.held hq;
  }
  Move-IsSound pc i (hit {asn = asn} {f = f} e) hq s = record {
    cached = s.cached;
    held = update-Holds pc i _ s.held (s.cached asn f e);
  }
  Move-IsSound pc i (miss e) hq s = record {
    cached = s.cached;
    held = update-Holds pc i _ s.held tt;
  }
  Move-IsSound pc i (refused a) hq s = record {
    cached = s.cached;
    held = update-Holds pc i _ s.held a;
  }
  Move-IsSound pc i (answered {resp = resp} a) hq s = record {
    cached = s.cached;
    held = update-Holds pc i _ s.held (record { resp = resp; given = a; taken = refl });
  }
  Move-IsSound {m} pc i (store {asn = asn} {f = f}) hq s = record {
    cached = insert-IsGenuine asn f m.cache hq s.cached;
    held = update-Holds pc i _ s.held hq;
  }
  Move-IsSound pc i finish hq s = record { cached = s.cached; held = update-Holds pc i _ s.held tt }
  Move-IsSound pc i give_up hq s = record {
    cached = s.cached;
    held = update-Holds pc i _ s.held tt;
  }

  -- In every interleaving of calls, what the cache holds for an AS and what a call returns are the
  -- facts of an answer that the client gave for that AS, and a failure is one that the client gave.
  pub Runs-IsSound : {s : System} → Runs Answers init s → IsSound s.shared s.pc
  unfolding lookup
  Runs-IsSound Runs.here = record { cached = λ asn f e. cc; held = λ i. tt }
  Runs-IsSound (Runs.next {t = t} r (pick i mv)) =
      let sound = Runs-IsSound r in Move-IsSound t.pc i mv (sound.held i) sound
