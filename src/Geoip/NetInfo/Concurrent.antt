-- ===== src/Geoip/NetInfo/Concurrent.antt =====
-- geoip/netinfo.go, `Enrich` as goroutines run it: the mutex is held for the lookup and for the
-- store, not for the query between them. Taking the mutex is a step of its own, which waits while
-- it is held; what is done under it, with the Unlock at its end, is the next step.
mod Steps
pub mod Exclusion
pub mod Safety
pub mod Progress
pub mod Queries
use proto_ip.Prelude.{
  Bool, List, Result, [], err, false, if◌then◌else◌, list_eq, nat_eq, none, ok, some, true, ℕ, ◌==◌,
  ◌∷◌, ◌≡◌,
}
use proto_ip.Geoip.NetInfo.{AutnumFacts, autnum_facts_from_rdap}
use proto_ip.Golang.Maps.{insert, lookup}
use proto_ip.Golang.Text.{Text}
use proto_ip.Messages.Rdap.{RdapAutnumResponse}

-- The cache, whether e.mu is locked, and the AS numbers that have been asked for, the last one
-- first.
pub record Shared : Type 0 where
  pub cache : List (ℕ × AutnumFacts)
  pub locked : Bool
  pub queries : List ℕ

-- Where a call stands.
pub data Pc : Type 0 where
  idle : Pc
  looking : ℕ → Pc  -- at the first e.mu.Lock()
  reading : ℕ → Pc  -- behind it
  asking : ℕ → Pc  -- in e.client.LookupAutnum
  storing : ℕ → AutnumFacts → Pc  -- at the second e.mu.Lock()
  writing : ℕ → AutnumFacts → Pc  -- behind it
  returned : ℕ → AutnumFacts → Pc
  failed : ℕ → Text → Pc

-- One step of one goroutine, where `Answers` says what the client may give for an AS number.
pub data Move (Answers : ℕ → Result Text RdapAutnumResponse → Type 0) (m : Shared)
    : Pc → Shared → Pc → Type 0 where
  call : (asn : ℕ) → Move Answers m idle m (looking asn)
  lock_to_read :
      {asn : ℕ}
      → m.locked ≡ false
      → Move Answers m (looking asn) (record m { locked = true }) (reading asn)
  hit :
      {asn : ℕ} {f : AutnumFacts}
      → lookup asn m.cache ≡ some f
      → Move Answers m (reading asn) (record m { locked = false }) (returned asn f)
  miss :
      {asn : ℕ}
      → lookup asn m.cache ≡ none
      → Move Answers m
          (reading asn)
          (record m { locked = false; queries = asn ∷ m.queries })
          (asking asn)
  refused :
      {asn : ℕ} {e : Text} → Answers asn (err e) → Move Answers m (asking asn) m (failed asn e)
  answered :
      {asn : ℕ} {resp : RdapAutnumResponse}
      → Answers asn (ok resp)
      → Move Answers m (asking asn) m (storing asn (autnum_facts_from_rdap resp.autnum))
  lock_to_write :
      {asn : ℕ} {f : AutnumFacts}
      → m.locked ≡ false
      → Move Answers m (storing asn f) (record m { locked = true }) (writing asn f)
  store :
      {asn : ℕ} {f : AutnumFacts}
      → Move Answers m
          (writing asn f)
          (record m { cache = insert asn f m.cache; locked = false })
          (returned asn f)
  finish : {asn : ℕ} {f : AutnumFacts} → Move Answers m (returned asn f) m idle
  give_up : {asn : ℕ} {e : Text} → Move Answers m (failed asn e) m idle

-- Any number of goroutines over one enricher.
pub record System : Type 0 where
  pub shared : Shared
  pub pc : ℕ → Pc

unfoldable pub update : (ℕ → Pc) → ℕ → Pc → ℕ → Pc
update pc i p j = if j == i then p else pc j

pub data Step (Answers : ℕ → Result Text RdapAutnumResponse → Type 0) (s : System)
    : System → Type 0 where
  pick :
      (i : ℕ) {m : Shared} {p : Pc}
      → Move Answers s.shared (s.pc i) m p
      → Step Answers s (record { shared = m; pc = update s.pc i p })

-- newRDAPEnricher, with no call under way
abbrev pub init : System
init = record { shared = record { cache = []; locked = false; queries = [] }; pc = λ _. idle }

-- The states that some order of steps leads to.
pub data Runs (Answers : ℕ → Result Text RdapAutnumResponse → Type 0) (s : System)
    : System → Type 0 where
  here : Runs Answers s s
  next : {t u : System} → Runs Answers s t → Step Answers t u → Runs Answers s u
