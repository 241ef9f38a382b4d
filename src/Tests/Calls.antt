-- ===== src/Tests/Calls.antt =====
-- Calls of Enrich for the AS 7.
use proto_ip.Prelude.{Result, [], false, list_eq, nat_eq, refl, true, ℕ, ◌<◌, ◌∷◌, ◌≡◌}
use proto_ip.Geoip.NetInfo.{AutnumFacts, autnum_facts_from_rdap}
use proto_ip.Geoip.NetInfo.Concurrent.{
  Move, Pc, Runs, System, asking, call, hit, idle, init, lock_to_read, lock_to_write, looking, miss,
  pick, reading, returned, storing, update, writing,
}
use proto_ip.Geoip.NetInfo.Concurrent.Queries.{
  IsSettled, Runs-IsSettled, overlapping_queries, times_asked,
}
use proto_ip.Geoip.NetInfo.Concurrent.Safety.{IsSound, Runs-IsSound}
use proto_ip.Golang.Maps.{insert, lookup}
use proto_ip.Golang.Text.{Text, codes}
use proto_ip.Messages.Rdap.{RdapAutnum, RdapAutnumResponse}

abbrev autnum : RdapAutnum
autnum = record {
  handle = codes "AS7";
  name = codes "SEVEN";
  type = [];
  country = [];
  start_autnum = 7;
  end_autnum = 7;
  status = [];
  entities = [];
  events = [];
  links = [];
  rdap_server = [];
  rdap_conformance = [];
}

abbrev facts : AutnumFacts
facts = autnum_facts_from_rdap autnum

-- A client that may give anything.
abbrev Anything : ℕ → Result Text RdapAutnumResponse → Type 0
Anything _ _ = Unit

abbrev answer : RdapAutnumResponse
answer = record { autnum = autnum; raw_json = [] }

abbrev asked_pc : ℕ → Pc
asked_pc =
    update (update (update (update init.pc 0 (looking 7)) 0 (reading 7)) 0 (asking 7)) 0
      (storing 7 facts)

-- The first goroutine has asked, and stores what it was told.
abbrev stored : System
stored = record {
  shared = record { cache = insert 7 facts []; locked = false; queries = 7 ∷ [] };
  pc = update (update asked_pc 0 (writing 7 facts)) 0 (returned 7 facts);
}

-- Before it takes the mutex to store.
abbrev answered_once : System
answered_once = record {
  shared = record { cache = []; locked = false; queries = 7 ∷ [] };
  pc = asked_pc;
}

first_run : Runs Anything init answered_once
unfolding update lookup
first_run =
    Runs.next
      (Runs.next (Runs.next (Runs.next Runs.here (pick 0 (call 7))) (pick 0 (lock_to_read refl)))
        (pick 0 (miss refl)))
      (pick 0 (Move.answered {resp = answer} tt))

run : Runs Anything init stored
unfolding update lookup
run = Runs.next (Runs.next first_run (pick 0 (lock_to_write refl))) (pick 0 Move.store)

Runs-IsSound_example : IsSound Anything stored.shared stored.pc
Runs-IsSound_example = Runs-IsSound Anything run

-- The AS is in the cache, and no call is under way.
abbrev settled : System
settled = record {
  shared = record { cache = (7, facts) ∷ []; locked = false; queries = 7 ∷ [] };
  pc = λ _. idle;
}

settled-IsSettled : IsSettled 7 settled
unfolding lookup
settled-IsSettled = record { cached = λ e. cc; quiet = λ i e. cc }

abbrev called_again : System
called_again = record {
  shared = settled.shared;
  pc = update (update (update settled.pc 1 (looking 7)) 1 (reading 7)) 1 (returned 7 facts);
}

second_run : Runs Anything settled called_again
unfolding update lookup
second_run =
    Runs.next (Runs.next (Runs.next Runs.here (pick 1 (call 7))) (pick 1 (lock_to_read refl)))
      (pick 1 (hit refl))

Runs-IsSettled_example :
    (times_asked 7 called_again.shared.queries ≡ times_asked 7 settled.shared.queries)
    × IsSettled 7 called_again
Runs-IsSettled_example = Runs-IsSettled Anything 7 second_run settled-IsSettled

overlapping_queries_example :
    (s : System) × Runs Anything init s
    × ((i : ℕ) → i < 3 → s.pc i ≡ asking 7)
    × (s.shared.cache ≡ [])
    × (s.shared.locked ≡ false)
    × (times_asked 7 s.shared.queries ≡ 3)
overlapping_queries_example = overlapping_queries Anything 7 3

-- One goroutine is about to store, and another holds the mutex.
abbrev contended : System
contended = record {
  shared = record { cache = []; locked = true; queries = 7 ∷ [] };
  pc = update (update asked_pc 1 (looking 7)) 1 (reading 7);
}
