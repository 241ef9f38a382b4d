-- ===== src/Geoip/NetInfo/Concurrent/Progress.antt =====
-- How calls end, with the mutex between them.
use proto_ip.Prelude.{Result, false, list_eq, nat_eq, ℕ, ◌==◌, ◌≡◌}
use proto_ip.Geoip.NetInfo.Concurrent.{Runs, Step, System, idle}
use proto_ip.Geoip.NetInfo.Concurrent.Exclusion.{in_section}
use proto_ip.Golang.Text.{Text}
use proto_ip.Messages.Rdap.{RdapAutnumResponse}

module _ (Answers : ℕ → Result Text RdapAutnumResponse → Type 0) where
  -- A run that moves goroutine `i` and whoever is in a critical section, and no other one.
  pub record Goes (s : System) (i : ℕ) (t : System) : Type 0 where
    pub reached : Runs Answers s t
    pub others : (j : ℕ) → (j == i) ≡ false → in_section (s.pc j) ≡ false → t.pc j ≡ s.pc j

  -- Such a run, to the end of the call of `i`.
  pub record Finishes (s : System) (i : ℕ) : Type 0 where
    pub state : System
    pub run : Goes s i state
    pub at_end : state.pc i ≡ idle

  -- The step with which the holder of the mutex releases it.
  record Released (s : System) (j : ℕ) : Type 0 where
    next_state : System
    step : Step Answers s next_state
    unlocked : next_state.shared.locked ≡ false
    rest : (k : ℕ) → (k == j) ≡ false → next_state.pc k ≡ s.pc k
