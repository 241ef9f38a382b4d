-- ===== src/Geoip/NetInfo/Concurrent/Steps.antt =====
-- A step of one goroutine: where it and the others stand behind it.
use mathlib.Core.Path.{subst}
use proto_ip.Prelude.{Result, beq_refl, false, list_eq, nat_eq, refl, sym, ℕ, ◌==◌, ◌≡◌}
use proto_ip.Geoip.NetInfo.Concurrent.{Move, Pc, Shared, Step, System, pick, update}
use proto_ip.Golang.Text.{Text}
use proto_ip.Messages.Rdap.{RdapAutnumResponse}

pub updated : (pc : ℕ → Pc) (i : ℕ) (p : Pc) → update pc i p i ≡ p
unfolding update
updated pc i p = rw (beq_refl i) refl

pub not_updated : (pc : ℕ → Pc) (i j : ℕ) (p : Pc) → (j == i) ≡ false → update pc i p j ≡ pc j
unfolding update
not_updated pc i j p apart = rw apart refl

-- A goroutine that stands at `q` makes a move from there.
pub moved :
    (Answers : ℕ → Result Text RdapAutnumResponse → Type 0) (s : System) (i : ℕ) {q p : Pc}
    {m : Shared}
    → s.pc i ≡ q
    → Move Answers s.shared q m p
    → Step Answers s (record { shared = m; pc = update s.pc i p })
moved Answers s i {p = p} {m = m} e mv =
    pick i (subst (λ (x : Pc). Move Answers s.shared x m p) (sym e) mv)
