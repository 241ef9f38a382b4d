-- ===== src/Geoip/NetInfo/Concurrent/Queries.antt =====
-- How often an AS is asked for.
use mathlib.Core.Path.{subst}
use proto_ip.Prelude.{
  Bool-cases, List, Result, [], ap, arith, beq-false→ne, beq_refl, beq→eq, if◌then◌else◌, inl, inr,
  list_eq, nat_eq, none, refl, suc, sym, zero, ℕ, ◌==◌, ◌∙◌, ◌∷◌, ◌≡◌, ◌≢◌, ◌<◌, ◌≤◌, false,
}
use proto_ip.Geoip.NetInfo.{AutnumFacts}
use proto_ip.Geoip.NetInfo.Concurrent.{
  Move, Pc, Runs, Shared, System, answered, asking, call, finish, give_up, hit, idle, init,
  lock_to_read, lock_to_write, looking, miss, pick, reading, refused, store, update,
}
use proto_ip.Geoip.NetInfo.Concurrent.Steps.{moved, updated}
use proto_ip.Golang.Maps.{insert, lookup, lookup-insert}
use proto_ip.Golang.Text.{Text}
use proto_ip.Messages.Rdap.{RdapAutnumResponse}

-- The number of queries for an AS.
pub times_asked : ℕ → List ℕ → ℕ
times_asked asn [] = 0
times_asked asn (n ∷ ns) = let rest = times_asked asn ns in if n == asn then suc rest else rest

-- The AS is in the cache, and no query for it is under way.
pub record IsSettled (asn : ℕ) (s : System) : Type 0 where
  pub cached : lookup asn s.shared.cache ≢ none
  pub quiet : (i : ℕ) → s.pc i ≢ asking asn

insert-cached :
    (asn n : ℕ) (f : AutnumFacts) (cache : List (ℕ × AutnumFacts))
    → lookup asn cache ≢ none
    → lookup asn (insert n f cache) ≢ none
insert-cached asn n f cache h e = elim (Bool-cases (n == asn)) [
  | inl same ↦ cc (rw (lookup-insert n asn f cache, same) at e)
  | inr apart ↦ h (rw (lookup-insert n asn f cache, apart) at e)
]

update-quiet :
    (asn : ℕ) (pc : ℕ → Pc) (i : ℕ) (p : Pc)
    → ((j : ℕ) → pc j ≢ asking asn)
    → p ≢ asking asn
    → (j : ℕ) → update pc i p j ≢ asking asn
unfolding update
update-quiet asn pc i p h hp j e = elim (Bool-cases (j == i)) [
  | inl same ↦ hp (rw same at e)
  | inr apart ↦ h j (rw apart at e)
]

ne→beq : (i n : ℕ) → i ≢ n → (i == n) ≡ false
ne→beq i n h = ground arith

module _ (Answers : ℕ → Result Text RdapAutnumResponse → Type 0) where
  Move-IsSettled :
      {m k : Shared} {q p : Pc} (asn : ℕ)
      → Move Answers m q k p
      → lookup asn m.cache ≢ none
      → (times_asked asn k.queries ≡ times_asked asn m.queries)
        × (lookup asn k.cache ≢ none)
        × (p ≢ asking asn)
  unfolding times_asked
  Move-IsSettled asn (call n) c = (refl, c, λ e. cc)
  Move-IsSettled asn (lock_to_read e) c = (refl, c, λ e. cc)
  Move-IsSettled asn (lock_to_write e) c = (refl, c, λ e. cc)
  Move-IsSettled asn (hit e) c = (refl, c, λ e. cc)
  Move-IsSettled {m} asn (miss {asn = n} e) c = elim (Bool-cases (n == asn)) [
    | inl same ↦ absurd (c (subst (λ (k : ℕ). lookup k m.cache ≡ none) (beq→eq n asn same) e))
    | inr apart ↦ (rw apart refl, c, λ q. beq-false→ne n asn apart (cc (q)))
  ]
  Move-IsSettled asn (refused a) c = (refl, c, λ e. cc)
  Move-IsSettled asn (answered a) c = (refl, c, λ e. cc)
  Move-IsSettled {m} asn (store {asn = n} {f = f}) c =
      (refl, insert-cached asn n f m.cache c, λ e. cc)
  Move-IsSettled asn finish c = (refl, c, λ e. cc)
  Move-IsSettled asn give_up c = (refl, c, λ e. cc)

  -- Once an AS is in the cache and no query for it is under way, no order of further calls asks for
  -- it again.
  pub Runs-IsSettled :
      {s t : System} (asn : ℕ)
      → Runs Answers s t
      → IsSettled asn s
      → (times_asked asn t.shared.queries ≡ times_asked asn s.shared.queries) × IsSettled asn t
  Runs-IsSettled asn Runs.here h = (refl, h)
  Runs-IsSettled asn (Runs.next {t = t} r (pick i mv)) h =
      let (same, mid) = Runs-IsSettled asn r h in
      let (asked, cached, quiet) = Move-IsSettled asn mv mid.cached in
      (asked ∙ same, record { cached = cached; quiet = update-quiet asn t.pc i _ mid.quiet quiet })

  -- The first `n` goroutines ask, and the others have not called.
  record Overlap (asn n : ℕ) : Type 0 where
    state : System
    reached : Runs Answers init state
    empty : state.shared.cache ≡ []
    free : state.shared.locked ≡ false
    asked : times_asked asn state.shared.queries ≡ n
    under_way : (i : ℕ) → i < n → state.pc i ≡ asking asn
    waiting : (i : ℕ) → n ≤ i → state.pc i ≡ idle

  -- One more goroutine calls, finds nothing in the cache and asks.
  ask : System → ℕ → ℕ → System
  ask s i asn = record {
    shared = record { cache = s.shared.cache; locked = false; queries = asn ∷ s.shared.queries };
    pc = update (update (update s.pc i (looking asn)) i (reading asn)) i (asking asn);
  }

  ask-reached :
      {s : System} (i asn : ℕ)
      → Runs Answers init s
      → s.pc i ≡ idle
      → s.shared.locked ≡ false
      → s.shared.cache ≡ []
      → Runs Answers init (ask s i asn)
  unfolding ask lookup
  ask-reached {s} i asn r e free empty =
      Runs.next
        (Runs.next (Runs.next r (moved Answers s i e (call asn)))
          (moved Answers _ i (updated s.pc i _) (lock_to_read free)))
        (moved Answers _ i (updated _ i _) (miss (rw empty refl)))

  ask-rest : (s : System) (i j asn : ℕ) → (j == i) ≡ false → (ask s i asn).pc j ≡ s.pc j
  unfolding ask update
  ask-rest s i j asn apart = ground arith

  overlap : (asn n : ℕ) → Overlap asn n
  unfolding times_asked ask
  overlap asn zero = record {
    state = init;
    reached = Runs.here;
    empty = refl;
    free = refl;
    asked = refl;
    under_way = λ i lt. absurd (omega arith);
    waiting = λ i le. refl;
  }
  overlap asn (suc n) =
      let o = overlap asn n in
      record {
        state = ask o.state n asn;
        reached = ask-reached n asn o.reached (o.waiting n (omega arith)) o.free o.empty;
        empty = o.empty;
        free = refl;
        asked = rw (beq_refl asn) (ap suc o.asked);
        under_way = λ i lt. elim (Bool-cases (i == n)) [
          | inl same ↦
              subst (λ (k : ℕ). (ask o.state n asn).pc k ≡ asking asn) (sym (beq→eq i n same))
                (updated _ n _)
          | inr apart ↦
              ask-rest o.state n i asn apart ∙ o.under_way i (omega (arith, beq-false→ne i n apart))
        ];
        waiting =
            λ i le. ask-rest o.state n i asn (ne→beq i n (omega arith)) ∙ o.waiting i (omega arith);
      }

  -- Calls for an AS that overlap ask for it once each: for every number `n` some interleaving from an
  -- empty cache leads to a state in which the goroutines 0 to n - 1 are all in their query for the
  -- same AS, with nothing in the cache and the mutex free, and the AS has been asked for `n` times.
  pub overlapping_queries :
      (asn n : ℕ)
      → (s : System) × Runs Answers init s
        × ((i : ℕ) → i < n → s.pc i ≡ asking asn)
        × (s.shared.cache ≡ [])
        × (s.shared.locked ≡ false)
        × (times_asked asn s.shared.queries ≡ n)
  overlapping_queries asn n =
      let o = overlap asn n in (o.state, o.reached, o.under_way, o.empty, o.free, o.asked)
