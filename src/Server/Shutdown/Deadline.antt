-- ===== src/Server/Shutdown/Deadline.antt =====
-- A signal leads to an exit.
use node_jwt_redis_session_a.Base.{
  ℕ, zero, suc, ◌+◌, ◌≤◌, ◌≡◌, refl, sym, ap, ◌∙◌, subst, Bool, true, false, ◌||◌, none, some, List,
  [], ◌∷◌, ◌++◌, map, leb, Bool-cases, Option-cases, inl, inr, arith, lt→leb_false, le→leb,
}
use node_jwt_redis_session_a.Server.Shutdown.{
  Run, Process, Event, signal, connections_gone, pool_settled, redis_settled, elapse, is_due,
  update, close, settle_pool, settle_redis, step_live, step, run_events, new_run, is_empty_runs,
  started, step_by,
}

-- The timers of some calls, changed in what is no timer.
abbrev Same : List Run → List Run → Type 0
Same runs runs' = (clock : ℕ) → is_due clock runs' ≡ is_due clock runs

update-Same :
    (n : ℕ) (f : Run → Run) (runs : List Run)
    → ((run : Run) → (f run).deadline ≡ run.deadline)
    → Same runs (update n f runs)
unfolding update is_due
update-Same n f [] h clock = refl
update-Same zero f (run ∷ runs) h clock = ap (λ d. leb d clock || is_due clock runs) (h run)
update-Same (suc n) f (run ∷ runs) h clock =
    ap (λ b. leb run.deadline clock || b) (update-Same n f runs h clock)

map-close-Same : (runs : List Run) → Same runs (map close runs)
unfolding is_due
map-close-Same [] clock = refl
map-close-Same (run ∷ runs) clock =
    ap (λ b. leb run.deadline clock || b) (map-close-Same runs clock)

is_due-append :
    (clock : ℕ) (runs rest : List Run)
    → is_due clock (runs ++ rest) ≡ (is_due clock runs || is_due clock rest)
unfolding is_due
is_due-append clock [] rest = refl
is_due-append clock (run ∷ runs) rest = ground (arith, is_due-append clock runs rest)

is_due-later :
    (d clock : ℕ) (runs : List Run) → d ≤ clock → is_due d runs ≡ true → is_due clock runs ≡ true
unfolding is_due
is_due-later d clock [] le h = absurd (cc)
is_due-later d clock (run ∷ runs) le h = ground (arith, is_due-later d clock runs le)

-- While the process lives, no timer is due.
abbrev pub Waiting : Process → Type 0
Waiting p = p.exited ≡ none → is_due p.clock p.runs ≡ false

-- The process is over, or some timer is due at a time.
abbrev Doomed : ℕ → Process → Type 0
Doomed d p = p.exited ≡ none → is_due d p.runs ≡ true

or_true : (b : Bool) → (b || true) ≡ true
or_true true = refl
or_true false = refl

new_run-due : (p : Process) → leb (new_run p).deadline p.clock ≡ false
new_run-due p = lt→leb_false (p.clock + 10000) p.clock (omega arith)

step_live-Waiting :
    (event : Event) (p : Process) → is_due p.clock p.runs ≡ false → Waiting (step_live event p)
unfolding is_due
step_live-Waiting signal p h e =
    is_due-append p.clock p.runs (new_run p ∷ []) ∙ cc (h, new_run-due p)
step_live-Waiting connections_gone p h e = elim (Bool-cases (is_empty_runs p.runs)) [
  | inl idle ↦ rw idle h
  | inr busy ↦ rw busy (map-close-Same p.runs p.clock ∙ h)
]
step_live-Waiting (pool_settled n b) p h e =
    update-Same n (settle_pool b) p.runs (λ r. refl) p.clock ∙ h
step_live-Waiting (redis_settled n b) p h e =
    update-Same n (settle_redis b) p.runs (λ r. refl) p.clock ∙ h
step_live-Waiting (elapse ms) p h e = elim (Bool-cases (is_due (p.clock + ms) p.runs)) [
  | inl over ↦ absurd (cc (rw over at e))
  | inr later ↦ later
]

step_live-due :
    (d : ℕ) (event : Event) (p : Process)
    → is_due d p.runs ≡ true
    → is_due d (step_live event p).runs ≡ true
step_live-due d signal p h = is_due-append d p.runs (new_run p ∷ []) ∙ rw h refl
step_live-due d connections_gone p h = elim (Bool-cases (is_empty_runs p.runs)) [
  | inl idle ↦ rw idle h
  | inr busy ↦ rw busy (map-close-Same p.runs d ∙ h)
]
step_live-due d (pool_settled n b) p h = update-Same n (settle_pool b) p.runs (λ r. refl) d ∙ h
step_live-due d (redis_settled n b) p h = update-Same n (settle_redis b) p.runs (λ r. refl) d ∙ h
step_live-due d (elapse ms) p h = h

over_by-exited :
    (event : Event) (p : Process) (code : ℕ) → (step_by (some code) event p).exited ≡ p.exited
over_by-exited signal p code = refl
over_by-exited connections_gone p code = refl
over_by-exited (pool_settled n b) p code = refl
over_by-exited (redis_settled n b) p code = refl
over_by-exited (elapse ms) p code = refl

-- A step of a process that is over leaves it over.
pub step-over :
    (event : Event) (p : Process) (code : ℕ)
    → p.exited ≡ some code
    → (step event p).exited ≡ some code
unfolding step
step-over event p code e = ap (λ o. (step_by o event p).exited) e ∙ over_by-exited event p code ∙ e

step-live : (event : Event) (p : Process) → p.exited ≡ none → step event p ≡ step_live event p
unfolding step
step-live event p live = ap (λ o. step_by o event p) live

step-Waiting : (event : Event) (p : Process) → Waiting p → Waiting (step event p)
step-Waiting event p h = elim (Option-cases p.exited) [
  | inl live ↦ subst Waiting (sym (step-live event p live)) (step_live-Waiting event p (h live))
  | inr (code, over) ↦ λ e. absurd (cc (step-over event p code over, e))
]

step-Doomed : (d : ℕ) (event : Event) (p : Process) → Doomed d p → Doomed d (step event p)
step-Doomed d event p h = elim (Option-cases p.exited) [
  | inl live ↦
      subst (Doomed d) (sym (step-live event p live)) (λ e. step_live-due d event p (h live))
  | inr (code, over) ↦ λ e. absurd (cc (step-over event p code over, e))
]

run_events-Waiting : (events : List Event) (p : Process) → Waiting p → Waiting (run_events events p)
unfolding run_events
run_events-Waiting [] p h = h
run_events-Waiting (event ∷ events) p h =
    run_events-Waiting events (step event p) (step-Waiting event p h)

run_events-Doomed :
    (d : ℕ) (events : List Event) (p : Process) → Doomed d p → Doomed d (run_events events p)
unfolding run_events
run_events-Doomed d [] p h = h
run_events-Doomed d (event ∷ events) p h =
    run_events-Doomed d events (step event p) (step-Doomed d event p h)

signal-due : (p : Process) → is_due (p.clock + 10000) (step_live signal p).runs ≡ true
unfolding is_due
signal-due p =
    is_due-append (p.clock + 10000) p.runs (new_run p ∷ [])
    ∙ rw (le→leb (p.clock + 10000) (p.clock + 10000) (omega arith))
        (or_true (is_due (p.clock + 10000) p.runs))

signal-Doomed : (p : Process) → Doomed (p.clock + 10000) (step signal p)
signal-Doomed p = elim (Option-cases p.exited) [
  | inl live ↦ subst (Doomed (p.clock + 10000)) (sym (step-live signal p live)) (λ e. signal-due p)
  | inr (code, over) ↦ λ e. absurd (cc (step-over signal p code over, e))
]

start-Waiting : Waiting started
unfolding is_due
start-Waiting e = refl

-- Ten seconds after a signal the process has exited, whatever else happens before and after it:
-- other signals, connections that stay open, clients of PostgreSQL and Redis that fail or never
-- close. (`started` is the process before any event.)
pub run_events-exits :
    (before after : List Event)
    → (run_events before started).clock + 10000
      ≤ (run_events after (step signal (run_events before started))).clock
    → (code : ℕ) × ((run_events after (step signal (run_events before started))).exited ≡ some code)
run_events-exits before after le =
    let p = run_events before started in
    let q = run_events after (step signal p) in
    let waits : q.exited ≡ none → is_due q.clock q.runs ≡ false =
      run_events-Waiting after (step signal p)
        (step-Waiting signal p (run_events-Waiting before started start-Waiting)) in
    elim (Option-cases q.exited) [
      | inl live ↦ absurd (
          cc (
            is_due-later (p.clock + 10000) q.clock q.runs le
                (run_events-Doomed (p.clock + 10000) after (step signal p) (signal-Doomed p) live),
            waits live,
          ))
      | inr over ↦ over
    ]
