-- ===== src/Lock/Leases.antt =====
-- What the timers do for the leases, in every state that the system reaches.
use text.Mathlib.Text.{◌==◌ as str_eq}
use remoses.Prelude.Maps.{lookup, delete}
use remoses.Prelude.{
  ℕ, ◌+◌, ◌^◌, ◌≤◌, ◌<◌, String, ◌≡◌, refl, sym, ◌∙◌, ◌≢◌, ◌⊎◌, inl, inr, false, ◌&&◌, none, some,
  List, [], ◌∷◌, ◌++◌, arith, eq_iff, leb, ◌==◌, if◌then◌else◌, Bool-cases, Option-cases, ==_iff,
  All, All-map,
}
use remoses.Lock.{Entry, Timer, Config, Manager, new_manager, stop, expire}
use remoses.Lock.Timers.{has_timer, TimerOk, Inv, has_timer-stop, All-stop, forget-Inv}
use remoses.Lock.System.{
  System, fire, take_fired, run_callback, Step, act, tick, fires, runs, Reach, start, next,
}
use remoses.Lock.Keeps.{perform-Keeps}

All-take_fired :
    (P : Timer → Type 0) (r : String) (g : ℕ) (ts : List Timer)
    → All P ts
    → All P (take_fired r g ts)
unfolding take_fired
All-take_fired P r g [] h = h
All-take_fired P r g (t ∷ ts) (p, h) =
    elim (Bool-cases (t.fired && (str_eq t.radio r && t.gen == g))) [
      | inl e ↦ rw e (All-take_fired P r g ts h)
      | inr e ↦ rw e (p, All-take_fired P r g ts h)
    ]

-- Taking the callback of one lease away leaves the timers of every other lease.
has_timer-take_fired :
    (r r' : String) (g g' : ℕ) (ts : List Timer)
    → (r ≢ r') ⊎ (g ≢ g')
    → has_timer r g (take_fired r' g' ts) ≡ has_timer r g ts
unfolding has_timer take_fired
has_timer-take_fired r r' g g' [] h = refl
has_timer-take_fired r r' g g' (t ∷ ts) h =
    ground (arith, has_timer-take_fired r r' g g' ts h, eq_iff t.radio r, eq_iff t.radio r')

has_timer-fire :
    (r r' : String) (g g' now : ℕ) (ts : List Timer)
    → has_timer r g (fire r' g' now ts) ≡ has_timer r g ts
unfolding has_timer fire
has_timer-fire r r' g g' now [] = refl
has_timer-fire r r' g g' now (t ∷ ts) = ground (arith, has_timer-fire r r' g g' now ts)

All-fire :
    (now gen : ℕ) (locks : List (String × Entry)) (r : String) (g : ℕ) (ts : List Timer)
    → All (TimerOk now gen locks) ts
    → All (TimerOk now gen locks) (fire r g now ts)
unfolding fire
All-fire now gen locks r g [] h = h
All-fire now gen locks r g (t ∷ ts) (p, h) =
    elim (Bool-cases (str_eq t.radio r && t.gen == g && leb t.deadline now)) [
      | inl e ↦ rw e (
        record { given_out = p.given_out; due = λ _. ground arith; ends_lease = p.ends_lease },
        All-fire now gen locks r g ts h,
      )
      | inr e ↦ rw e (p, All-fire now gen locks r g ts h)
    ]

tick-Inv : (clock n : ℕ) (m : Manager) → Inv clock m → Inv (clock + n) m
tick-Inv clock n m inv = record {
  entries = inv.entries;
  timers =
      All-map _ _ m.timers
        (λ t h. record {
          given_out = h.given_out;
          due = λ f. omega (arith, h.due f);
          ends_lease = h.ends_lease;
        })
        inv.timers;
}

-- A callback that finds another generation, or no lease, only leaves its list.
lost_callback-Inv :
    (clock : ℕ) (m : Manager) (r : String) (g : ℕ)
    → ((e : Entry) → lookup r m.locks ≡ some e → e.gen ≢ g)
    → Inv clock m
    → Inv clock (record m { timers = take_fired r g m.timers })
lost_callback-Inv clock m r g other inv = record {
  entries = λ radio e found.
      let old = inv.entries radio e found in
      record {
        entry_given_out = old.entry_given_out;
        own_radio = old.own_radio;
        timed = has_timer-take_fired radio r e.gen g m.timers (apart radio e found) ∙ old.timed;
      };
  timers = All-take_fired _ r g m.timers inv.timers;
}
  where
    apart : (radio : String) (e : Entry) → lookup radio m.locks ≡ some e → (radio ≢ r) ⊎ (e.gen ≢ g)
    apart radio e found = elim (Bool-cases (str_eq radio r)) [
      | inl same ↦ inr (other e (rw (sym ((eq_iff radio r).0 same)) found))
      | inr differ ↦ inl (λ p. ground (arith, eq_iff radio r))
    ]

-- The manager behind the callback that finds its own lease.
abbrev pub expired : String → ℕ → Manager → Manager
expired r g m = record m { timers = stop r g (take_fired r g m.timers); locks = delete r m.locks }

expired-Inv :
    (clock : ℕ) (m : Manager) (r : String) (g : ℕ) → Inv clock m → Inv clock (expired r g m)
expired-Inv clock m r g inv =
    forget-Inv clock m r _ inv
      (All-stop _ r g (take_fired r g m.timers) (All-take_fired _ r g m.timers inv.timers))
      (λ r' h ne.
        has_timer-stop r' r h g (take_fired r g m.timers) ne
        ∙ has_timer-take_fired r' r h g m.timers (inl ne))

-- `expire` where it finds its own lease: that is removed, and the callback is called if there is one.
pub run_callback-own :
    (m : Manager) (r : String) (e : Entry)
    → lookup r m.locks ≡ some e
    → run_callback r e.gen m ≡ record (expired r e.gen m) {
      expired_calls = if m.has_callback then m.expired_calls ++ r ∷ [] else m.expired_calls;
    }
unfolding run_callback expire
run_callback-own m r e found = rw found (ground arith)

-- `expire` where it finds no lease or that of another generation.
pub run_callback-lost :
    (m : Manager) (r : String) (g : ℕ)
    → ((e : Entry) → lookup r m.locks ≡ some e → e.gen ≢ g)
    → run_callback r g m ≡ record m { timers = take_fired r g m.timers }
unfolding run_callback expire
run_callback-lost m r g other = elim (Option-cases (lookup r m.locks)) [
  | inl e ↦ rw e
  | inr (x, e) ↦ rw e (ground (arith, other x e))
]

run_callback-Inv :
    (clock : ℕ) (m : Manager) (r : String) (g : ℕ) → Inv clock m → Inv clock (run_callback r g m)
run_callback-Inv clock m r g inv = elim (Option-cases (lookup r m.locks)) [
  | inl none_there ↦
      rw (run_callback-lost m r g (λ e found. absurd (none_is_not_some e found none_there))) (
        lost_callback-Inv clock m r g (λ e found. absurd (none_is_not_some e found none_there)) inv)
  | inr (x, found) ↦ elim (Bool-cases (x.gen == g)) [
    | inl own ↦
        let kept = expired-Inv clock m r x.gen inv in
        rw (sym ((==_iff x.gen g).0 own)) (
          rw (run_callback-own m r x found)
            (record { entries = kept.entries; timers = kept.timers }))
    | inr other ↦
        let differs = λ (e : Entry) (f : lookup r m.locks ≡ some e). other_gen e x f found other in
        rw (run_callback-lost m r g differs) (lost_callback-Inv clock m r g differs inv)
  ]
]
  where
    none_is_not_some : (e : Entry) → lookup r m.locks ≡ some e → lookup r m.locks ≡ none → ⊥
    none_is_not_some e f n = cc

    other_gen :
        (e x : Entry)
        → lookup r m.locks ≡ some e
        → lookup r m.locks ≡ some x
        → (x.gen == g) ≡ false
        → e.gen ≢ g
    other_gen e x f h other p = ground arith

gen-run_callback : (m : Manager) (r : String) (g : ℕ) → (run_callback r g m).gen ≡ m.gen
unfolding run_callback expire
gen-run_callback m r g = elim (Option-cases (lookup r m.locks)) [
  | inl e ↦ rw e
  | inr (x, e) ↦ rw e (ground arith)
]

Step-Inv :
    {s t : System}
    → Step s t
    → s.manager.gen + 1 < 2 ^ 64
    → Inv s.clock s.manager
    → Inv t.clock t.manager × (t.manager.gen ≤ s.manager.gen + 1)
Step-Inv (act s a) room inv =
    let k = perform-Keeps s.clock s.manager a room inv in (k.inv, k.one_gen)
Step-Inv (tick s n) room inv = (tick-Inv s.clock n s.manager inv, omega arith)
Step-Inv (fires s r g) room inv = (
  record {
    entries = λ radio e found.
        let old = inv.entries radio e found in
        record {
          entry_given_out = old.entry_given_out;
          own_radio = old.own_radio;
          timed = has_timer-fire radio r e.gen g s.clock s.manager.timers ∙ old.timed;
        };
    timers = All-fire s.clock s.manager.gen s.manager.locks r g s.manager.timers inv.timers;
  },
  omega arith,
)
Step-Inv (runs s r g fired) room inv =
    (run_callback-Inv s.clock s.manager r g inv, omega (arith, gen-run_callback s.manager r g))

new_manager-Inv : (clock : ℕ) (cfg : Config) → Inv clock (new_manager cfg)
unfolding new_manager lookup
new_manager-Inv clock cfg = record { entries = λ r e found. cc; timers = tt }

-- In every reachable state the leases and the timers fit together. `gen` is 64 bits wide and goes up
-- by one at most in a step, so the bound on the steps keeps it from wrapping around.
pub Reach-Inv :
    (cfg : Config) {n : ℕ} {s : System}
    → Reach cfg n s
    → n < 2 ^ 64
    → Inv s.clock s.manager × (s.manager.gen ≤ n)
Reach-Inv cfg (start s e) small =
    rw e (new_manager-Inv s.clock cfg, unfold new_manager in omega arith)
Reach-Inv cfg (next r st) small =
    let (inv, gen) = Reach-Inv cfg r (omega arith) in
    let (inv', gen') = Step-Inv st (omega arith) inv in (inv', omega arith)
