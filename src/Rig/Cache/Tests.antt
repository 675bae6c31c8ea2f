-- ===== src/Rig/Cache/Tests.antt =====
-- Tests and examples of the state cache: a transmission that starts and ends, with natural numbers for
-- the floating-point ones.
use remoses.Prelude.Compare.{nat_comparable}
use remoses.Prelude.{ℕ, ◌≡◌, refl, true, false, none, some, List, [], ◌∷◌, arith}
use remoses.Prelude.Int.{pos}
use remoses.Radio.{CwStatus, State, Patch}
use remoses.Radio.Blank.{blank}
use remoses.Radio.Change.{no_patch, empty, merge, clear_meters, apply, diff}
use remoses.Rig.Cache.{
  announce, event_state, Published, Session, arm_at, arm_deadman, watch_ptt, event_of,
  publish_event, updated, next_state, store_change, cache_apply,
}
use remoses.Rig.Cache.Deadman.{
  Input, patched, sender_status, take_input, take_inputs, Guarded, take_inputs-Guarded,
}
use remoses.Rig.Cache.Flow.{set_off, Run, here, then_step, Flow, changes, publishes}
use remoses.Rig.Cache.Replica.{Logged, Run-Logged}

abbrev session : Session ℕ
session = record {
  state = blank;
  tx_timeout = pos 300;
  ptt_control = true;
  sender = true;
  conn = true;
  deadman = none;
  commands = [];
  events = [];
}

abbrev status_now : CwStatus
status_now = record { busy = true; queued = pos 2; wpm = pos 20; est_remaining_ms = pos 900 }

abbrev told : List (Input ℕ)
told =
    patched (record no_patch { ptt = some true }) event_state 10 11
    ∷ sender_status status_now 12
    ∷ patched (record no_patch { ptt = some false }) event_state 20 21
    ∷ []

-- The timer runs while the radio transmits, and three events were published.
deadman-armed :
    (take_inputs session
      (patched (record no_patch { ptt = some true }) event_state 10 11 ∷ [])).deadman
    ≡ some 311
unfolding take_inputs take_input cache_apply store_change announce next_state watch_ptt arm_deadman
    arm_at publish_event apply merge clear_meters diff empty
deadman-armed = refl

-- Two calls that overlap: the second change is published before the first.
abbrev keyed : Patch ℕ
keyed = record no_patch { ptt = some true }

abbrev retuned : Patch ℕ
retuned = record no_patch { frequency = some 7 }

abbrev at_rest : Flow ℕ
at_rest = record { session = session; pending = [] }

abbrev stored_one : Flow ℕ
stored_one = set_off at_rest (store_change session keyed event_state 10)

abbrev stored_both : Flow ℕ
stored_both = set_off stored_one (store_change stored_one.session retuned event_state 12)

abbrev event_for : State ℕ → Patch ℕ → ℕ → Published ℕ
event_for st p now = event_of event_state (next_state st p now) (diff st (updated st p now))

abbrev first_event : Published ℕ
first_event = event_for blank keyed 10

abbrev second_event : Published ℕ
second_event = event_for (next_state blank keyed 10) retuned 12

abbrev published_one : Flow ℕ
published_one = record {
  session = publish_event second_event stored_both.session;
  pending = first_event ∷ [];
}

abbrev published_both : Flow ℕ
published_both = record { session = publish_event first_event published_one.session; pending = [] }

overlapping : Run at_rest published_both
unfolding store_change next_state apply merge clear_meters diff empty
overlapping =
    then_step
      (then_step
        (then_step (then_step here (changes keyed event_state 10 (omega arith)))
          (changes retuned event_state 12 (omega arith)))
        (publishes (first_event ∷ []) [] second_event refl))
      (publishes [] [] first_event refl)

abbrev numbers : List (Published ℕ) → List ℕ
numbers [] = []
numbers (e ∷ es) = e.seq ∷ numbers es

published_late : numbers published_both.session.events ≡ 2 ∷ 1 ∷ []
unfolding store_change next_state publish_event apply merge clear_meters diff empty
published_late = refl

Run-Logged_example : (log : List (Published ℕ)) × Logged session published_both log
Run-Logged_example =
    Run-Logged at_rest published_both overlapping (λ off. (refl, refl, refl, refl)) refl

abbrev on_air : List (Input ℕ)
on_air =
    patched (record no_patch { ptt = some true }) event_state 10 11
    ∷ sender_status status_now 12
    ∷ []

take_inputs-Guarded_example : Guarded 299 21 (take_inputs session on_air)
take_inputs-Guarded_example =
    take_inputs-Guarded 299 21 session on_air (omega arith, (tt, tt)) (refl, λ on. absurd (cc on))
