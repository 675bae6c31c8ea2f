-- ===== src/Ws/Tests.antt =====
-- Tests and examples of the state stream, with natural numbers for the floating-point ones: one radio
-- whose frequency, mode and Morse queue change in turn.
use mathlib.Core.Path.{subst}
use remoses.Prelude.Compare.{nat_comparable}
use remoses.Ws.Stream.Attended.{Awake, alarm, run-Awake}
use remoses.Prelude.{
  inl, ℕ, zero, suc, ◌+◌, ◌≤◌, String, ◌≡◌, refl, sym, ap, ◌⊎◌, true, false, ◌||◌, Option, none,
  some, List, [], ◌∷◌, ◌++◌, arith, if◌then◌else◌,
}
use remoses.Prelude.Int.{pos}
use remoses.Prelude.Maps.{lookup, delete, insert}
use remoses.Prelude.Sets.{has, add_to, add_all, remove, retain}
use remoses.Access.Ticket.{sweep, find_ticket, without, redeem}
use remoses.Radio.{CwStatus, State, Patch}
use remoses.Radio.Blank.{blank}
use remoses.Radio.Change.{no_patch, empty, merge, clear_meters, apply}
use remoses.Radio.Follow.{Quiet, visible}
use remoses.Rig.Cache.{event_state, event_cw}
use remoses.Ws.{Event}
use remoses.Ws.Client.{
  Client, new_client, push_discrete, push_by, keep_newest, note_dropped, enqueue,
}
use remoses.Ws.Client.Bounds.{awake-Sound, new_client-Sound, Sound}
use remoses.Ws.Drain.{
  held_until, resync_turn, event_messages, flush_discrete, write_snapshot, snapshot_from,
  snapshot_turn, state_message, write_event, send_message, pending_due, pending_event, pending_turn,
  each, drain_resyncs, drain_snapshots, drain_pending, drain,
}
use remoses.Ws.Hub.{unauthorized, Hub, wanted, resolve_radios, identify, answer_to, handler}
use remoses.Ws.Hub.Admission.{Credentials, handler-upgrade, handler-handler}
use remoses.Ws.Render.{kind_message, changed_fields, merge_meter, apply_delta}
use remoses.Ws.Render.Merge.{apply_delta-changed_fields}
use remoses.Ws.Stream.{Happening, offered, wrote, happen, written_by, run, batches}
use remoses.Ws.Stream.Account.{tells_resync, told_events, told_resync}
use remoses.Ws.Stream.Bounded.{WithinLimits, run-Bounded}
use remoses.Ws.Stream.Telling.{Current}
use remoses.Ws.Stream.Settled.{due_frames, stays}
use remoses.Ws.Stream.Follows.{run-Holds}
use remoses.Ws.Stream.Limited.{run-Spaced}
use remoses.Ws.Stream.Lossless.{run-Lossless}
use remoses.Ws.Stream.Ordered.{some_inj, last_told, Ordered, told, Below}
use remoses.Ws.Stream.Reader.{read_frame, read_frames, NextOne, NoGap, Holds, Genuine}
use remoses.Ws.Stream.Rising.{frames_of, run-Ordered}
use remoses.Ws.Stream.Spaced.{SpacedRun, pace_of}

abbrev keying : CwStatus
keying = record { busy = true; queued = pos 2; wpm = pos 20; est_remaining_ms = pos 900 }

abbrev history : ℕ → State ℕ
history zero = blank
history (suc zero) = record blank { frequency = 7; seq = 1 }
history (suc (suc zero)) = record blank { frequency = 7; mode = 3; seq = 2 }
history (suc (suc (suc n))) = record blank { frequency = 7; mode = 3; cw = keying; seq = 3 }

abbrev tuned : Event ℕ
tuned = record {
  kind = event_state;
  radio_id = "a";
  seq = 1;
  at_time = 60;
  state = history 1;
  patch = record no_patch { frequency = some 7 };
  err = "";
  dropped = 0;
}

abbrev mode_set : Event ℕ
mode_set = record {
  kind = event_state;
  radio_id = "a";
  seq = 2;
  at_time = 70;
  state = history 2;
  patch = record no_patch { mode = some 3 };
  err = "";
  dropped = 0;
}

abbrev key_down : Event ℕ
key_down = record {
  kind = event_cw;
  radio_id = "a";
  seq = 3;
  at_time = 80;
  state = history 3;
  patch = record no_patch { cw = some keying };
  err = "";
  dropped = 0;
}

before : (k n : ℕ) → k + 1 ≡ n + 1 → k ≡ n
before k n h = omega arith

-- What the hub has of the radio.
abbrev has_state : ℕ → String → Option (State ℕ)
has_state n id = if has id ("a" ∷ []) then some (history n) else none

abbrev connected : Client ℕ
connected = new_client 50 1 ("a" ∷ [])

-- The writer keeps up: one turn behind each event.
abbrev kept_up : List (Happening ℕ)
kept_up =
    wrote 0 (has_state 0)
    ∷ offered tuned
    ∷ wrote 100 (has_state 1)
    ∷ offered mode_set
    ∷ wrote 200 (has_state 2)
    ∷ offered key_down
    ∷ wrote 300 (has_state 3)
    ∷ []

-- Two changes come between two turns.
abbrev fell_behind : List (Happening ℕ)
fell_behind =
    wrote 0 (has_state 0) ∷ offered tuned ∷ offered mode_set ∷ wrote 100 (has_state 2) ∷ []

abbrev frequency_of : Option (State ℕ) → Option ℕ
frequency_of none = none
frequency_of (some st) = some st.frequency

-- The change of the frequency is gone: the delta of the mode took its place, a reader still has the old
-- frequency, and nothing tells it to fetch the state again.
coalesced_change_lost :
    (frequency_of (read_frames "a" none (frames_of (batches fell_behind connected))) ≡ some 0)
    × (told_resync "a" (frames_of (batches fell_behind connected)) ≡ false)
unfolding batches happen written_by new_client drain drain_resyncs drain_snapshots drain_pending
    each resync_turn snapshot_turn pending_turn snapshot_from pending_event pending_due send_message
    write_snapshot write_event flush_discrete event_messages state_message enqueue note_dropped
    push_by keep_newest held_until read_frame apply_delta changed_fields has add_to add_all remove
    lookup insert delete empty tells_resync
coalesced_change_lost = (refl, refl)

-- What the reader of a writer that keeps up has in the end.
kept_up_reader :
    frequency_of (read_frames "a" none (frames_of (batches kept_up connected))) ≡ some 7
unfolding batches happen written_by new_client drain drain_resyncs drain_snapshots drain_pending
    each resync_turn snapshot_turn pending_turn snapshot_from pending_event pending_due send_message
    write_snapshot write_event flush_discrete event_messages state_message enqueue note_dropped
    push_by push_discrete kind_message keep_newest held_until read_frame apply_delta changed_fields
    has add_to add_all remove lookup insert delete empty
kept_up_reader = refl

connected-Sound : Sound connected
connected-Sound = new_client-Sound 50 1 ("a" ∷ [])

run-Bounded_example : WithinLimits (run kept_up connected)
run-Bounded_example = run-Bounded kept_up connected connected-Sound

run-Lossless_example :
    (told_events "a" (frames_of (batches kept_up connected))
        ++ told_events "a" (event_messages (run kept_up connected).discrete)
      ≡ told_events "a" (event_messages connected.discrete) ++ due_frames "a" kept_up)
    ⊎ ((told_resync "a" (frames_of (batches kept_up connected))
          || has "a" (run kept_up connected).resync)
        ≡ true)
unfolding stays has new_client
run-Lossless_example = run-Lossless "a" kept_up connected refl (refl, refl)

run-Spaced_example : SpacedRun "a" 50 (pace_of "a" connected) (batches kept_up connected)
unfolding new_client
run-Spaced_example = run-Spaced "a" kept_up connected connected-Sound

seq_at : (n : ℕ) (st : State ℕ) → has_state n "a" ≡ some st → (history n).seq ≡ st.seq
unfolding has
seq_at n st h = ap {B = ℕ} (λ (o : Option (State ℕ)). elim o [ none ↦ 0 | some s ↦ s.seq ]) h

connected-Below : Below "a" 0 connected
unfolding new_client lookup
connected-Below = record { last_below = omega arith; pending_below = λ ev h. absurd (cc h) }

run-Ordered_example : Ordered "a" 0 (frames_of (batches kept_up connected))
unfolding new_client lookup has
run-Ordered_example = run-Ordered "a" kept_up 0 connected connected-Sound connected-Below (
  λ st h. omega arith,
  (
    λ st h. grind (arith, seq_at 1 st h),
    (λ st h. grind (arith, seq_at 2 st h), (λ st h. grind (arith, seq_at 3 st h), tt)),
  ),
)

history-Quiet : (n : ℕ) → Quiet (history n)
history-Quiet zero off = (refl, refl, refl, refl)
history-Quiet (suc zero) off = (refl, refl, refl, refl)
history-Quiet (suc (suc zero)) off = (refl, refl, refl, refl)
history-Quiet (suc (suc (suc n))) off = (refl, refl, refl, refl)

history-seq : (n : ℕ) → n ≤ 3 → (history n).seq ≡ n
history-seq zero small = refl
history-seq (suc zero) small = refl
history-seq (suc (suc zero)) small = refl
history-seq (suc (suc (suc zero))) small = refl
history-seq (suc (suc (suc (suc n)))) small = absurd (omega arith)

has_state-Current : (n : ℕ) → n ≤ 3 → Current history "a" (has_state n)
unfolding has
has_state-Current n small st h =
    subst (λ s. visible s ≡ visible (history s.seq)) (some_inj h)
      (ap (λ k. visible (history k)) (sym (history-seq n small)))

tuned-Genuine : Genuine history tuned
unfolding apply merge clear_meters
tuned-Genuine = (
  refl,
  λ n h. (
    subst (λ m. visible (apply (history m) tuned.patch) ≡ visible (history 1)) (before 0 n h) refl,
    (tt, tt),
  ),
)

mode_set-Genuine : Genuine history mode_set
unfolding apply merge clear_meters
mode_set-Genuine = (
  refl,
  λ n h. (
    subst (λ m. visible (apply (history m) mode_set.patch) ≡ visible (history 2)) (before 1 n h)
        refl,
    (tt, tt),
  ),
)

key_down-Genuine : Genuine history key_down
unfolding apply merge clear_meters
key_down-Genuine = (
  refl,
  λ n h. (
    subst (λ m. visible (apply (history m) key_down.patch) ≡ visible (history 3)) (before 2 n h)
        refl,
    (tt, tt),
  ),
)

kept_up-NoGap : NoGap "a" 0 (frames_of (batches kept_up connected))
unfolding batches happen written_by new_client drain drain_resyncs drain_snapshots drain_pending
    each resync_turn snapshot_turn pending_turn snapshot_from pending_event pending_due send_message
    write_snapshot write_event flush_discrete event_messages state_message enqueue note_dropped
    push_by push_discrete kind_message keep_newest held_until has add_to add_all remove lookup
    insert delete empty NextOne last_told
kept_up-NoGap = (tt, (λ same. refl, (λ same. refl, (tt, (λ same. refl, tt)))))

apply_delta-changed_fields_example :
    apply_delta 1 60 (changed_fields tuned.patch (apply blank tuned.patch)) blank
    ≡ record (apply blank tuned.patch) { updated_at = 60; seq = 1 }
apply_delta-changed_fields_example =
    apply_delta-changed_fields blank tuned.patch 1 60 (λ off. (refl, refl, refl, refl)) (tt, tt)

-- A signal meter that is left without a reading in S-units keeps, with a reader, the one that it had.
abbrev calibrated : State ℕ
calibrated = record blank { s_meter = record { raw = pos 78; scale = pos 255; s_units = some 7 } }

abbrev uncalibrated : Patch ℕ
uncalibrated = record no_patch {
  s_meter = some (record { raw = pos 80; scale = pos 255; s_units = none });
}

abbrev meter_units : State ℕ → Option ℕ
meter_units st = st.s_meter.s_units

s_units_kept :
    (meter_units
        (apply_delta 1 60 (changed_fields uncalibrated (apply calibrated uncalibrated)) calibrated)
      ≡ some 7)
    × (meter_units (apply calibrated uncalibrated) ≡ none)
unfolding apply_delta merge_meter changed_fields apply merge clear_meters
s_units_kept = (refl, refl)

run-Holds_example :
    Holds history
      (told "a" 0 (frames_of (batches kept_up connected)))
      (read_frames "a" none (frames_of (batches kept_up connected)))
unfolding new_client lookup
run-Holds_example =
    run-Holds history "a" kept_up connected 0 none history-Quiet
      (
        has_state-Current 0 (omega arith),
        (
          λ same. tuned-Genuine,
          (
            has_state-Current 1 (omega arith),
            (
              λ same. mode_set-Genuine,
              (
                has_state-Current 2 (omega arith),
                (λ same. key_down-Genuine, (has_state-Current 3 (omega arith), tt)),
              ),
            ),
          ),
        ),
      )
      (tt, λ key ev h. absurd (cc h)) tt kept_up-NoGap

-- A filter without a comma, and no spaces.
abbrev one_part : String → List String
one_part filter = filter ∷ []

abbrev no_spaces : String → String
no_spaces s = s

abbrev ticket_hub : Hub ℕ
ticket_hub = record {
  min_interval = 50;
  queue_cap = 1;
  tickets = record {
    ttl = 1000;
    tickets = record { value = "t"; user = "u"; expires = 1000 } ∷ [];
  };
  clients = (1, connected) ∷ [];
  closed = false;
}

handler-upgrade_example :
    Credentials none "t" 10 ticket_hub.tickets "u"
    × (ticket_hub.closed ≡ false)
    × ((id : String) → has id ("a" ∷ []) ≡ true → has id ("a" ∷ "b" ∷ []) ≡ true)
unfolding handler identify answer_to resolve_radios wanted retain has add_to redeem find_ticket
    sweep without
handler-upgrade_example =
    handler-upgrade one_part no_spaces ("a" ∷ "b" ∷ []) none "t" "a" 10 ticket_hub "u" ("a" ∷ [])
      refl

handler-handler_example :
    (handler one_part no_spaces
      ("a" ∷ [])
      none
      "t"
      ""
      20
      (handler one_part no_spaces ("a" ∷ []) none "t" "" 10 ticket_hub).1).0
    ≡ unauthorized
handler-handler_example =
    handler-handler one_part no_spaces ("a" ∷ []) "t" "" "" 10 20 ticket_hub (tt, tt)

-- A connection that has begun and has a token.
abbrev woken_client : Client ℕ
woken_client = record connected { woken = true }

run-Awake_example : Awake (run kept_up woken_client) (alarm kept_up woken_client none)
unfolding new_client
run-Awake_example =
    run-Awake kept_up woken_client none (awake-Sound connected false true connected-Sound)
      (inl refl)
