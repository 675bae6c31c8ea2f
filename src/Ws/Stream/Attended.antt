-- ===== src/Ws/Stream/Attended.antt =====
-- The writer never sleeps over something that is due.
use mathlib.Core.Path.{subst}
use remoses.Prelude.{
  ℕ, String, ◌≡◌, refl, sym, ap, ◌∙◌, ◌⊎◌, inl, inr, Bool, true, false, not, ◌||◌, Option, none,
  List, [], ◌∷◌, arith, ltb, Bool-cases, if-elim,
}
use remoses.Prelude.Maps.{lookup}
use remoses.Prelude.Sets.{has}
use remoses.Radio.{State}
use remoses.Rig.Patch.Check.{is_nil}
use remoses.Ws.{Event}
use remoses.Ws.Client.{stop, Client, note_dropped, enqueue, set_radios}
use remoses.Ws.Client.Bounds.{awake-Sound, enqueue-Sound, set_radios-Sound, Sound}
use remoses.Ws.Drain.{
  start, Draining, flush_discrete, write_event, send_message, pending_due, pending_event,
  pending_turn, each, drain_resyncs, drain_snapshots, drain_pending, drain,
}
use remoses.Ws.Drain.Bounds.{
  each-keeps, drain_resyncs-Sound, drain_snapshots-Sound, flush_discrete-Sound, drain-Sound,
}
use remoses.Ws.Stream.{Happening, offered, resubscribed, wrote, stopped, happen, run}
use remoses.Ws.Stream.Timed.{Timed, ResyncTimed, drain_resyncs-Timed}
use remoses.Ws.Stream.Waking.{
  SnapshotsOwed, pending-Pausing, drain_snapshots-owed, drain_snapshots-Ready, flush_discrete-Ready,
  Ready,
}

again : (woken closed : Bool) → closed ≡ true → (woken || not closed) ≡ woken
again woken closed h = ground arith

module _ {ℓ} {F : Type ℓ} where
  -- With a timer at `next`, the writer has nothing to write now, and wakes up in time for all that the
  -- rate limit holds back.
  pub record Attended (c : Client F) (next : Option ℕ) : Type 0 where
    pub lane_empty : c.discrete ≡ []
    pub none_owed : (id : String) → has id c.snapshot ≡ false
    pub resync_timed : (id : String) → has id c.resync ≡ true → Timed next (lookup id c.next_resync)
    pub order_timed : (id : String) → has id c.order ≡ true → Timed next (lookup id c.next_at)

  -- A token to wake the writer up, or nothing for it to do before its timer.
  abbrev pub Awake : Client F → Option ℕ → Type 0
  Awake c next = (c.woken ≡ true) ⊎ Attended c next

  pending_turn-snapshot :
      (now : ℕ) (key : String) (d : Draining F)
      → (pending_turn now key d).client.snapshot ≡ d.client.snapshot
  unfolding pending_turn pending_event pending_due send_message write_event
  pending_turn-snapshot now key d = ground arith

  no_pending : (id : String) (m : List (String × Event F)) → is_nil m ≡ true → lookup id m ≡ none
  unfolding lookup
  no_pending id [] nothing = refl
  no_pending id (e ∷ m) nothing = absurd (cc nothing)

  owed-none : (id : String) (d : Draining F) → SnapshotsOwed [] d → has id d.client.snapshot ≡ false
  unfolding has
  owed-none id d owed = elim (Bool-cases (has id d.client.snapshot)) [
    | inl there ↦ absurd (cc (owed id there))
    | inr absent ↦ absent
  ]

  marks-Timed :
      (id : String) (d : Draining F)
      → ResyncTimed [] d
      → has id d.client.resync ≡ true
      → Timed d.next (lookup id d.client.next_resync)
  unfolding has
  marks-Timed id d timed marked = elim (timed id marked) [
    | inl coming ↦ absurd (cc coming)
    | inr there ↦ there
  ]

  abbrev AttendedBy : Draining F → Type 0
  AttendedBy d = Attended d.client d.next

  drain_pending-Attended :
      (now : ℕ) (d : Draining F)
      → Sound d.client
      → Ready d
      → SnapshotsOwed [] d
      → AttendedBy (drain_pending now d)
  unfolding drain_pending has
  drain_pending-Attended now d v r owed =
      if-elim AttendedBy (is_nil d.client.pending) _ _
        (λ nothing. record {
          lane_empty = r.lane_out;
          none_owed = λ id. owed-none id d owed;
          resync_timed = λ id marked. marks-Timed id d r.marks_timed marked;
          order_timed = λ id waits.
              absurd (ground (arith, v.matched id, no_pending id d.client.pending nothing));
        })
        (λ something.
          let fresh = record d { kept = [] } in
          let done = each (pending_turn now) d.client.order fresh in
          let (sound, ready, timed) = pending-Pausing now d.client.order fresh (
            v,
            record { lane_out = r.lane_out; marks_timed = r.marks_timed },
            λ id there. absurd (cc there),
          ) in
          let still =
            each-keeps (SnapshotsOwed []) (pending_turn now)
              (λ key e owing id there.
                owing id (sym (ap (has id) (pending_turn-snapshot now key e)) ∙ there))
              d.client.order fresh owed in
          record {
            lane_empty = ready.lane_out;
            none_owed = λ id. owed-none id done still;
            resync_timed = λ id marked. marks-Timed id done ready.marks_timed marked;
            order_timed = timed;
          })

  drain-Attended :
      (now : ℕ) (states : String → Option (State F)) (c : Client F)
      → Sound c
      → AttendedBy (drain now states c)
  unfolding drain
  drain-Attended now states c v =
      let resynced = drain_resyncs now (start c) in
      let flushed = flush_discrete resynced in
      let sound = flush_discrete-Sound resynced (drain_resyncs-Sound now (start c) v) in
      drain_pending-Attended now (drain_snapshots now states flushed)
        (drain_snapshots-Sound now states flushed sound)
        (drain_snapshots-Ready now states flushed
          (flush_discrete-Ready resynced (drain_resyncs-Timed now (start c) v)))
        (drain_snapshots-owed now states flushed sound)

  -- The writer is woken up, or nothing has changed.
  abbrev Woken : Client F → Client F → Type ℓ
  Woken c d = (d.woken ≡ true) ⊎ (d ≡ c)

  note_dropped-Woken : (ev : Event F) (c : Client F) → Woken c (note_dropped ev c)
  unfolding note_dropped
  note_dropped-Woken ev c =
      if-elim (Woken c) (ltb 0 ev.dropped) _ _ (λ lost. inl refl) (λ none_lost. inr refl)

  enqueue-Woken : (ev : Event F) (c : Client F) → Woken c (enqueue ev c)
  unfolding enqueue
  enqueue-Woken ev c =
      if-elim (Woken c) c.closed _ _ (λ closed. inr refl)
        (λ alive.
          if-elim (Woken c) (has ev.radio_id (note_dropped ev c).subs) _ _ (λ ours. inl refl)
            (λ foreign. note_dropped-Woken ev c))

  set_radios-Woken : (resolved : List String) (c : Client F) → Woken c (set_radios resolved c)
  unfolding set_radios
  set_radios-Woken resolved c =
      if-elim (Woken c) c.closed _ _ (λ closed. inr refl) (λ alive. inl refl)

  stop-Woken : (c : Client F) → Woken c (stop c)
  unfolding stop
  stop-Woken c = elim (Bool-cases c.closed) [
    | inl closed ↦
        inr (λ i. record c { closed = sym closed i; woken = again c.woken c.closed closed i })
    | inr alive ↦ inl (ground arith)
  ]

  Woken-Awake : (c d : Client F) (next : Option ℕ) → Woken c d → Awake c next → Awake d next
  Woken-Awake c d next (inl woken) a = inl woken
  Woken-Awake c d next (inr same) a = subst (λ e. Awake e next) (sym same) a

  -- The timer that the last turn has set.
  unfoldable pub alarm : List (Happening F) → Client F → Option ℕ → Option ℕ
  alarm [] c next = next
  alarm (wrote now states ∷ hs) c next =
      let turn = drain now states (record c { woken = false }) in alarm hs turn.client turn.next
  alarm (offered ev ∷ hs) c next = alarm hs (enqueue ev c) next
  alarm (resubscribed resolved ∷ hs) c next = alarm hs (set_radios resolved c) next
  alarm (stopped ∷ hs) c next = alarm hs (stop c) next

  -- No wake-up is lost: however offered events, subscribe messages and turns of the writer fall, in the
  -- end there is a token that wakes the writer up, or the event lane is empty, no snapshot is owed and
  -- the timer of the writer is no later than the time of anything that the rate limit holds back, if
  -- that is so of the client that it begins with.
  pub run-Awake :
      (hs : List (Happening F)) (c : Client F) (next : Option ℕ)
      → Sound c
      → Awake c next
      → Awake (run hs c) (alarm hs c next)
  unfolding run alarm happen stop
  run-Awake [] c next v a = a
  run-Awake (offered ev ∷ hs) c next v a =
      run-Awake hs (enqueue ev c) next (enqueue-Sound ev c v)
        (Woken-Awake c _ next (enqueue-Woken ev c) a)
  run-Awake (resubscribed resolved ∷ hs) c next v a =
      run-Awake hs (set_radios resolved c) next (set_radios-Sound resolved c v)
        (Woken-Awake c _ next (set_radios-Woken resolved c) a)
  run-Awake (wrote now states ∷ hs) c next v a =
      let asleep = record c { woken = false } in
      let sound = awake-Sound c c.closed false v in
      let turn = drain now states asleep in
      run-Awake hs turn.client turn.next (drain-Sound now states asleep sound)
        (inr (drain-Attended now states asleep sound))
  run-Awake (stopped ∷ hs) c next v a =
      run-Awake hs (stop c) next (awake-Sound c true _ v)
        (Woken-Awake c (stop c) next (stop-Woken c) a)
