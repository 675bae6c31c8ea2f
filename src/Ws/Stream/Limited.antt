-- ===== src/Ws/Stream/Limited.antt =====
-- The rate limit over a whole connection.
use mathlib.Core.Path.{subst}
use remoses.Prelude.{
  ℕ, String, ◌≡◌, refl, sym, true, false, Option, some, List, [], ◌∷◌, arith, if-elim,
}
use remoses.Prelude.Maps.{lookup, lookup-delete}
use remoses.Radio.{State}
use remoses.Rig.Patch.Check.{is_nil}
use remoses.Ws.{Event}
use remoses.Ws.Client.{
  stop, Client, push_discrete, push_by, keep_newest, note_dropped, enqueue, set_radios,
}
use remoses.Ws.Client.Bounds.{awake-Sound, enqueue-Sound, set_radios-Sound, Sound}
use remoses.Ws.Drain.{
  start, Draining, resync_turn, flush_discrete, snapshot_turn, write_event, send_message,
  pending_due, pending_event, pending_turn, drain_resyncs, drain_snapshots, drain_pending, drain,
}
use remoses.Ws.Drain.Bounds.{
  each-keeps, drain_resyncs-Sound, drain_snapshots-Sound, flush_discrete-Sound, drain-Sound,
}
use remoses.Ws.Stream.{
  Happening, offered, resubscribed, wrote, stopped, Batch, happen, written_by, batches,
}
use remoses.Ws.Stream.Ordered.{Named}
use remoses.Ws.Stream.Pacing.{resync_turn-Kept, snapshot_turn-Kept, pending_event-Kept}
use remoses.Ws.Stream.Spaced.{Pace, SpacedRun, pace_of, Kept-same, event_messages-Kept, Kept}

module _ {ℓ} {F : Type ℓ} where
  pending_turn-shrinks :
      (now : ℕ) (key other : String) (ev : Event F) (d : Draining F)
      → lookup other (pending_turn now key d).client.pending ≡ some ev
      → lookup other d.client.pending ≡ some ev
  unfolding pending_turn pending_event pending_due send_message write_event
  pending_turn-shrinks now key other ev d h =
      ground (arith, lookup-delete key other d.client.pending)

  pub pending_turn-Named :
      (now : ℕ) (key : String) (d : Draining F) → Named d → Named (pending_turn now key d)
  pending_turn-Named now key d named other ev h =
      named other ev (pending_turn-shrinks now key other ev d h)

  abbrev KeptNamed : String → ℕ → ℕ → Pace → Draining F → Type ℓ
  KeptNamed id interval now p d = Kept id interval now p d × Named d

  pending_turn-Kept :
      (id : String) (interval now : ℕ) (p : Pace) (key : String) (d : Draining F)
      → KeptNamed id interval now p d
      → KeptNamed id interval now p (pending_turn now key d)
  unfolding pending_turn
  pending_turn-Kept id interval now p key d (k, named) = (
    pending_event-Kept id interval now p key _ d (named key) k,
    pending_turn-Named now key d named,
  )

  drain_resyncs-Kept :
      (id : String) (interval now : ℕ) (p : Pace) (d : Draining F)
      → Kept id interval now p d
      → Kept id interval now p (drain_resyncs now d)
  unfolding drain_resyncs
  drain_resyncs-Kept id interval now p d k =
      if-elim (Kept id interval now p) (is_nil d.client.resync) _ _ (λ nothing. k)
        (λ something.
          each-keeps (Kept id interval now p) (resync_turn now) (resync_turn-Kept id interval now p)
            d.client.subs d k)

  flush_discrete-Kept :
      (id : String) (interval now : ℕ) (p : Pace) (d : Draining F)
      → Kept id interval now p d
      → Kept id interval now p (flush_discrete d)
  unfolding flush_discrete
  flush_discrete-Kept id interval now p d k =
      Kept-same id interval now p _ _ refl refl refl
        (event_messages-Kept id interval now p d.client.discrete d k)

  drain_snapshots-Kept :
      (id : String) (interval now : ℕ) (p : Pace) (states : String → Option (State F))
      (d : Draining F)
      → Kept id interval now p d
      → Kept id interval now p (drain_snapshots now states d)
  unfolding drain_snapshots
  drain_snapshots-Kept id interval now p states d k =
      if-elim (Kept id interval now p) (is_nil d.client.snapshot) _ _ (λ nothing. k)
        (λ something.
          each-keeps (Kept id interval now p) (snapshot_turn now states)
            (snapshot_turn-Kept id interval now p states) d.client.subs d k)

  drain_pending-Kept :
      (id : String) (interval now : ℕ) (p : Pace) (d : Draining F)
      → Named d
      → Kept id interval now p d
      → Kept id interval now p (drain_pending now d)
  unfolding drain_pending
  drain_pending-Kept id interval now p d named k =
      if-elim (Kept id interval now p) (is_nil d.client.pending) _ _ (λ nothing. k)
        (λ something.
          Kept-same id interval now p _ _ refl refl refl
            (each-keeps (KeptNamed id interval now p) (pending_turn now)
              (pending_turn-Kept id interval now p) d.client.order (record d { kept = [] })
              (Kept-same id interval now p d _ refl refl refl k, named)).0)

  drain-Kept :
      (id : String) (now : ℕ) (states : String → Option (State F)) (c : Client F)
      → Sound c
      → Kept id c.min_interval now (pace_of id c) (drain now states c)
  unfolding drain
  drain-Kept id now states c v =
      let p = pace_of id c in
      let first = flush_discrete (drain_resyncs now (start c)) in
      let sound =
        drain_snapshots-Sound now states first
          (flush_discrete-Sound _ (drain_resyncs-Sound now (start c) v)) in
      drain_pending-Kept id c.min_interval now p (drain_snapshots now states first) sound.named (
        drain_snapshots-Kept id c.min_interval now p states first (
          flush_discrete-Kept id c.min_interval now p _ (
            drain_resyncs-Kept id c.min_interval now p (start c)
              (record { spaced_so_far = tt; pace_noted = refl; interval_same = refl }))))

  -- The same times and interval.
  abbrev SameTimes : Client F → Client F → Type 0
  SameTimes c d =
      (d.next_at ≡ c.next_at) × (d.next_resync ≡ c.next_resync) × (d.min_interval ≡ c.min_interval)

  enqueue-SameTimes : (ev : Event F) (c : Client F) → SameTimes c (enqueue ev c)
  unfolding enqueue keep_newest push_by push_discrete note_dropped
  enqueue-SameTimes ev c = ground arith

  set_radios-SameTimes :
      (resolved : List String) (c : Client F) → SameTimes c (set_radios resolved c)
  unfolding set_radios
  set_radios-SameTimes resolved c = ground arith

  -- The frames of a run keep the rate limit from what a client notes on.
  abbrev SpacedFrom : String → List (Batch F) → Client F → Type 0
  SpacedFrom id bs c = SpacedRun id c.min_interval (pace_of id c) bs

  SameTimes-SpacedFrom :
      (id : String) (bs : List (Batch F)) (c d : Client F)
      → SameTimes c d
      → SpacedFrom id bs d
      → SpacedFrom id bs c
  SameTimes-SpacedFrom id bs c d (at, resync, interval) =
      subst (λ m. SpacedRun id m (pace_of id d) bs → SpacedFrom id bs c) (sym interval)
        (subst
          (λ m.
            SpacedRun id c.min_interval
              (record { due = lookup id m; resync_from = lookup id d.next_resync }) bs
            → SpacedFrom id bs c)
          (sym at)
          (subst
            (λ m.
              SpacedRun id c.min_interval
                (record { due = lookup id c.next_at; resync_from = lookup id m }) bs
              → SpacedFrom id bs c)
            (sym resync) (λ h. h)))

  -- Over any course of offered events, subscribe messages and turns of the writer, a delta about a
  -- radio goes out no earlier than the interval after the turn that wrote the state or the delta before
  -- it, and a resync no earlier than the interval after the turn of the resync before it.
  pub run-Spaced :
      (id : String) (hs : List (Happening F)) (c : Client F)
      → Sound c
      → SpacedRun id c.min_interval (pace_of id c) (batches hs c)
  unfolding batches happen written_by stop
  run-Spaced id [] c v = tt
  run-Spaced id (offered ev ∷ hs) c v =
      SameTimes-SpacedFrom id _ c (enqueue ev c) (enqueue-SameTimes ev c)
        (run-Spaced id hs (enqueue ev c) (enqueue-Sound ev c v))
  run-Spaced id (resubscribed resolved ∷ hs) c v =
      SameTimes-SpacedFrom id _ c (set_radios resolved c) (set_radios-SameTimes resolved c)
        (run-Spaced id hs (set_radios resolved c) (set_radios-Sound resolved c v))
  run-Spaced id (wrote now states ∷ hs) c v =
      let asleep = record c { woken = false } in
      let sound = awake-Sound c c.closed false v in
      let after = (drain now states asleep).client in
      let k = drain-Kept id now states asleep sound in
      let rest = run-Spaced id hs after (drain-Sound now states asleep sound) in
      (
        k.spaced_so_far,
        subst (λ p. SpacedRun id c.min_interval p (batches hs after)) (sym k.pace_noted)
            (subst (λ m. SpacedRun id m (pace_of id after) (batches hs after)) k.interval_same
              rest),
      )
  run-Spaced id (stopped ∷ hs) c v = run-Spaced id hs (stop c) (awake-Sound c true _ v)
