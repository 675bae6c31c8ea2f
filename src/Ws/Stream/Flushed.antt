-- ===== src/Ws/Stream/Flushed.antt =====
-- A turn writes the event lane out.
use remoses.Prelude.{ℕ, String, refl, ap, ◌∙◌, Option, List, [], ◌++◌, arith, if-elim}
use remoses.Radio.{State}
use remoses.Rig.Patch.Check.{is_nil}
use remoses.Ws.{DiscreteEvent, Message}
use remoses.Ws.Client.{Client}
use remoses.Ws.Drain.{
  start, Draining, resync_turn, event_messages, flush_discrete, snapshot_turn, pending_turn,
  drain_resyncs, drain_snapshots, drain_pending, drain,
}
use remoses.Ws.Drain.Bounds.{each-keeps}
use remoses.Ws.Stream.Account.{
  told_events, told_events-append, told_resync-append, Accounted-same, resync_turn-Accounted,
  snapshot_turn-Accounted, pending_turn-Accounted, Accounted,
}
use remoses.Ws.Stream.Ordered.{told}

module _ {ℓ} {F : Type ℓ} where
  drain_resyncs-Accounted :
      (id : String) (c : Client F) (told : List (Message F)) (lane : List DiscreteEvent) (now : ℕ)
      (d : Draining F)
      → Accounted id c told lane d
      → Accounted id c told lane (drain_resyncs now d)
  unfolding drain_resyncs
  drain_resyncs-Accounted id c told lane now d a =
      if-elim (Accounted id c told lane) (is_nil d.client.resync) _ _ (λ nothing. a)
        (λ something.
          each-keeps (Accounted id c told lane) (resync_turn now)
            (resync_turn-Accounted id c told lane now) d.client.subs d a)

  flush_discrete-Accounted :
      (id : String) (c : Client F) (lane : List DiscreteEvent) (d : Draining F)
      → Accounted id c [] lane d
      → Accounted id c (told_events id (event_messages lane)) [] (flush_discrete d)
  unfolding flush_discrete
  flush_discrete-Accounted id c lane d a = record {
    events_told =
        told_events-append id d.out (event_messages d.client.discrete)
        ∙ ap (λ es. es ++ told_events id (event_messages d.client.discrete)) a.events_told
        ∙ ap (λ ds. told_events id (event_messages ds)) a.lane_left;
    lane_left = refl;
    mark_kept = λ marked.
        ground (
          arith,
          told_resync-append id d.out (event_messages d.client.discrete),
          a.mark_kept marked,
        );
    subs_same = a.subs_same;
    closed_same = a.closed_same;
  }

  drain_snapshots-Accounted :
      (id : String) (c : Client F) (told : List (Message F)) (lane : List DiscreteEvent) (now : ℕ)
      (states : String → Option (State F)) (d : Draining F)
      → Accounted id c told lane d
      → Accounted id c told lane (drain_snapshots now states d)
  unfolding drain_snapshots
  drain_snapshots-Accounted id c told lane now states d a =
      if-elim (Accounted id c told lane) (is_nil d.client.snapshot) _ _ (λ nothing. a)
        (λ something.
          each-keeps (Accounted id c told lane) (snapshot_turn now states)
            (snapshot_turn-Accounted id c told lane now states) d.client.subs d a)

  drain_pending-Accounted :
      (id : String) (c : Client F) (told : List (Message F)) (lane : List DiscreteEvent) (now : ℕ)
      (d : Draining F)
      → Accounted id c told lane d
      → Accounted id c told lane (drain_pending now d)
  unfolding drain_pending
  drain_pending-Accounted id c told lane now d a =
      if-elim (Accounted id c told lane) (is_nil d.client.pending) _ _ (λ nothing. a)
        (λ something. Accounted-same id c told lane _ _ refl refl refl refl refl (
          each-keeps (Accounted id c told lane) (pending_turn now)
            (pending_turn-Accounted id c told lane now) d.client.order (record d { kept = [] })
            (Accounted-same id c told lane d _ refl refl refl refl refl a)))

  -- A turn writes the whole event lane, and what was marked is told or still marked.
  pub drain-Accounted :
      (id : String) (now : ℕ) (states : String → Option (State F)) (c : Client F)
      → Accounted id c (told_events id (event_messages c.discrete)) [] (drain now states c)
  unfolding drain
  drain-Accounted id now states c = drain_pending-Accounted id c _ [] now _ (
      drain_snapshots-Accounted id c _ [] now states _ (
        flush_discrete-Accounted id c c.discrete _ (
          drain_resyncs-Accounted id c [] c.discrete now (start c) (record {
            events_told = refl;
            lane_left = refl;
            mark_kept = λ marked. marked;
            subs_same = refl;
            closed_same = refl;
          }))))
