-- ===== src/Ws/Stream/Lossless.antt =====
-- Discrete events are not lost unless the client is told.
use mathlib.Core.List.{append-nil, append_assoc}
use text.Mathlib.Text.{◌==◌ as str_eq}
use remoses.Prelude.{
  String, ◌≡◌, refl, sym, ap, ◌∙◌, ◌⊎◌, inl, inr, true, false, ◌||◌, List, [], ◌∷◌, ◌++◌, arith,
  Bool-cases, if-elim,
}
use remoses.Prelude.Sets.{has}
use remoses.Radio.Change.{set}
use remoses.Rig.Cache.{EventKind, event_state, event_cw, event_conn}
use remoses.Ws.{DiscreteEvent, Message}
use remoses.Ws.Client.{Client, live_events, enqueue, set_radios}
use remoses.Ws.Drain.{event_messages, drain}
use remoses.Ws.Render.{kind_message, event_message}
use remoses.Ws.Stream.{
  Happening, offered, resubscribed, wrote, stopped, happen, written_by, run, batches,
}
use remoses.Ws.Stream.Account.{
  told_event, told_events, told_resync, told_events-append, told_resync-append,
}
use remoses.Ws.Stream.Flushed.{drain-Accounted}
use remoses.Ws.Stream.Ordered.{told}
use remoses.Ws.Stream.Rising.{frames_of}
use remoses.Ws.Stream.Settled.{
  foreign-differs, due_of, due_frames, stays, lane_of, Open, enqueue-Open, set_radios-Open,
  enqueue-marked, set_radios-marked, told_of, enqueue-Settled,
}

module _ {ℓ} {F : Type ℓ} where
  abbrev lane_told : String → List DiscreteEvent → List (Message F)
  lane_told id ds = told_events id (event_messages ds)

  abbrev told_kind : String → EventKind → DiscreteEvent → List (Message F)
  told_kind id kind d = told_event id (kind_message kind d)

  kind_message-foreign :
      (id : String) (kind : EventKind) (d : DiscreteEvent)
      → str_eq d.radio_id id ≡ false
      → told_kind id kind d ≡ []
  unfolding told_event kind_message
  kind_message-foreign id event_cw d foreign = rw foreign refl
  kind_message-foreign id event_conn d foreign = rw foreign refl
  kind_message-foreign id event_state d foreign = rw foreign refl

  live_events-told :
      (id : String) (set : List String) (ds : List DiscreteEvent)
      → has id set ≡ true
      → lane_told id (live_events set ds) ≡ lane_told id ds
  unfolding live_events event_messages
  live_events-told id set [] ours = refl
  live_events-told id set (d ∷ ds) ours =
      if-elim (λ es. lane_told id es ≡ lane_told id (d ∷ ds)) (has d.radio_id set) _ _
        (λ stays_on.
          ap (λ fs. told_event id (event_message d) ++ fs) (live_events-told id set ds ours))
        (λ dropped.
          live_events-told id set ds ours
          ∙ ap (λ fs. fs ++ told_events id (told_of ds))
              (sym (
                kind_message-foreign id d.kind d (foreign-differs id d.radio_id set ours dropped))))

  set_radios-lane :
      (id : String) (resolved : List String) (c : Client F)
      → has id resolved ≡ true
      → lane_of id (set_radios resolved c) ≡ lane_of id c
  unfolding set_radios
  set_radios-lane id resolved c ours =
      if-elim (λ (e : Client F). lane_of id e ≡ lane_of id c) c.closed _ _ (λ closed. refl)
        (λ alive. live_events-told id resolved c.discrete ours)

  -- A mark stays until a turn tells it.
  run-marked :
      (id : String) (hs : List (Happening F)) (c : Client F)
      → stays id hs ≡ true
      → has id c.resync ≡ true
      → (told_resync id (frames_of (batches hs c)) || has id (run hs c).resync) ≡ true
  unfolding stays batches run happen written_by
  run-marked id [] c kept marked = marked
  run-marked id (offered ev ∷ hs) c kept marked =
      run-marked id hs (enqueue ev c) kept (enqueue-marked id ev c marked)
  run-marked id (resubscribed resolved ∷ hs) c kept marked =
      run-marked id hs (set_radios resolved c) (ground arith)
        (set_radios-marked id resolved c (ground arith) marked)
  run-marked id (wrote now states ∷ hs) c kept marked =
      let asleep = record c { woken = false } in
      let turn = drain now states asleep in
      elim (Bool-cases (told_resync id turn.out)) [
        | inl told ↦
            ground (arith, told_resync-append id turn.out (frames_of (batches hs turn.client)))
        | inr quiet ↦ ground (
          arith,
          told_resync-append id turn.out (frames_of (batches hs turn.client)),
          run-marked id hs turn.client kept,
          (drain-Accounted id now states asleep).mark_kept marked,
        )
      ]
  run-marked id (stopped ∷ hs) c kept marked = absurd (cc kept)

  -- A client that stays subscribed to a radio gets every discrete event of it that is offered, in order
  -- and once, or has it in its lane, or is told to resync the radio, or is marked to be told: over any
  -- course of offered events, subscribe messages that keep the radio, and turns of the writer, if the
  -- connection is open.
  pub run-Lossless :
      (id : String) (hs : List (Happening F)) (c : Client F)
      → stays id hs ≡ true
      → Open id c
      → (told_events id (frames_of (batches hs c))
            ++ told_events id (event_messages (run hs c).discrete)
          ≡ told_events id (event_messages c.discrete) ++ due_frames id hs)
        ⊎ ((told_resync id (frames_of (batches hs c)) || has id (run hs c).resync) ≡ true)
  unfolding stays batches run happen written_by due_frames event_messages
  run-Lossless id [] c kept o = inl (sym (append-nil (lane_of id c)))
  run-Lossless id (offered ev ∷ hs) c kept o = elim (enqueue-Settled id ev c o) [
    | inl laned ↦ elim (run-Lossless id hs (enqueue ev c) kept (enqueue-Open id ev c o)) [
      | inl all ↦ inl (
          all
          ∙ ap (λ fs. fs ++ due_frames id hs) laned
          ∙ append_assoc (lane_of id c) (due_of id ev.kind ev) (due_frames id hs))
      | inr told ↦ inr told
    ]
    | inr marked ↦ inr (run-marked id hs (enqueue ev c) kept marked)
  ]
  run-Lossless id (resubscribed resolved ∷ hs) c kept o =
      elim (run-Lossless id hs (set_radios resolved c) (ground arith)
        (set_radios-Open id resolved c (ground arith) o)) [
          | inl all ↦ inl (
              all
              ∙ ap (λ fs. fs ++ due_frames id hs) (set_radios-lane id resolved c (ground arith)))
          | inr told ↦ inr told
        ]
  run-Lossless id (wrote now states ∷ hs) c kept o =
      let asleep = record c { woken = false } in
      let turn = drain now states asleep in
      let a = drain-Accounted id now states asleep in
      elim (run-Lossless id hs turn.client kept
        (ap (has id) a.subs_same ∙ o.0, a.closed_same ∙ o.1)) [
          | inl all ↦ inl (
              ap (λ fs. fs ++ lane_of id (run hs turn.client))
                (told_events-append id turn.out (frames_of (batches hs turn.client)))
              ∙ append_assoc (told_events id turn.out)
                  (told_events id (frames_of (batches hs turn.client)))
                  (lane_of id (run hs turn.client))
              ∙ ap (λ fs. told_events id turn.out ++ fs) all
              ∙ ap
                  (λ ds.
                    told_events id turn.out ++ (told_events id (told_of ds) ++ due_frames id hs))
                  a.lane_left
              ∙ ap (λ fs. fs ++ due_frames id hs) a.events_told)
          | inr told ↦
              inr (
                ground (arith, told_resync-append id turn.out (frames_of (batches hs turn.client))))
        ]
  run-Lossless id (stopped ∷ hs) c kept o = absurd (cc kept)
