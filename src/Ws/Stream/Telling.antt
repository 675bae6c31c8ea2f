-- ===== src/Ws/Stream/Telling.antt =====
-- A turn to write tells the history of a radio.
use remoses.Prelude.{
  ℕ, String, ◌≡◌, refl, sym, ap, ◌∙◌, Option, none, some, List, [], ◌∷◌, ◌++◌, arith, if-elim, All,
  All-append,
}
use remoses.Prelude.Compare.{Comparable}
use remoses.Prelude.Maps.{lookup, lookup-delete}
use remoses.Prelude.Sets.{has}
use remoses.Radio.{State}
use remoses.Radio.Follow.{Quiet, visible}
use remoses.Rig.Cache.{EventKind, event_state, event_cw, event_conn}
use remoses.Rig.Patch.Check.{is_nil}
use remoses.Ws.{Event, DiscreteEvent, Message}
use remoses.Ws.Client.{Client}
use remoses.Ws.Drain.{
  start, Draining, held_until, write_resync, resync_due, resync_turn, event_messages,
  flush_discrete, write_snapshot, snapshot_sent, snapshot_from, snapshot_turn, state_message,
  write_event, take_pending, send_message, pending_due, pending_event, pending_turn, drain_resyncs,
  drain_snapshots, drain_pending, drain,
}
use remoses.Ws.Drain.Bounds.{each-keeps}
use remoses.Ws.Render.{kind_message}
use remoses.Ws.Stream.Ordered.{told}
use remoses.Ws.Stream.Reader.{Tells, Genuine, state_message-Tells}

module _ {ℓ} {F : Type ℓ} ⦃float : Comparable F⦄ (history : ℕ → State F) (id : String) where
  -- The frames of a turn so far tell the history, and so does what waits.
  abbrev pub Telling : List (Message F) → Client F → Type ℓ
  Telling fs c =
      All (Tells history id) fs
      × ((key : String) (ev : Event F)
          → lookup key c.pending ≡ some ev
          → ev.radio_id ≡ id
          → Genuine history ev)

  abbrev TellingTurn : Draining F → Type ℓ
  TellingTurn d = Telling d.out d.client

  Telling-snoc :
      (fs : List (Message F)) (f : Message F) (c : Client F)
      → Tells history id f
      → Telling fs c
      → Telling (fs ++ f ∷ []) c
  Telling-snoc fs f c tells (told, waits) =
      (All-append (Tells history id) fs (f ∷ []) told (tells, tt), waits)

  resync_due-Telling :
      (now : ℕ) (key : String) (held : Option ℕ) (d : Draining F)
      → TellingTurn d
      → TellingTurn (resync_due now key held d)
  unfolding resync_due write_resync Tells
  resync_due-Telling now key (some at) d t = t
  resync_due-Telling now key none d t = Telling-snoc d.out _ d.client tt t

  resync_turn-Telling :
      (now : ℕ) (key : String) (d : Draining F)
      → TellingTurn d
      → TellingTurn (resync_turn now key d)
  unfolding resync_turn
  resync_turn-Telling now key d t =
      if-elim TellingTurn (has key d.client.resync) _ _
        (λ marked.
          resync_due-Telling now key (held_until now (lookup key d.client.next_resync)) d t)
        (λ unmarked. t)

  kind_message-Tells :
      (kind : EventKind) (e : DiscreteEvent) → Tells history id (kind_message kind e)
  unfolding kind_message Tells
  kind_message-Tells event_cw e = tt
  kind_message-Tells event_conn e = tt
  kind_message-Tells event_state e = tt

  event_messages-Tells : (es : List DiscreteEvent) → All (Tells history id) (event_messages es)
  unfolding event_messages
  event_messages-Tells [] = tt
  event_messages-Tells (e ∷ es) = (kind_message-Tells e.kind e, event_messages-Tells es)

  flush_discrete-Telling : (d : Draining F) → TellingTurn d → TellingTurn (flush_discrete d)
  unfolding flush_discrete
  flush_discrete-Telling d (told, waits) =
      (All-append (Tells history id) d.out _ told (event_messages-Tells d.client.discrete), waits)

  -- The states that the hub has are those of the history.
  abbrev pub Current : (String → Option (State F)) → Type ℓ
  Current states = (st : State F) → states id ≡ some st → visible st ≡ visible (history st.seq)

  snapshot_from-Telling :
      (now : ℕ) (states : String → Option (State F)) (key : String) (found : Option (State F))
      (d : Draining F)
      → Current states
      → states key ≡ found
      → TellingTurn d
      → TellingTurn (snapshot_from now key found d)
  unfolding snapshot_from write_snapshot Tells
  snapshot_from-Telling now states key none d current e t = t
  snapshot_from-Telling now states key (some st) d current e t =
      Telling-snoc d.out _ d.client (λ same. current st (ap states (sym same) ∙ e)) t

  snapshot_turn-Telling :
      (now : ℕ) (states : String → Option (State F)) (key : String) (d : Draining F)
      → Current states
      → TellingTurn d
      → TellingTurn (snapshot_turn now states key d)
  unfolding snapshot_turn
  snapshot_turn-Telling now states key d current t =
      if-elim TellingTurn (has key d.client.snapshot) _ _
        (λ owed. snapshot_from-Telling now states key _ (snapshot_sent key d) current refl t)
        (λ done. t)

  abbrev pub QuietHistory : Type ℓ
  QuietHistory = (n : ℕ) → Quiet (history n)

  send_message-Telling :
      (now : ℕ) (key : String) (ev : Event F) (last : Option ℕ) (msg : Option (Message F))
      (d : Draining F)
      → QuietHistory
      → (ev.radio_id ≡ id → Genuine history ev)
      → state_message ev last ≡ msg
      → TellingTurn d
      → TellingTurn (send_message now key ev msg d)
  unfolding send_message write_event
  send_message-Telling now key ev last none d quiet genuine e t = t
  send_message-Telling now key ev last (some msg) d quiet genuine e t =
      Telling-snoc d.out msg d.client (state_message-Tells history id ev last msg quiet genuine e) t

  pending_due-Telling :
      (now : ℕ) (key : String) (ev : Event F) (held : Option ℕ) (d : Draining F)
      → QuietHistory
      → (ev.radio_id ≡ id → Genuine history ev)
      → TellingTurn d
      → TellingTurn (pending_due now key ev held d)
  unfolding pending_due
  pending_due-Telling now key ev (some at) d quiet genuine t = t
  pending_due-Telling now key ev none d quiet genuine (told, waits) =
      send_message-Telling now key ev _ _ (take_pending key d) quiet genuine refl (
        told,
        λ other found h.
            waits other found (ground (arith, lookup-delete key other d.client.pending)),
      )

  pending_event-Telling :
      (now : ℕ) (key : String) (found : Option (Event F)) (d : Draining F)
      → QuietHistory
      → lookup key d.client.pending ≡ found
      → TellingTurn d
      → TellingTurn (pending_event now key found d)
  unfolding pending_event
  pending_event-Telling now key none d quiet e t = t
  pending_event-Telling now key (some ev) d quiet e t =
      pending_due-Telling now key ev _ d quiet (t.1 key ev e) t

  pending_turn-Telling :
      (now : ℕ) (quiet : QuietHistory) (key : String) (d : Draining F)
      → TellingTurn d
      → TellingTurn (pending_turn now key d)
  unfolding pending_turn
  pending_turn-Telling now quiet key d t = pending_event-Telling now key _ d quiet refl t

  drain_resyncs-Telling :
      (now : ℕ) (d : Draining F) → TellingTurn d → TellingTurn (drain_resyncs now d)
  unfolding drain_resyncs
  drain_resyncs-Telling now d t =
      if-elim TellingTurn (is_nil d.client.resync) _ _ (λ nothing. t)
        (λ something.
          each-keeps TellingTurn (resync_turn now) (resync_turn-Telling now) d.client.subs d t)

  drain_snapshots-Telling :
      (now : ℕ) (states : String → Option (State F)) (d : Draining F)
      → Current states
      → TellingTurn d
      → TellingTurn (drain_snapshots now states d)
  unfolding drain_snapshots
  drain_snapshots-Telling now states d current t =
      if-elim TellingTurn (is_nil d.client.snapshot) _ _ (λ nothing. t)
        (λ something.
          each-keeps TellingTurn (snapshot_turn now states)
            (λ key e. snapshot_turn-Telling now states key e current) d.client.subs d t)

  drain_pending-Telling :
      (now : ℕ) (d : Draining F) → QuietHistory → TellingTurn d → TellingTurn (drain_pending now d)
  unfolding drain_pending
  drain_pending-Telling now d quiet t =
      if-elim TellingTurn (is_nil d.client.pending) _ _ (λ nothing. t)
        (λ something.
          each-keeps TellingTurn (pending_turn now) (pending_turn-Telling now quiet) d.client.order
            (record d { kept = [] }) t)

  pub drain-Telling :
      (now : ℕ) (states : String → Option (State F)) (c : Client F)
      → QuietHistory
      → Current states
      → Telling [] c
      → TellingTurn (drain now states c)
  unfolding drain
  drain-Telling now states c quiet current t = drain_pending-Telling now _ quiet (
      drain_snapshots-Telling now states _ current
        (flush_discrete-Telling _ (drain_resyncs-Telling now (start c) t)))
