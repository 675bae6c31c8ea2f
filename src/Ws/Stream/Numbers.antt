-- ===== src/Ws/Stream/Numbers.antt =====
-- The numbers of the frames about one radio over the turns of a connection.
use text.Mathlib.Text.{◌==◌ as str_eq}
use remoses.Prelude.{
  ℕ, ◌≤◌, String, ◌≡◌, refl, sym, ap, ◌∙◌, inl, inr, Option, none, some, List, arith, eq_iff,
  Bool-cases, if-elim,
}
use remoses.Prelude.Maps.{lookup, delete, lookup-delete, lookup-insert}
use remoses.Prelude.Sets.{has}
use remoses.Radio.{State}
use remoses.Ws.{Event, Message}
use remoses.Ws.Drain.{
  Draining, or_zero, write_resync, resync_due, resync_turn, write_snapshot, snapshot_sent,
  snapshot_from, snapshot_turn, write_event, take_pending, send_message, pending_due, pending_event,
  pending_turn,
}
use remoses.Ws.Stream.Ordered.{
  resync_due-Noted, write_snapshot-Noted, Named, pending_due-Noted, Noted, Below,
}

module _ {ℓ} {F : Type ℓ} where
  -- What holds in a turn up to the snapshots: the order, the bounds, and that the states are no older.
  pub record Opening (id : String) (low high : ℕ) (states : String → Option (State F))
      (d : Draining F) : Type ℓ where
    pub frames_noted : Noted id low d
    pub client_below : Below id high d.client
    pub no_older :
        (st : State F) → states id ≡ some st → or_zero (lookup id d.client.last_seq) ≤ st.seq

  -- What holds in the rest of it.
  pub record Closing (id : String) (low high : ℕ) (d : Draining F) : Type ℓ where
    pub frames_noted : Noted id low d
    pub client_below : Below id high d.client
    pub events_named : Named d

  resync_due-Opening :
      (id : String) (low high now : ℕ) (states : String → Option (State F)) (key : String)
      (held : Option ℕ) (d : Draining F)
      → Opening id low high states d
      → Opening id low high states (resync_due now key held d)
  unfolding resync_due write_resync
  resync_due-Opening id low high now states key (some at) d o = record {
    frames_noted = resync_due-Noted id low now key (some at) d o.frames_noted;
    client_below = o.client_below;
    no_older = o.no_older;
  }
  resync_due-Opening id low high now states key none d o = record {
    frames_noted = resync_due-Noted id low now key none d o.frames_noted;
    client_below = record {
      last_below = o.client_below.last_below;
      pending_below = o.client_below.pending_below;
    };
    no_older = o.no_older;
  }

  pub resync_turn-Opening :
      (id : String) (low high now : ℕ) (states : String → Option (State F)) (key : String)
      (d : Draining F)
      → Opening id low high states d
      → Opening id low high states (resync_turn now key d)
  unfolding resync_turn
  resync_turn-Opening id low high now states key d o =
      if-elim (Opening id low high states) (has key d.client.resync) _ _
        (λ marked. resync_due-Opening id low high now states key _ d o) (λ unmarked. o)

  write_snapshot-Opening :
      (id : String) (low high now : ℕ) (states : String → Option (State F)) (key : String)
      (st : State F) (d : Draining F)
      → states key ≡ some st
      → (key ≡ id → st.seq ≤ high)
      → Opening id low high states d
      → Opening id low high states (write_snapshot now key st d)
  unfolding write_snapshot
  write_snapshot-Opening id low high now states key st d e bound o = record {
    frames_noted =
        write_snapshot-Noted id low now key st d (λ same. o.no_older st (ap states (sym same) ∙ e))
          o.frames_noted;
    client_below = record {
      last_below = ground (
        arith,
        lookup-insert key id st.seq d.client.last_seq,
        bound,
        eq_iff key id,
        o.client_below.last_below,
      );
      pending_below = o.client_below.pending_below;
    };
    no_older = λ other h. elim (Bool-cases (str_eq key id)) [
      | inl same ↦
          let ours = ap states ((eq_iff key id).0 same) in
          let one =
            ap {B = ℕ} (λ (t : Option (State F)). elim t [ none ↦ 0 | some s ↦ s.seq ])
              (sym e ∙ ours ∙ h) in
          ground (arith, lookup-insert key id st.seq d.client.last_seq, one)
      | inr differ ↦
          ground (arith, lookup-insert key id st.seq d.client.last_seq, o.no_older other h)
    ];
  }

  snapshot_from-Opening :
      (id : String) (low high now : ℕ) (states : String → Option (State F)) (key : String)
      (found : Option (State F)) (d : Draining F)
      → states key ≡ found
      → ((st : State F) → states id ≡ some st → st.seq ≤ high)
      → Opening id low high states d
      → Opening id low high states (snapshot_from now key found d)
  unfolding snapshot_from
  snapshot_from-Opening id low high now states key none d e bound o = o
  snapshot_from-Opening id low high now states key (some st) d e bound o =
      write_snapshot-Opening id low high now states key st d e
        (λ same. bound st (ap states (sym same) ∙ e)) o

  pub snapshot_turn-Opening :
      (id : String) (low high now : ℕ) (states : String → Option (State F)) (key : String)
      (d : Draining F)
      → ((st : State F) → states id ≡ some st → st.seq ≤ high)
      → Opening id low high states d
      → Opening id low high states (snapshot_turn now states key d)
  unfolding snapshot_turn
  snapshot_turn-Opening id low high now states key d bound o =
      if-elim (Opening id low high states) (has key d.client.snapshot) _ _
        (λ owed.
          snapshot_from-Opening id low high now states key _ (snapshot_sent key d) refl bound
            (record {
              frames_noted = record {
                in_order = o.frames_noted.in_order;
                noted = o.frames_noted.noted;
              };
              client_below = record {
                last_below = o.client_below.last_below;
                pending_below = o.client_below.pending_below;
              };
              no_older = o.no_older;
            }))
        (λ done. o)

  send_message-Below :
      (id : String) (high now : ℕ) (key : String) (ev : Event F) (msg : Option (Message F))
      (d : Draining F)
      → (key ≡ id → ev.seq ≤ high)
      → Below id high d.client
      → Below id high (send_message now key ev msg d).client
  unfolding send_message write_event
  send_message-Below id high now key ev none d bound b = b
  send_message-Below id high now key ev (some msg) d bound b = record {
    last_below =
        ground (
          arith,
          lookup-insert key id ev.seq d.client.last_seq,
          bound,
          eq_iff key id,
          b.last_below,
        );
    pending_below = b.pending_below;
  }

  send_message-pending :
      (now : ℕ) (key : String) (ev : Event F) (msg : Option (Message F)) (d : Draining F)
      → (send_message now key ev msg d).client.pending ≡ d.client.pending
  unfolding send_message write_event
  send_message-pending now key ev none d = refl
  send_message-pending now key ev (some msg) d = refl

  lookup-deleted :
      (key other : String) (found : Event F) (m : List (String × Event F))
      → lookup other (delete key m) ≡ some found
      → lookup other m ≡ some found
  lookup-deleted key other found m h = ground (arith, lookup-delete key other m)

  pending_due-Closing :
      (id : String) (low high now : ℕ) (key : String) (ev : Event F) (held : Option ℕ)
      (d : Draining F)
      → lookup key d.client.pending ≡ some ev
      → Closing id low high d
      → Closing id low high (pending_due now key ev held d)
  unfolding pending_due
  pending_due-Closing id low high now key ev (some at) d e k = record {
    frames_noted =
        pending_due-Noted id low now key ev (some at) d (k.events_named key ev e) k.frames_noted;
    client_below = k.client_below;
    events_named = k.events_named;
  }
  pending_due-Closing id low high now key ev none d e k = record {
    frames_noted =
        pending_due-Noted id low now key ev none d (k.events_named key ev e) k.frames_noted;
    client_below =
        send_message-Below id high now key ev _ (take_pending key d)
          (λ same.
            k.client_below.pending_below ev (ap (λ x. lookup x d.client.pending) (sym same) ∙ e))
          (record {
            last_below = k.client_below.last_below;
            pending_below = λ other h.
                ground (
                  arith,
                  lookup-delete key id d.client.pending,
                  k.client_below.pending_below other,
                );
          });
    events_named = λ other found h. k.events_named other found (
        lookup-deleted key other found d.client.pending
          (sym (ap (lookup other) (send_message-pending now key ev _ (take_pending key d))) ∙ h));
  }

  pending_event-Closing :
      (id : String) (low high now : ℕ) (key : String) (found : Option (Event F)) (d : Draining F)
      → lookup key d.client.pending ≡ found
      → Closing id low high d
      → Closing id low high (pending_event now key found d)
  unfolding pending_event
  pending_event-Closing id low high now key none d e k = k
  pending_event-Closing id low high now key (some ev) d e k =
      pending_due-Closing id low high now key ev _ d e k

  pub pending_turn-Closing :
      (id : String) (low high now : ℕ) (key : String) (d : Draining F)
      → Closing id low high d
      → Closing id low high (pending_turn now key d)
  unfolding pending_turn
  pending_turn-Closing id low high now key d k =
      pending_event-Closing id low high now key _ d refl k
