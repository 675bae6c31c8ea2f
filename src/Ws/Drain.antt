-- ===== src/Ws/Drain.antt =====
-- What a client writes when it is its turn (`drain`, `stateMessageLocked` of internal/ws/client.go).
-- `next` is the earliest time at which something that was held back is due, `none` for Go's zero time.
pub mod Bounds
use remoses.Prelude.{
  ℕ, ◌+◌, String, Option, none, some, List, [], ◌∷◌, ◌++◌, ltb, leb, if◌then◌else◌,
}
use remoses.Prelude.Maps.{lookup, delete, insert}
use remoses.Prelude.Sets.{has, remove}
use remoses.Radio.{State}
use remoses.Radio.Change.{empty}
use remoses.Rig.Patch.Check.{is_nil}
use remoses.Ws.{Event, DiscreteEvent, Message, hello_msg, state_msg, delta_msg, resync_msg}
use remoses.Ws.Client.{Client}
use remoses.Ws.Render.{event_message, changed_fields}

pub record Draining {ℓ} (F : Type ℓ) : Type ℓ where
  pub client : Client F
  pub out : List (Message F)
  pub next : Option ℕ
  pub kept : List String

-- `if next.IsZero() || at.Before(next) { next = at }`
unfoldable pub sooner : ℕ → Option ℕ → Option ℕ
sooner at none = some at
sooner at (some next) = if ltb at next then some at else some next

-- `at, limited := m[id]; limited && now.Before(at)`, with the time.
unfoldable pub held_until : ℕ → Option ℕ → Option ℕ
held_until now none = none
held_until now (some at) = if ltb now at then some at else none

abbrev pub or_zero : Option ℕ → ℕ
or_zero none = 0
or_zero (some n) = n

module _ {ℓ} {F : Type ℓ} where
  -- The frame that opens every connection.
  unfoldable pub hello : String → ℕ → Client F → Message F
  hello version now c = hello_msg version c.subs now

  -- One turn of the loop over the radios that may owe a resync.
  unfoldable pub write_resync : ℕ → String → Draining F → Draining F
  write_resync now id d =
      let c = d.client in
      record d {
        out = d.out ++ resync_msg id (or_zero (lookup id c.last_seq)) now ∷ [];
        client = record c {
          resync = remove id c.resync;
          next_resync = insert id (now + c.min_interval) c.next_resync;
        };
      }

  unfoldable pub resync_due : ℕ → String → Option ℕ → Draining F → Draining F
  resync_due now id (some at) d = record d { next = sooner at d.next }
  resync_due now id none d = write_resync now id d

  unfoldable pub resync_turn : ℕ → String → Draining F → Draining F
  resync_turn now id d =
      if has id d.client.resync
      then resync_due now id (held_until now (lookup id d.client.next_resync)) d
      else d

  unfoldable pub event_messages : List DiscreteEvent → List (Message F)
  event_messages [] = []
  event_messages (e ∷ es) = event_message e ∷ event_messages es

  unfoldable pub flush_discrete : Draining F → Draining F
  flush_discrete d = record d {
    out = d.out ++ event_messages d.client.discrete;
    client = record d.client { discrete = [] };
  }

  unfoldable pub write_snapshot : ℕ → String → State F → Draining F → Draining F
  write_snapshot now id st d =
      let c = d.client in
      record d {
        out = d.out ++ state_msg id st.seq st.updated_at st ∷ [];
        client = record c {
          last_seq = insert id st.seq c.last_seq;
          next_at = insert id (now + c.min_interval) c.next_at;
        };
      }

  abbrev pub snapshot_sent : String → Draining F → Draining F
  snapshot_sent id d = record d {
    client = record d.client { snapshot = remove id d.client.snapshot };
  }

  unfoldable pub snapshot_from : ℕ → String → Option (State F) → Draining F → Draining F
  snapshot_from now id (some st) d = write_snapshot now id st d
  snapshot_from now id none d = d

  -- One turn of the loop over the snapshots, with the states that the hub has.
  unfoldable pub snapshot_turn : ℕ → (String → Option (State F)) → String → Draining F → Draining F
  snapshot_turn now states id d =
      if has id d.client.snapshot then snapshot_from now id (states id) (snapshot_sent id d) else d

  -- `stateMessageLocked`
  unfoldable pub state_message : Event F → Option ℕ → Option (Message F)
  state_message ev last =
      if leb ev.seq (or_zero last)
      then none
      else if empty ev.patch
      then some (state_msg ev.radio_id ev.seq ev.at_time ev.state)
      else some (delta_msg ev.radio_id ev.seq ev.at_time (changed_fields ev.patch ev.state))

  unfoldable pub write_event : ℕ → String → Event F → Message F → Draining F → Draining F
  write_event now id ev msg d =
      let c = d.client in
      record d {
        out = d.out ++ msg ∷ [];
        client = record c {
          last_seq = insert id ev.seq c.last_seq;
          next_at = insert id (now + c.min_interval) c.next_at;
        };
      }

  abbrev pub take_pending : String → Draining F → Draining F
  take_pending id d = record d { client = record d.client { pending = delete id d.client.pending } }

  unfoldable pub send_message : ℕ → String → Event F → Option (Message F) → Draining F → Draining F
  send_message now id ev (some msg) d = write_event now id ev msg d
  send_message now id ev none d = d

  -- What becomes of the event of a radio, which the rate limit may hold back.
  unfoldable pub pending_due : ℕ → String → Event F → Option ℕ → Draining F → Draining F
  pending_due now id ev (some at) d = record d { kept = d.kept ++ id ∷ []; next = sooner at d.next }
  pending_due now id ev none d =
      send_message now id ev (state_message ev (lookup ev.radio_id d.client.last_seq))
        (take_pending id d)

  unfoldable pub pending_event : ℕ → String → Option (Event F) → Draining F → Draining F
  pending_event now id none d = d
  pending_event now id (some ev) d =
      pending_due now id ev (held_until now (lookup id d.client.next_at)) d

  unfoldable pub pending_turn : ℕ → String → Draining F → Draining F
  pending_turn now id d = pending_event now id (lookup id d.client.pending) d

  -- A loop over radios.
  unfoldable pub each : (String → Draining F → Draining F) → List String → Draining F → Draining F
  each turn [] d = d
  each turn (id ∷ ids) d = each turn ids (turn id d)

  abbrev pub start : Client F → Draining F
  start c = record { client = c; out = []; next = none; kept = [] }

  unfoldable pub drain_resyncs : ℕ → Draining F → Draining F
  drain_resyncs now d = if is_nil d.client.resync then d else each (resync_turn now) d.client.subs d

  unfoldable pub drain_snapshots : ℕ → (String → Option (State F)) → Draining F → Draining F
  drain_snapshots now states d =
      if is_nil d.client.snapshot then d else each (snapshot_turn now states) d.client.subs d

  abbrev pub order_kept : Draining F → Draining F
  order_kept d = record d { client = record d.client { order = d.kept } }

  unfoldable pub drain_pending : ℕ → Draining F → Draining F
  drain_pending now d =
      if is_nil d.client.pending
      then d
      else order_kept (each (pending_turn now) d.client.order (record d { kept = [] }))

  unfoldable pub drain : ℕ → (String → Option (State F)) → Client F → Draining F
  drain now states c =
      drain_pending now (drain_snapshots now states (flush_discrete (drain_resyncs now (start c))))
