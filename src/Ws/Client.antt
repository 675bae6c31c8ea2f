-- ===== src/Ws/Client.antt =====
-- One connection (internal/ws/client.go): its two lanes, its marks and its subscription. `subSet` holds
-- the same radios as `subs` and is not kept apart. `woken` is whether the channel `wake` holds a token.
pub mod Bounds
use remoses.Prelude.{
  ℕ, String, Bool, true, false, not, ◌||◌, Option, none, some, List, [], ◌∷◌, ◌++◌, ltb, leb,
  if◌then◌else◌, length,
}
use remoses.Prelude.Int.{pos}
use remoses.Prelude.Maps.{lookup, insert}
use remoses.Prelude.Sets.{has, add_to, add_all, retain, retain_keys}
use remoses.Radio.Change.{set}
use remoses.Rig.Cache.{EventKind, event_state, event_cw, event_conn}
use remoses.Ws.{Event, DiscreteEvent}

pub record Client {ℓ} (F : Type ℓ) : Type ℓ where
  pub min_interval : ℕ
  pub queue_cap : ℕ
  pub subs : List String
  pub pending : List (String × Event F)
  pub order : List String
  pub discrete : List DiscreteEvent
  pub resync : List String
  pub snapshot : List String
  pub last_seq : List (String × ℕ)
  pub next_at : List (String × ℕ)
  pub next_resync : List (String × ℕ)
  pub closed : Bool
  pub woken : Bool

abbrev pub is_some {ℓ} : {A : Type ℓ} → Option A → Bool
is_some none = false
is_some (some v) = true

-- The loop of `setRadios` that keeps the events of the radios that stay.
unfoldable pub live_events : List String → List DiscreteEvent → List DiscreteEvent
live_events set [] = []
live_events set (d ∷ ds) =
    let rest = live_events set ds in if has d.radio_id set then d ∷ rest else rest

-- A radio that was not subscribed before is owed a snapshot.
unfoldable pub add_new : List String → List String → List String → List String
add_new [] had s = s
add_new (id ∷ ids) had s = add_new ids had (if has id had then s else add_to id s)

module _ {ℓ} {F : Type ℓ} where
  unfoldable pub new_client : ℕ → ℕ → List String → Client F
  new_client min_interval queue_cap radios = record {
    min_interval = min_interval;
    queue_cap = queue_cap;
    subs = radios;
    pending = [];
    order = [];
    discrete = [];
    resync = [];
    snapshot = add_all radios [];
    last_seq = [];
    next_at = [];
    next_resync = [];
    closed = false;
    woken = false;
  }

  abbrev pub signal : Client F → Client F
  signal c = record c { woken = true }

  -- `stop`; `closed` tells whether `stopOnce` has run.
  unfoldable pub stop : Client F → Client F
  stop c = record c { closed = true; woken = c.woken || not c.closed }

  abbrev pub mark_resync : Client F → Client F
  mark_resync c = record c { resync = add_all c.subs c.resync }

  unfoldable pub push_discrete : DiscreteEvent → Client F → Client F
  push_discrete d c =
      if leb c.queue_cap (length c.discrete)
      then mark_resync (record c { discrete = [] })
      else record c { discrete = c.discrete ++ d ∷ [] }

  -- The discrete events that a CW and a connection event become.
  abbrev pub cw_event : Event F → DiscreteEvent
  cw_event ev = record {
    kind = event_cw;
    radio_id = ev.radio_id;
    seq = ev.seq;
    at_time = ev.at_time;
    cw = ev.state.cw;
    up = false;
    err = "";
  }

  abbrev pub conn_event : Event F → DiscreteEvent
  conn_event ev = record {
    kind = event_conn;
    radio_id = ev.radio_id;
    seq = ev.seq;
    at_time = ev.at_time;
    cw = record { busy = false; queued = pos 0; wpm = pos 0; est_remaining_ms = pos 0 };
    up = ev.state.connected;
    err = ev.err;
  }

  -- The `switch` on the kind of an event.
  unfoldable pub push_by : EventKind → Event F → Client F → Client F
  push_by event_cw ev c = push_discrete (cw_event ev) c
  push_by event_conn ev c = push_discrete (conn_event ev) c
  push_by event_state ev c = c

  -- The newest event of a radio takes the place of the one that waits.
  unfoldable pub keep_newest : Event F → Client F → Client F
  keep_newest ev c = record c {
    order = if is_some (lookup ev.radio_id c.pending) then c.order else c.order ++ ev.radio_id ∷ [];
    pending = insert ev.radio_id ev c.pending;
  }

  -- `if ev.Dropped > 0`
  unfoldable pub note_dropped : Event F → Client F → Client F
  note_dropped ev c = if ltb 0 ev.dropped then signal (mark_resync c) else c

  unfoldable pub enqueue : Event F → Client F → Client F
  enqueue ev c =
      let noted = note_dropped ev c in
      if c.closed
      then c
      else if has ev.radio_id noted.subs
      then signal (keep_newest ev (push_by ev.kind ev noted))
      else noted

  -- The radios of `order` that still have an event.
  unfoldable pub still_pending : List (String × Event F) → List String → List String
  still_pending pending [] = []
  still_pending pending (id ∷ ids) =
      let rest = still_pending pending ids in
      if is_some (lookup id pending) then id ∷ rest else rest

  -- `setRadios` with the radios that the hub has resolved.
  unfoldable pub set_radios : List String → Client F → Client F
  set_radios resolved c =
      let pending = retain_keys resolved c.pending in
      if c.closed
      then c
      else signal (record c {
        subs = resolved;
        pending = pending;
        order = still_pending pending c.order;
        discrete = live_events resolved c.discrete;
        resync = retain resolved c.resync;
        snapshot = retain resolved (add_new resolved c.subs c.snapshot);
      })
