-- ===== src/Rig/Cache.antt =====
-- The state cache of a session, the events that it publishes, and the transmit time-out (`apply`,
-- `refreshCW`, `armDeadman`, `ForceRX` of internal/rig/session.go, `onDisconnected` of supervisor.go).
-- Clock readings are arguments. `deadman` is the deadline of the timer that is armed, `commands` what
-- was asked of the sender and of the radio, `events` what was handed to the subscribers, each in order;
-- an event's radio and its reason are left out. `apply` and `refreshCW` change the state under a lock and
-- publish behind it, so they are two parts here, between which other calls may come.
pub mod Flow
pub mod Replica
pub mod Deadman
mod Tests
use remoses.Prelude.{
  ℕ, zero, suc, ◌+◌, ◌%◌, ◌^◌, Bool, true, false, not, ◌&&◌, Option, none, some, List, [], ◌∷◌,
  ◌++◌, if◌then◌else◌,
}
use remoses.Prelude.Compare.{Comparable}
use remoses.Prelude.Int.{ℤ, pos, negsuc}
use remoses.Radio.{CwStatus, State, Patch}
use remoses.Radio.Change.{no_patch, empty, apply, diff}
use remoses.Radio.Compared.{cw_equal}
use remoses.Rig.Backoff.{stored}
use remoses.Rig.Patch.Apply.{◌then◌}

pub data EventKind : Type 0 where
  event_state event_cw event_conn : EventKind

pub record Published {ℓ} (F : Type ℓ) : Type ℓ where
  pub kind : EventKind
  pub seq : ℕ
  pub at_time : ℕ
  pub snapshot : State F
  pub change : Patch F

pub data Command : Type 0 where
  cw_abort : Command
  set_ptt : Bool → Command

-- `sender` tells whether a CW sender is installed, `conn` whether there is a connection.
pub record Session {ℓ} (F : Type ℓ) : Type ℓ where
  pub state : State F
  pub tx_timeout : ℤ
  pub ptt_control : Bool
  pub sender : Bool
  pub conn : Bool
  pub deadman : Option ℕ
  pub commands : List Command
  pub events : List (Published F)

-- `armDeadman` at a time-out; a timer that was armed is stopped.
unfoldable pub arm_at : ℤ → Option ℕ → ℕ → Option ℕ
arm_at (pos zero) deadline now = deadline
arm_at (pos (suc n)) deadline now = some (now + suc n)
arm_at (negsuc n) deadline now = deadline

module _ {ℓ} {F : Type ℓ} where
  unfoldable pub arm_deadman : Session F → ℕ → Session F
  arm_deadman s now = record s { deadman = arm_at s.tx_timeout s.deadman now }

  unfoldable pub disarm_deadman : Session F → Session F
  disarm_deadman s = record s { deadman = none }

  -- What a change of PTT does to the timer.
  unfoldable pub watch_ptt : Option Bool → Session F → ℕ → Session F
  watch_ptt none s now = s
  watch_ptt (some true) s now = arm_deadman s now
  watch_ptt (some false) s now = disarm_deadman s

  abbrev pub event_of : EventKind → State F → Patch F → Published F
  event_of kind next p = record {
    kind = kind;
    seq = next.seq;
    at_time = next.updated_at;
    snapshot = next;
    change = p;
  }

  unfoldable pub publish_event : Published F → Session F → Session F
  publish_event e s = record s { events = s.events ++ e ∷ [] }

  -- What `apply` and `refreshCW` do behind the lock of the state: the timer for a change of PTT, and the
  -- event. A change of the queue status names no PTT.
  unfoldable pub announce : Session F → ℕ → Option (Published F) → Session F
  announce s armed_at none = s
  announce s armed_at (some e) = publish_event e (watch_ptt e.change.ptt s armed_at)

  -- `radio.Patch{CW: &st}`: the patch that tells a new queue status.
  abbrev pub cw_patch : CwStatus → Patch F
  cw_patch status = record no_patch { cw = some status }

  -- The change that tells that a connection is gone.
  abbrev pub lost_patch : Patch F
  lost_patch = record no_patch { connected = some false; ptt = some false }

module _ {ℓ} {F : Type ℓ} ⦃float : Comparable F⦄ where
  abbrev pub updated : State F → Patch F → ℕ → State F
  updated old p now = record (apply old p) { updated_at = now }

  -- The state behind a change, with a number of its own only if something changed.
  unfoldable pub next_state : State F → Patch F → ℕ → State F
  next_state old p now =
      if empty (diff old (updated old p now))
      then updated old p now
      else record (updated old p now) { seq = (old.seq + 1) % 2 ^ 64 }

  -- The locked part of `apply`, with the event that is still to be published.
  unfoldable pub store_change :
      Session F → Patch F → EventKind → ℕ → Session F × Option (Published F)
  store_change s p kind now =
      if empty p
      then (s, none)
      else (let next = next_state s.state p now in
          let changes = diff s.state (updated s.state p now) in
          let stored = record s { state = next } in
          if empty changes then (stored, none) else (stored, some (event_of kind next changes)))

  -- The locked part of `refreshCW`, for a status of the sender.
  unfoldable pub store_cw : Session F → CwStatus → ℕ → Session F × Option (Published F)
  store_cw s status now =
      let old = s.state in
      let next = record old { cw = status; updated_at = now; seq = (old.seq + 1) % 2 ^ 64 } in
      if not s.sender
      then (s, none)
      else if cw_equal old.cw status
      then (s, none)
      else (record s { state = next }, some (event_of event_cw next (cw_patch status)))

  -- `apply` of the session, where no other call comes in between its two parts; `armed_at` is the clock
  -- of the timer.
  unfoldable pub cache_apply : Session F → Patch F → EventKind → ℕ → ℕ → Session F
  cache_apply s p kind now armed_at =
      let (stored, event) = store_change s p kind now in announce stored armed_at event

  -- `refreshCW`, where no other call comes in between.
  unfoldable pub refresh_cw : Session F → CwStatus → ℕ → Session F
  refresh_cw s status now = let (stored, event) = store_cw s status now in announce stored now event

  -- The first part of `ForceRX`, up to what the radio answers: the timer goes, the sender is told to
  -- abort, and the transmitter is dropped where the radio has a command for it.
  unfoldable pub force_rx : Session F → Session F
  force_rx s =
      let stopped = if s.sender then cw_abort ∷ [] else [] in
      let dropped = if s.conn && s.ptt_control then set_ptt false ∷ [] else [] in
      record s { deadman = none; commands = s.commands ++ stopped ++ dropped }

  unfoldable pub on_disconnected : Session F → CwStatus → ℕ → ℕ → Session F
  on_disconnected s status now later =
      let stopped = if s.sender then cw_abort ∷ [] else [] in
      let quiet = record (disarm_deadman s) { commands = s.commands ++ stopped } in
      refresh_cw (cache_apply quiet lost_patch event_conn now now) status later
