-- ===== src/Rig/Backoff.antt =====
-- Reconnecting and giving up (internal/rig/supervisor.go and poller.go). Durations are in nanoseconds.
-- What a radio answers is an argument, `none` for no error; `Failure` has the errors that the code
-- tells apart.
pub mod Rules
use remoses.Prelude.{
  ℕ, zero, suc, ◌+◌, ◌-◌, ◌*◌, ◌/◌, Bool, true, false, not, ◌&&◌, Option, none, some, List, [], ◌∷◌,
  ltb, leb, ◌==◌, if◌then◌else◌,
}

pub data Failure : Type 0 where
  err_disconnected err_timeout err_canceled err_deadline err_nak err_other : Failure

pub data PollTier : Type 0 where
  poll_fast poll_slow : PollTier

abbrev pub max_poll_failures : ℕ
max_poll_failures = 5

unfoldable pub next_backoff : ℕ → ℕ → ℕ → ℕ
next_backoff zero min_d max_d = min_d
next_backoff (suc n) min_d max_d = if ltb max_d (suc n * 2) then max_d else suc n * 2

-- `jitter`; `r` is the random number below `2 * delta`.
unfoldable pub jitter : ℕ → ℕ → ℕ
jitter d r = if d / 4 == 0 then d else d - d / 4 + r

-- What `supervise` does behind an attempt: how long it waits, and the next backoff.
unfoldable pub supervise_turn : ℕ → ℕ → Bool → ℕ → ℕ → ℕ × ℕ
supervise_turn min_d max_d connected r backoff =
    let now = if connected then min_d else backoff in (jitter now r, next_backoff now min_d max_d)

unfoldable pub is_fatal_poll_err : Option Failure → Bool
is_fatal_poll_err none = false
is_fatal_poll_err (some err_disconnected) = true
is_fatal_poll_err (some err_timeout) = true
is_fatal_poll_err (some err_canceled) = true
is_fatal_poll_err (some err_deadline) = true
is_fatal_poll_err (some err_nak) = false
is_fatal_poll_err (some err_other) = false

unfoldable pub is_disconnected : Failure → Bool
is_disconnected err_disconnected = true
is_disconnected _ = false

unfoldable pub is_nak : Failure → Bool
is_nak err_nak = true
is_nak _ = false

unfoldable pub is_fast : PollTier → Bool
is_fast poll_fast = true
is_fast poll_slow = false

-- Whether the loop goes on, the failures of the tier, and whether the connection was failed.
pub record Polled : Type 0 where
  pub goes_on : Bool
  pub fails : ℕ
  pub killed : Bool

unfoldable pub poll_tier : Bool → PollTier → ℕ → Option Failure → Polled
poll_tier shutting_down tier fails none = record { goes_on = true; fails = 0; killed = false }
poll_tier shutting_down tier fails (some e) =
    if shutting_down
    then record { goes_on = false; fails = fails; killed = false }
    else if is_disconnected e
    then record { goes_on = false; fails = fails; killed = false }
    else if not (is_fatal_poll_err (some e)) && not (is_fast tier)
    then record { goes_on = true; fails = fails; killed = false }
    else if leb max_poll_failures (fails + 1)
    then record { goes_on = false; fails = fails + 1; killed = true }
    else record { goes_on = true; fails = fails + 1; killed = false }

-- `pollLoop` on the ticks and their answers: the counters of both tiers, and how the loop ended, if
-- it did.
pub record Poller : Type 0 where
  pub fast_fails : ℕ
  pub slow_fails : ℕ
  pub stopped : Bool
  pub killed : Bool

abbrev pub stored : PollTier → Poller → Polled → Poller
stored poll_fast p r = record p { fast_fails = r.fails; stopped = not r.goes_on; killed = r.killed }
stored poll_slow p r = record p { slow_fails = r.fails; stopped = not r.goes_on; killed = r.killed }

abbrev pub counter : PollTier → Poller → ℕ
counter poll_fast p = p.fast_fails
counter poll_slow p = p.slow_fails

unfoldable pub poll_loop : Poller → List (PollTier × Option Failure) → Poller
poll_loop p [] = p
poll_loop p (t ∷ ticks) =
    let later = poll_loop (stored t.0 p (poll_tier false t.0 (counter t.0 p) t.1)) ticks in
    if p.stopped then p else later

-- What an attempt meets: Dial's error, the answer of Init, those of its retries while the radio is
-- switched off, the answers of the two first polls, and the error with which the connection ends. The
-- flags that the session publishes on the way and the wake-up frames are left out.
pub record Attempt : Type 0 where
  pub dial : Option Failure
  pub init : Option Failure
  pub retries : List (Option Failure)
  pub slow : Option Failure
  pub fast : Option Failure
  pub final : Failure

-- The loop of `awaitWake`: the error it returns, where the end of the answers is the end of the
-- connection.
unfoldable pub await_wake : Failure → List (Option Failure) → Option Failure
await_wake final [] = some final
await_wake final (none ∷ answers) = none
await_wake final (some e ∷ answers) =
    let later = await_wake final answers in if is_nak e then later else some e

-- `Init` and the wait behind a refusal.
unfoldable pub init_result : Attempt → Option Failure → Option Failure
init_result a none = none
init_result a (some e) = if is_nak e then await_wake a.final a.retries else some e

-- The slow poll fails the attempt only where its error is fatal.
unfoldable pub first_polls : Attempt → Bool × Failure
first_polls a = elim a.slow [
  | some e ↦
      if is_fatal_poll_err (some e)
      then (false, e)
      else (elim a.fast [ none ↦ (true, a.final) | some f ↦ (false, f) ])
  | none ↦ elim a.fast [ none ↦ (true, a.final) | some f ↦ (false, f) ]
]

-- What `runConnection` returns: whether the radio ever became usable, and the error.
unfoldable pub run_connection : Attempt → Bool × Failure
run_connection a = elim a.dial [
  | some e ↦ (false, e)
  | none ↦ elim (init_result a a.init) [ some e ↦ (false, e) | none ↦ first_polls a ]
]
