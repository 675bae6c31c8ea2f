-- ===== src/Cw/Cat.antt =====
-- The sender that feeds a rig's own CW buffer (internal/cw/cat.go). Times are in nanoseconds and 0 is
-- Go's zero time. Contexts are numbered in the order in which they are made, and `cancelled` holds the
-- ones that were cancelled. Each locked region of the pacing loop is a function of its own; what the
-- rig and the clock answer between them is an argument.
pub mod Loop
pub mod Views
pub mod Order
use remoses.Prelude.{
  ℕ, zero, suc, ◌+◌, ◌-◌, ◌/◌, ◌%◌, ◌^◌, min, max, ◌⊎◌, inl, inr, Bool, true, false, ◌||◌, Option,
  none, some, List, [], ◌∷◌, ◌++◌, ltb, ◌==◌, if◌then◌else◌, Bytes, length,
}
use remoses.Prelude.Int.{ℤ, pos, negsuc}
use remoses.Cw.Chunk.{Fault, char_error, Chunk, ascii_upper, validate, build_chunks}
use remoses.Morse.Timing.{unit_duration, estimate}

abbrev pub min_wpm : ℕ
min_wpm = 5

abbrev pub max_wpm : ℕ
max_wpm = 60

abbrev pub default_wpm : ℕ
default_wpm = 20

abbrev pub min_poll_interval : ℕ
min_poll_interval = 20_000_000

abbrev pub max_poll_interval : ℕ
max_poll_interval = 250_000_000

abbrev pub min_max_chunk : ℕ
min_max_chunk = 8

unfoldable pub clamp_wpm : ℤ → ℕ
clamp_wpm (pos zero) = default_wpm
clamp_wpm (pos (suc n)) = min (max (suc n) min_wpm) max_wpm
clamp_wpm (negsuc n) = default_wpm

pub data Mode : Type 0 where
  append replace : Mode

pub record Flight : Type 0 where
  pub chars : ℕ
  pub done_at : ℕ

-- What the sender asks of a `MorseSender` with no radio involved.
pub record Backend {ℓ} (E : Type ℓ) : Type ℓ where
  pub charset : Bytes
  pub max_chunk : ℕ
  pub encode_prosigns : Bytes → Bytes ⊎ E

-- The settings of `config.CW` that the sender reads.
pub record Settings : Type 0 where
  pub chunks_in_flight : ℤ
  pub default_speed : ℤ

pub record Sender {ℓ} (E : Type ℓ) : Type ℓ where
  pub ms : Backend E
  pub max_chunk : ℕ
  pub chunks_in_flight : ℕ
  pub queue : List Chunk
  pub inflight : List Flight
  pub drain_at : ℕ
  pub sending : Bool
  pub wpm : ℕ
  pub next_id : ℕ
  pub closed : Bool
  pub ctx : ℕ
  pub cancelled : List ℕ

pub data NewError : Type 0 where
  missing_part empty_charset small_chunk : NewError

pub data SendError {ℓ} (E : Type ℓ) : Type ℓ where
  fault : Fault E → SendError E
  sender_closed : SendError E

pub record Status : Type 0 where
  pub queued : ℕ
  pub est_remaining_ms : ℕ
  pub busy : Bool
  pub wpm : ℕ

-- `if inFlight < 1 { inFlight = 1 }`
abbrev pub at_least_one : ℤ → ℕ
at_least_one (pos n) = max n 1
at_least_one (negsuc n) = 1

-- `sum` of the characters in flight and in the queue.
unfoldable pub flight_chars : List Flight → ℕ
flight_chars [] = 0
flight_chars (f ∷ fs) = f.chars + flight_chars fs

unfoldable pub queue_chars : List Chunk → ℕ
queue_chars [] = 0
queue_chars (c ∷ cs) = c.chars + queue_chars cs

-- The time that the queued chunks will take.
unfoldable pub queue_time : ℕ → List Chunk → ℕ
queue_time wpm [] = 0
queue_time wpm (c ∷ cs) = estimate c.canon (pos wpm) (pos 50) + queue_time wpm cs

-- `s.nextID++` for each chunk, and the counter after the last.
unfoldable pub numbered : ℕ → List Chunk → List Chunk
numbered n [] = []
numbered n (c ∷ cs) =
    let next = (n + 1) % 2 ^ 64 in
    record { canon = c.canon; encoded = c.encoded; chars = c.chars; id = next } ∷ numbered next cs

unfoldable pub last_id : ℕ → List Chunk → ℕ
last_id n [] = n
last_id n (c ∷ cs) = last_id ((n + 1) % 2 ^ 64) cs

-- `pruneLocked` on the flights.
unfoldable pub prune : ℕ → List Flight → List Flight
prune now [] = []
prune now (f ∷ fs) = let rest = prune now fs in if ltb now f.done_at then f ∷ fs else rest

-- Whether a context was cancelled: `ctx.Err() != nil`.
unfoldable pub is_done : ℕ → List ℕ → Bool
is_done x [] = false
is_done x (y ∷ ys) = x == y || is_done x ys

unfoldable pub poll_interval : ℕ → ℕ
poll_interval wpm = min (max (unit_duration (pos wpm)) min_poll_interval) max_poll_interval

-- What a mode leaves of the queue.
abbrev pub kept : Mode → List Chunk → List Chunk
kept append queue = queue
kept replace queue = []

module _ {ℓ} {E : Type ℓ} where
  -- `NewCAT`; `none` stands for a nil interface value, and `conn` tells whether there is a `Conn`.
  unfoldable pub new_cat : Option (Backend E) → Bool → Settings → Sender E ⊎ NewError
  new_cat none conn cfg = inr missing_part
  new_cat (some ms) false cfg = inr missing_part
  new_cat (some ms) true cfg =
      if length ms.charset == 0
      then inr empty_charset
      else if ltb ms.max_chunk min_max_chunk
      then inr small_chunk
      else inl (record {
        ms = ms;
        max_chunk = ms.max_chunk;
        chunks_in_flight = at_least_one cfg.chunks_in_flight;
        queue = [];
        inflight = [];
        drain_at = 0;
        sending = false;
        wpm = clamp_wpm cfg.default_speed;
        next_id = 0;
        closed = false;
        ctx = 0;
        cancelled = [];
      })

  -- `validate` and `buildChunks`, on the folded text.
  unfoldable pub checked : Backend E → ℕ → Bytes → Option (ℕ × ℕ) → List Chunk ⊎ Fault E
  checked ms n up (some (c, i)) = inr (char_error c i)
  checked ms n up none = build_chunks n ms.encode_prosigns up

  unfoldable pub prepared : Sender E → Bytes → List Chunk ⊎ Fault E
  prepared s text =
      checked s.ms s.max_chunk (ascii_upper text) (validate (ascii_upper text) s.ms.charset)

  -- The locked region of `Enqueue`.
  unfoldable pub accept :
      Sender E → Bytes → Mode → List Chunk ⊎ Fault E → (ℕ ⊎ SendError E) × Sender E
  accept s text mode (inr e) = (inr (fault e), s)
  accept s text mode (inl chunks) = if s.closed then (inr sender_closed, s) else (
    inl (length text),
    record s {
      queue = kept mode s.queue ++ numbered s.next_id chunks;
      next_id = last_id s.next_id chunks;
    },
  )

  unfoldable pub enqueue : Sender E → Bytes → Mode → (ℕ ⊎ SendError E) × Sender E
  enqueue s text mode = accept s text mode (prepared s text)

  -- The locked region of `Abort` and the cancellation of the context behind it.
  unfoldable pub abort : Sender E → Sender E
  abort s = record s {
    queue = [];
    inflight = [];
    drain_at = 0;
    ctx = if s.closed then s.ctx else s.ctx + 1;
    cancelled = s.ctx ∷ s.cancelled;
  }

  unfoldable pub prune_locked : Sender E → ℕ → Sender E
  prune_locked s now = record s { inflight = prune now s.inflight }

  -- `remaining`
  unfoldable pub remaining : Sender E → ℕ → ℕ
  remaining s now = (s.drain_at - now) + queue_time s.wpm s.queue

  unfoldable pub status_of : Sender E → ℕ → Status
  status_of s now = record {
    queued = flight_chars s.inflight + queue_chars s.queue;
    est_remaining_ms = remaining s now / 1_000_000;
    busy =
        ltb 0 (flight_chars s.inflight + queue_chars s.queue)
        || s.sending
        || ltb 0 (remaining s now);
    wpm = s.wpm;
  }

  unfoldable pub status : Sender E → ℕ → Status × Sender E
  status s now = (status_of (prune_locked s now) now, prune_locked s now)

  -- `SetSpeed`, where `acknowledged` tells whether the rig took the speed, with the speed it was sent.
  unfoldable pub set_speed : Sender E → ℤ → Bool → ℕ × Sender E
  set_speed s wpm acknowledged =
      (clamp_wpm wpm, if acknowledged then record s { wpm = clamp_wpm wpm } else s)

  unfoldable pub close : Sender E → Sender E
  close s =
      if s.closed
      then s
      else record s { closed = true; queue = []; cancelled = s.ctx ∷ s.cancelled }

  unfoldable pub fail : Sender E → Sender E
  fail s = record s { queue = [] }

  unfoldable pub record_sent : Sender E → Chunk → ℕ → Sender E
  record_sent s c now =
      let start = if ltb now s.drain_at then s.drain_at else now in
      let done_at = start + estimate c.canon (pos s.wpm) (pos 50) in
      record s {
        drain_at = done_at;
        inflight = s.inflight ++ record { chars = c.chars; done_at = done_at } ∷ [];
      }
