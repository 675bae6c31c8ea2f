-- ===== src/Cw/Cat/Loop.antt =====
-- The pacing loop of the sender (`run`, `waitForRoom`, `waitForDrain`) as a step on the sender and the
-- loop's own place, which interleaves with the calls of other goroutines.
use remoses.Prelude.{
  ℕ, suc, ◌+◌, ◌^◌, ◌<◌, ◌≡◌, ◌⊎◌, inl, inr, Bool, true, false, not, ◌||◌, List, [], ◌∷◌, ltb, leb,
  ◌==◌, if◌then◌else◌, Bytes, length, drop,
}
use remoses.Prelude.Int.{ℤ}
use remoses.Cw.Cat.{
  close, enqueue, Mode, Flight, Sender, is_done, prepared, abort, prune_locked, status, set_speed,
  fail, record_sent,
}
use remoses.Cw.Chunk.{Fault, Chunk}

-- Where the loop is, with the chunk and the context that it took: asking for room, asleep before it
-- asks again, waiting for the rig to drain, about to remove the chunk, with the chunk removed and the lock
-- released but `SendChunk` not yet called, in `SendChunk`.
pub data Phase : Type 0 where
  idle : Phase
  pacing : Chunk → ℕ → Phase
  polling : Chunk → ℕ → Phase
  draining : Chunk → ℕ → Phase
  ready : Chunk → ℕ → Phase
  holding : Chunk → ℕ → Phase
  transmitting : Chunk → ℕ → Phase
  returned : Phase

-- `BufferFree`: an error, which may be `context.Canceled`; no answer possible; the free bytes.
pub data Room : Type 0 where
  room_error : Bool → Room
  room_unknown : Room
  room_free : ℕ → Room

-- A call of `SendChunk`: with which chunk, and whether its context was still live then.
pub record Call : Type 0 where
  pub chunk : Chunk
  pub live : Bool

-- `calls` holds the calls of `SendChunk`, the newest first.
pub record System {ℓ} (E : Type ℓ) : Type ℓ where
  pub sender : Sender E
  pub phase : Phase
  pub calls : List Call

-- The next turn of `run`: wait while there is nothing, return when closed, else take the head.
unfoldable pub pick_head : ℕ → List Chunk → Phase
pick_head x [] = idle
pick_head x (c ∷ cs) = pacing c x

unfoldable pub is_head : Chunk → List Chunk → Bool
is_head c [] = false
is_head c (d ∷ ds) = d.id == c.id

-- `until` of `waitForDrain`, or 0.
unfoldable pub drain_until : ℕ → List Flight → ℕ
drain_until n [] = 0
drain_until n (f ∷ fs) = if ltb n (suc (length fs)) then f.done_at else 0

module _ {ℓ} {E : Type ℓ} where
  unfoldable pub pick : Sender E → Phase
  pick s = if s.closed then returned else pick_head s.ctx s.queue

  -- An error behind which `run` goes on: it gives up on the queue unless it was cancelled.
  unfoldable pub after_error : Sender E → ℕ → Bool → Sender E
  after_error s x canceled = if is_done x s.cancelled || canceled then s else fail s

  unfoldable pub room : Sender E → Chunk → ℕ → Room → Sender E × Phase
  room s c x (room_error canceled) = (after_error s x canceled, idle)
  room s c x room_unknown = (s, draining c x)
  room s c x (room_free n) = if leb (length c.encoded) n then (s, ready c x) else (s, polling c x)

  -- One turn of `waitForDrain`.
  unfoldable pub drain : Sender E → Chunk → ℕ → ℕ → Sender E × Phase
  drain s c x now =
      let pruned = prune_locked s now in
      if drain_until s.chunks_in_flight pruned.inflight == 0
      then (pruned, ready c x)
      else (pruned, draining c x)

  -- The re-check after the wait and the removal of the head, under the lock.
  unfoldable pub take_head : System E → Chunk → ℕ → System E
  take_head sys c x =
      let s = sys.sender in
      if s.closed || not (s.ctx == x) || not (is_head c s.queue)
      then record sys { phase = idle }
      else record {
        sender = record s { queue = drop 1 s.queue; sending = true };
        phase = holding c x;
        calls = sys.calls;
      }

  -- The call of `SendChunk`, with no lock held.
  unfoldable pub hand_over : System E → Chunk → ℕ → System E
  hand_over sys c x =
      let live = not (is_done x sys.sender.cancelled) in
      record {
        sender = sys.sender;
        phase = transmitting c x;
        calls = record { chunk = c; live = live } ∷ sys.calls;
      }

  abbrev pub at_phase : System E → Sender E × Phase → System E
  at_phase sys (s, p) = record { sender = s; phase = p; calls = sys.calls }

  -- Behind `SendChunk`.
  unfoldable pub sent_ok : Sender E → Chunk → ℕ → Sender E
  sent_ok s c now = record_sent (record s { sending = false }) c now

  unfoldable pub sent_error : Sender E → ℕ → Bool → Sender E
  sent_error s x canceled = after_error (record s { sending = false }) x canceled

-- One step of the system: a call of another goroutine, or the loop going on. `wakes` is the end of a
-- sleep by its timer, `interrupts` its end by the context. `enqueues` is a step only while the 64-bit
-- counter of the chunks does not wrap.
pub data Step {ℓ} {E : Type ℓ} (sys : System E) : System E → Type ℓ where
  enqueues :
      (text : Bytes) (mode : Mode) (chunks : List Chunk)
      → prepared sys.sender text ≡ inl chunks
      → sys.sender.next_id + length chunks < 2 ^ 64
      → Step sys (record sys { sender = (enqueue sys.sender text mode).1 })
  refuses :
      (text : Bytes) (mode : Mode) (e : Fault E)
      → prepared sys.sender text ≡ inr e
      → Step sys (record sys { sender = (enqueue sys.sender text mode).1 })
  aborts : Step sys (record sys { sender = abort sys.sender })
  reports : (now : ℕ) → Step sys (record sys { sender = (status sys.sender now).1 })
  sets_speed :
      (wpm : ℤ) (ok : Bool) → Step sys (record sys { sender = (set_speed sys.sender wpm ok).1 })
  closes : Step sys (record sys { sender = close sys.sender })
  picks : sys.phase ≡ idle → Step sys (record sys { phase = pick sys.sender })
  asks :
      (c : Chunk) (x : ℕ) (r : Room)
      → sys.phase ≡ pacing c x
      → Step sys (at_phase sys (room sys.sender c x r))
  wakes :
      (c : Chunk) (x : ℕ) → sys.phase ≡ polling c x → Step sys (record sys { phase = pacing c x })
  drains :
      (c : Chunk) (x now : ℕ)
      → sys.phase ≡ draining c x
      → Step sys (at_phase sys (drain sys.sender c x now))
  interrupts :
      (c : Chunk) (x : ℕ)
      → (sys.phase ≡ polling c x) ⊎ (sys.phase ≡ draining c x)
      → is_done x sys.sender.cancelled ≡ true
      → Step sys (record sys { phase = idle })
  takes : (c : Chunk) (x : ℕ) → sys.phase ≡ ready c x → Step sys (take_head sys c x)
  hands : (c : Chunk) (x : ℕ) → sys.phase ≡ holding c x → Step sys (hand_over sys c x)
  sends :
      (c : Chunk) (x now : ℕ)
      → sys.phase ≡ transmitting c x
      → Step sys (record sys { sender = sent_ok sys.sender c now; phase = idle })
  breaks :
      (c : Chunk) (x : ℕ) (canceled : Bool)
      → sys.phase ≡ transmitting c x
      → Step sys (record sys { sender = sent_error sys.sender x canceled; phase = idle })

-- What can be reached from a system in any number of steps.
pub data Run {ℓ} {E : Type ℓ} (from : System E) : System E → Type ℓ where
  here : Run from from
  then_step : {mid to : System E} → Run from mid → Step mid to → Run from to
