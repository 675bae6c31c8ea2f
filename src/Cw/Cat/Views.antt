-- ===== src/Cw/Cat/Views.antt =====
-- Properties of what the sender queued and handed over that every step keeps.
use mathlib.Core.Path.{subst}
use remoses.Prelude.{
  ℕ, ◌+◌, ◌^◌, ◌<◌, ◌≡◌, refl, inl, inr, Bool, true, false, not, ◌||◌, Option, none, some, List, [],
  ◌∷◌, ◌++◌, arith, leb, ◌==◌, if◌then◌else◌, Bool-cases, Bytes, length, drop,
}
use remoses.Cw.Cat.{
  close, enqueue, Mode, append, replace, Sender, numbered, last_id, prune, is_done, kept, accept,
  abort, prune_locked, status, set_speed, fail, record_sent,
}
use remoses.Cw.Cat.Loop.{
  System, Step, drain, Phase, idle, pacing, polling, draining, ready, holding, transmitting, Room,
  room_error, room_unknown, room_free, Call, pick_head, is_head, drain_until, pick, after_error,
  room, take_head, hand_over, at_phase, sent_ok, sent_error, enqueues, refuses, aborts, reports,
  sets_speed, closes, picks, asks, wakes, drains, interrupts, takes, hands, sends, breaks, Run,
  here, then_step,
}
use remoses.Cw.Chunk.{Chunk}

-- What the properties speak of: the queue, the counter, the chunk with its context that is off the queue
-- and not yet handed over, the calls of `SendChunk`, the context, and those that were cancelled.
pub record View : Type 0 where
  pub queue : List Chunk
  pub next_id : ℕ
  pub held : Option (Chunk × ℕ)
  pub calls : List Call
  pub ctx : ℕ
  pub cancelled : List ℕ

abbrev pub held_at : Phase → Option (Chunk × ℕ)
held_at (holding c x) = some (c, x)
held_at _ = none

abbrev pub view_at {ℓ} : {E : Type ℓ} → Sender E → Phase → List Call → View
view_at s ph calls = record {
  queue = s.queue;
  next_id = s.next_id;
  held = held_at ph;
  calls = calls;
  ctx = s.ctx;
  cancelled = s.cancelled;
}

abbrev pub view {ℓ} : {E : Type ℓ} → System E → View
view sys = view_at sys.sender sys.phase sys.calls

-- A property that nothing the sender does to these breaks.
pub record Stable {ℓ} (P : View → Type ℓ) : Type ℓ where
  pub drops : (v : View) → P v → P (record v { queue = [] })
  pub extends :
      (v : View) (cs : List Chunk)
      → v.next_id + length cs < 2 ^ 64
      → P v
      → P (record v { queue = v.queue ++ numbered v.next_id cs; next_id = last_id v.next_id cs })
  pub takes_head :
      (v : View) (c : Chunk) (x : ℕ)
      → is_head c v.queue ≡ true
      → (v.ctx == x) ≡ true
      → v.held ≡ none
      → P v
      → P (record v { queue = drop 1 v.queue; held = some (c, x) })
  pub hands_over :
      (v : View) (c : Chunk) (x : ℕ)
      → v.held ≡ some (c, x)
      → P v
      → P (record v {
        held = none;
        calls = record { chunk = c; live = not (is_done x v.cancelled) } ∷ v.calls;
      })
  pub cancels :
      (v : View) (next : ℕ) → P v → P (record v { ctx = next; cancelled = v.ctx ∷ v.cancelled })

module _ {ℓ κ} {E : Type κ} {P : View → Type ℓ} (stable : Stable P) where
  abbrev Holds : System E → Type ℓ
  Holds sys = P (view sys)

  At : Sender E → Phase → List Call → Type ℓ
  At s ph calls = P (view_at s ph calls)

  kept-At :
      (mode : Mode) (s : Sender E) (ph : Phase) (calls : List Call)
      → At s ph calls
      → At (record s { queue = kept mode s.queue }) ph calls
  unfolding At
  kept-At append s ph calls h = h
  kept-At replace s ph calls h = stable.drops (view_at s ph calls) h

  accept-At :
      (s : Sender E) (ph : Phase) (calls : List Call) (text : Bytes) (mode : Mode)
      (chunks : List Chunk)
      → s.next_id + length chunks < 2 ^ 64
      → At s ph calls
      → At (accept s text mode (inl chunks)).1 ph calls
  unfolding At accept
  accept-At s ph calls text mode chunks fits h = elim (Bool-cases s.closed) [
    | inl shut ↦ rw shut h
    | inr live ↦ rw live (
        stable.extends (view_at (record s { queue = kept mode s.queue }) ph calls) chunks fits
          (kept-At mode s ph calls h))
  ]

  after_error-At :
      (s : Sender E) (ph : Phase) (calls : List Call) (x : ℕ) (canceled : Bool)
      → At s ph calls
      → At (after_error s x canceled) ph calls
  unfolding At after_error fail
  after_error-At s ph calls x canceled h = elim (Bool-cases (is_done x s.cancelled || canceled)) [
    | inl stopped ↦ rw stopped h
    | inr broken ↦ rw broken (stable.drops (view_at s ph calls) h)
  ]

  room-At :
      (sys : System E) (c : Chunk) (x : ℕ) (r : Room)
      → At sys.sender (pacing c x) sys.calls
      → Holds (at_phase sys (room sys.sender c x r))
  unfolding At room
  room-At sys c x (room_error canceled) h =
      after_error-At sys.sender (pacing c x) sys.calls x canceled h
  room-At sys c x room_unknown h = h
  room-At sys c x (room_free n) h = elim (Bool-cases (leb (length c.encoded) n)) [
    | inl fits ↦ rw fits h
    | inr full ↦ rw full h
  ]

  drain-At :
      (sys : System E) (c : Chunk) (x now : ℕ)
      → At sys.sender (draining c x) sys.calls
      → Holds (at_phase sys (drain sys.sender c x now))
  unfolding At drain prune_locked
  drain-At sys c x now h =
      elim (Bool-cases
        (drain_until sys.sender.chunks_in_flight (prune now sys.sender.inflight) == 0)) [
          | inl low ↦ rw low h
          | inr high ↦ rw high h
        ]

  pick-At : (s : Sender E) (calls : List Call) → At s idle calls → At s (pick s) calls
  unfolding At pick pick_head
  pick-At s calls h = elim (Bool-cases s.closed) [
    | inl shut ↦ rw shut h
    | inr live ↦ rw live (picked s.queue)
  ]
    where
      picked : (q : List Chunk) → P (view_at s (pick_head s.ctx q) calls)
      picked [] = h
      picked (c ∷ cs) = h

  take_head-At :
      (sys : System E) (c : Chunk) (x : ℕ)
      → At sys.sender (ready c x) sys.calls
      → Holds (take_head sys c x)
  unfolding At take_head
  take_head-At sys c x h =
      elim (Bool-cases
        (sys.sender.closed || not (sys.sender.ctx == x) || not (is_head c sys.sender.queue))) [
          | inl moved ↦ rw moved h
          | inr same ↦ rw same (
              stable.takes_head (view_at sys.sender (ready c x) sys.calls) c x (ground arith)
                (ground arith) refl h)
        ]

  -- What holds of a system whose place in the loop is known.
  placed : (sys : System E) (ph : Phase) → sys.phase ≡ ph → Holds sys → At sys.sender ph sys.calls
  unfolding At
  placed sys ph e h = subst (λ u. P (view_at sys.sender u sys.calls)) e h

  abort-Holds : (sys : System E) → Holds sys → Holds (record sys { sender = abort sys.sender })
  unfolding abort
  abort-Holds sys h =
      stable.cancels (record (view sys) { queue = [] })
        (if sys.sender.closed then sys.sender.ctx else sys.sender.ctx + 1)
        (stable.drops (view sys) h)

  close-Holds : (sys : System E) → Holds sys → Holds (record sys { sender = close sys.sender })
  unfolding close
  close-Holds sys h = elim (Bool-cases sys.sender.closed) [
    | inl shut ↦ rw shut h
    | inr live ↦ rw live (
        stable.cancels (record (view sys) { queue = [] }) sys.sender.ctx
          (stable.drops (view sys) h))
  ]

  Step-Holds : (sys to : System E) → Step sys to → Holds sys → Holds to
  unfolding At enqueue status prune_locked set_speed hand_over sent_ok sent_error record_sent
  Step-Holds sys to (enqueues text mode chunks e fits) h =
      rw e (accept-At sys.sender sys.phase sys.calls text mode chunks fits h)
  Step-Holds sys to (refuses text mode x e) h = rw e (unfold accept in h)
  Step-Holds sys to aborts h = abort-Holds sys h
  Step-Holds sys to (reports now) h = h
  Step-Holds sys to (sets_speed wpm true) h = h
  Step-Holds sys to (sets_speed wpm false) h = h
  Step-Holds sys to closes h = close-Holds sys h
  Step-Holds sys to (picks p) h = pick-At sys.sender sys.calls (placed sys idle p h)
  Step-Holds sys to (asks c x r p) h = room-At sys c x r (placed sys (pacing c x) p h)
  Step-Holds sys to (wakes c x p) h = placed sys (polling c x) p h
  Step-Holds sys to (drains c x now p) h = drain-At sys c x now (placed sys (draining c x) p h)
  Step-Holds sys to (interrupts c x (inl p) done) h = placed sys (polling c x) p h
  Step-Holds sys to (interrupts c x (inr p) done) h = placed sys (draining c x) p h
  Step-Holds sys to (takes c x p) h = take_head-At sys c x (placed sys (ready c x) p h)
  Step-Holds sys to (hands c x p) h =
      stable.hands_over (view_at sys.sender (holding c x) sys.calls) c x refl
        (placed sys (holding c x) p h)
  Step-Holds sys to (sends c x now p) h = placed sys (transmitting c x) p h
  Step-Holds sys to (breaks c x canceled p) h =
      after_error-At (record sys.sender { sending = false }) idle sys.calls x canceled
        (placed sys (transmitting c x) p h)

  pub Run-Holds : (from to : System E) → Run from to → Holds from → Holds to
  Run-Holds from to here h = h
  Run-Holds from to (then_step {mid} run step) h = Step-Holds mid to step (Run-Holds from mid run h)
