-- ===== src/Rig/Events.antt =====
-- The fan-out of events to subscribers (internal/rig/event.go). A subscriber's channel is a queue of
-- at most `size` events; `A` is what an event carries besides its `Dropped` count. The set is a list,
-- since a publication does the same to every member.
pub mod Accounts
use remoses.Prelude.{
  ℕ, ◌+◌, ◌%◌, ◌^◌, Bool, true, false, Option, none, some, List, [], ◌∷◌, ◌++◌, ltb, if◌then◌else◌,
  length,
}
use remoses.Prelude.Int.{ℤ, positive_or}

abbrev pub default_queue : ℕ
default_queue = 64

pub record Event {ℓ} (A : Type ℓ) : Type ℓ where
  pub content : A
  pub dropped : ℕ

pub record Subscriber {ℓ} (A : Type ℓ) : Type ℓ where
  pub queue : List (Event A)
  pub dropped : ℕ
  pub closed : Bool

-- `newSubscribers`: the size of each queue.
unfoldable pub queue_size : ℤ → ℕ
queue_size size = positive_or default_queue size

module _ {ℓ} {A : Type ℓ} where
  abbrev pub new_subscriber : Subscriber A
  new_subscriber = record { queue = []; dropped = 0; closed = false }

  -- One turn of the loop of `publish`.
  unfoldable pub offer : ℕ → A → Subscriber A → Subscriber A
  offer size content sub =
      if sub.closed
      then sub
      else if ltb (length sub.queue) size
      then record sub {
        queue = sub.queue ++ record { content = content; dropped = sub.dropped } ∷ [];
        dropped = 0;
      }
      else record sub { dropped = (sub.dropped + 1) % 2 ^ 64 }

  unfoldable pub publish : ℕ → A → List (Subscriber A) → List (Subscriber A)
  publish size content [] = []
  publish size content (sub ∷ subs) = offer size content sub ∷ publish size content subs

  -- A receive from the channel, with what the channel holds.
  unfoldable pub receive_from : List (Event A) → Subscriber A → Option (Event A) × Subscriber A
  receive_from [] sub = (none, sub)
  receive_from (e ∷ es) sub = (some e, record sub { queue = es })

  unfoldable pub receive : Subscriber A → Option (Event A) × Subscriber A
  receive sub = receive_from sub.queue sub

  unfoldable pub close_subscriber : Subscriber A → Subscriber A
  close_subscriber sub = record sub { closed = true }
