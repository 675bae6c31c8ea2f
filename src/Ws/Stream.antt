-- ===== src/Ws/Stream.antt =====
-- A connection as the sequence of what happens to its client: an event is offered, a subscribe message
-- arrives, the writer takes its turn, the connection ends (`dispatch`, `handle`, `writeLoop` and `stop`
-- of internal/ws). What a turn writes is a batch, with the clock of the turn.
pub mod Ordered
pub mod Numbers
pub mod Fresh
pub mod Bounded
pub mod Rising
pub mod Spaced
pub mod Pacing
pub mod Limited
pub mod Reader
pub mod Telling
pub mod Follows
pub mod Account
pub mod Flushed
pub mod Settled
pub mod Lossless
pub mod Timed
pub mod Waking
pub mod Attended
use remoses.Prelude.{ℕ, String, false, Option, List, [], ◌∷◌, ◌++◌}
use remoses.Radio.{State}
use remoses.Ws.{Event, Message}
use remoses.Ws.Client.{stop, Client, enqueue, set_radios}
use remoses.Ws.Drain.{drain}

pub data Happening {ℓ} (F : Type ℓ) : Type ℓ where
  offered : Event F → Happening F
  resubscribed : List String → Happening F
  wrote : ℕ → (String → Option (State F)) → Happening F
  stopped : Happening F

pub record Batch {ℓ} (F : Type ℓ) : Type ℓ where
  pub clock : ℕ
  pub frames : List (Message F)

module _ {ℓ} {F : Type ℓ} where
  unfoldable pub happen : Happening F → Client F → Client F
  happen (offered ev) c = enqueue ev c
  happen (resubscribed resolved) c = set_radios resolved c
  happen (wrote now states) c = (drain now states (record c { woken = false })).client
  happen stopped c = stop c

  unfoldable pub written_by : Happening F → Client F → List (Batch F)
  written_by (offered ev) c = []
  written_by (resubscribed resolved) c = []
  written_by (wrote now states) c =
      record { clock = now; frames = (drain now states (record c { woken = false })).out } ∷ []
  written_by stopped c = []

  unfoldable pub run : List (Happening F) → Client F → Client F
  run [] c = c
  run (a ∷ hs) c = run hs (happen a c)

  unfoldable pub batches : List (Happening F) → Client F → List (Batch F)
  batches [] c = []
  batches (a ∷ hs) c = written_by a c ++ batches hs (happen a c)
