-- ===== src/Rig/Conn.antt =====
-- The pending requests of one connection (internal/rig/conn.go). A waiter's channel of capacity one is
-- an entry of `mailbox` under the waiter's number, which stands for its address. `E` is the type of
-- the errors and `A` what an update carries besides its key and its acknowledgement.
pub mod Matching
use text.Mathlib.Text.{◌==◌ as str_eq}
use remoses.Prelude.{
  ℕ, ◌+◌, String, Bool, true, false, ◌||◌, Option, none, some, List, [], ◌∷◌, ◌++◌, ◌==◌,
  if◌then◌else◌,
}

pub record Update {ℓ} (A : Type ℓ) : Type ℓ where
  pub key : String
  pub ok : Bool
  pub content : A

pub record Waiter : Type 0 where
  pub number : ℕ
  pub keys : List String

-- `closes` counts the calls of the transport's Close.
pub record Conn {ℓ κ} (A : Type ℓ) (E : Type κ) : Type (ℓ ⊔ κ) where
  pub waiters : List Waiter
  pub mailbox : List (ℕ × Update A)
  pub err : Option E
  pub closing : Bool
  pub closes : ℕ

unfoldable pub wants : List String → String → Bool
wants [] k = false
wants (want ∷ keys) k = str_eq want k || wants keys k

-- The first waiter that wants the key, and the table without it.
unfoldable pub oldest : String → List Waiter → Option Waiter
oldest k [] = none
oldest k (w ∷ ws) = if wants w.keys k then some w else oldest k ws

unfoldable pub remove_oldest : String → List Waiter → List Waiter
remove_oldest k [] = []
remove_oldest k (w ∷ ws) = let rest = remove_oldest k ws in if wants w.keys k then ws else w ∷ rest

-- The update in a waiter's channel.
unfoldable pub received {ℓ} : {A : Type ℓ} → ℕ → List (ℕ × Update A) → Option (Update A)
received n [] = none
received n (m ∷ ms) = if m.0 == n then some m.1 else received n ms

-- The select on `w.ch`: a full channel drops the update.
unfoldable pub deposit {ℓ} :
    {A : Type ℓ} → Option (Update A) → ℕ → Update A → List (ℕ × Update A) → List (ℕ × Update A)
deposit none n up box = (n, up) ∷ box
deposit (some old) n up box = box

unfoldable pub post {ℓ} :
    {A : Type ℓ} → Option Waiter → Update A → List (ℕ × Update A) → List (ℕ × Update A)
post none up box = box
post (some w) up box = deposit (received w.number box) w.number up box

unfoldable pub without_waiter : ℕ → List Waiter → List Waiter
without_waiter n [] = []
without_waiter n (w ∷ ws) = let rest = without_waiter n ws in if w.number == n then ws else w ∷ rest

-- The first error stays.
abbrev pub first_error {κ} : {E : Type κ} → Option E → Option E → Option E
first_error (some e) new = some e
first_error none new = new

abbrev pub error_or {κ} : {E : Type κ} → E → Option E → E
error_or d none = d
error_or d (some e) = e

-- How the wait of `Do` ends: a reply, the context's error, the timer, the reader's exit.
pub data Wake {κ} (E : Type κ) : Type κ where
  replied : Wake E
  canceled : E → Wake E
  timed_out : Wake E
  reader_exited : Wake E

pub data Outcome {ℓ κ} (A : Type ℓ) (E : Type κ) : Type (ℓ ⊔ κ) where
  answered : Update A → Outcome A E
  rejected : Update A → Outcome A E
  failed : E → Outcome A E
  timeout no_keys : Outcome A E
  blocked : Outcome A E

module _ {ℓ κ} {A : Type ℓ} {E : Type κ} where
  unfoldable pub deliver : Conn A E → Update A → Conn A E
  deliver c up = record c {
    waiters = remove_oldest up.key c.waiters;
    mailbox = post (oldest up.key c.waiters) up c.mailbox;
  }

  unfoldable pub fail : Conn A E → Option E → Conn A E
  fail c err = record c {
    err = first_error c.err err;
    closing = true;
    closes = if c.closing then c.closes else c.closes + 1;
  }

  unfoldable pub wake_waiters : Conn A E → Conn A E
  wake_waiters c = record c { waiters = [] }

  unfoldable pub unregister : Conn A E → ℕ → Conn A E
  unregister c n = record c { waiters = without_waiter n c.waiters }

  unfoldable pub check_update : Update A → Outcome A E
  check_update up = if up.ok then answered up else rejected up

-- `disconnected` is `transport.ErrDisconnected`.
module _ {ℓ κ} {A : Type ℓ} {E : Type κ} (disconnected : E) where
  unfoldable pub last_err : Conn A E → E
  last_err c = error_or disconnected c.err

  unfoldable pub register : Conn A E → Waiter → Option E × Conn A E
  register c w =
      if c.closing
      then (some (error_or disconnected c.err), c)
      else (none, record c { waiters = c.waiters ++ w ∷ [] })

  -- A reply that is there is used, and otherwise the fallback.
  abbrev pub reply_or : Outcome A E → Option (Update A) → Outcome A E
  reply_or other none = other
  reply_or other (some up) = check_update up

  -- The select of `Do` behind the write, for a waiter's number. `blocked` is a wait that goes on: the
  -- channel is empty.
  unfoldable pub outcome : Conn A E → ℕ → Wake E → Outcome A E
  outcome c n replied = reply_or blocked (received n c.mailbox)
  outcome c n (canceled e) = failed e
  outcome c n timed_out = timeout
  outcome c n reader_exited = reply_or (failed (last_err c)) (received n c.mailbox)

  -- `writeLocked`; `written` is the error of the transport's Write.
  unfoldable pub write_locked : Conn A E → Option E → Option E × Conn A E
  write_locked c written =
      if c.closing
      then (some (error_or disconnected c.err), c)
      else (elim written [ none ↦ (none, c) | some e ↦ (some e, fail c (some e)) ])
