-- ===== src/Access/Ticket.antt =====
-- The ticket store (internal/ws/ticket.go). Times are in nanoseconds. The random value of a ticket is
-- an argument, `none` where the random source fails; the clock is an argument too.
pub mod Single
use text.Mathlib.Text.{◌==◌ as str_eq}
use remoses.Prelude.{
  ℕ, ◌+◌, String, Option, none, some, List, [], ◌∷◌, ◌++◌, ltb, leb, if◌then◌else◌, length, drop,
}
use remoses.Prelude.Int.{ℤ, positive_or}

abbrev pub ticket_ttl : ℕ
ticket_ttl = 30_000_000_000

abbrev pub max_tickets : ℕ
max_tickets = 1024

pub record Ticket : Type 0 where
  pub value : String
  pub user : String
  pub expires : ℕ

pub record Store : Type 0 where
  pub ttl : ℕ
  pub tickets : List Ticket

unfoldable pub new_ticket_store : ℤ → Store
new_ticket_store ttl = record { ttl = positive_or ticket_ttl ttl; tickets = [] }

-- `sweepLocked` on the tickets.
unfoldable pub sweep : ℕ → List Ticket → List Ticket
sweep now [] = []
sweep now (t ∷ ts) = let rest = sweep now ts in if ltb now t.expires then t ∷ rest else rest

-- Room for one more: the oldest goes when the store is full.
unfoldable pub room_for_one : List Ticket → List Ticket
room_for_one ts = if leb max_tickets (length ts) then drop 1 ts else ts

abbrev pub minted : Store → String → ℕ → String → Ticket
minted s user now value = record { value = value; user = user; expires = now + s.ttl }

unfoldable pub issue : Store → String → ℕ → Option String → Option Ticket × Store
issue s user now none = (none, s)
issue s user now (some value) = (
  some (minted s user now value),
  record s { tickets = room_for_one (sweep now s.tickets) ++ minted s user now value ∷ [] },
)

-- The loop of `redeem`: the user of the first ticket with the value.
unfoldable pub find_ticket : String → List Ticket → Option String
find_ticket value [] = none
find_ticket value (t ∷ ts) = if str_eq t.value value then some t.user else find_ticket value ts

-- The tickets without the first one of the value.
unfoldable pub without : String → List Ticket → List Ticket
without value [] = []
without value (t ∷ ts) =
    let rest = without value ts in if str_eq t.value value then ts else t ∷ rest

unfoldable pub redeem : Store → String → ℕ → Option String × Store
redeem s value now = if str_eq value "" then (none, s) else (
  find_ticket value (sweep now s.tickets),
  record s { tickets = without value (sweep now s.tickets) },
)

unfoldable pub count : Store → ℕ
count s = length s.tickets
