-- ===== src/Ws/Hub.antt =====
-- The hub (internal/ws/hub.go): the fan-out, who is let in, and which radios a connection gets. The
-- clients have numbers for their addresses. The sessions of the manager are the list of their ids. The
-- functions of Go's package strings are parameters.
pub mod Admission
use text.Mathlib.Text.{◌==◌ as str_eq}
use remoses.Prelude.{
  ℕ, String, Bool, true, false, Option, none, some, List, [], ◌∷◌, ◌==◌, if◌then◌else◌, length,
}
use remoses.Prelude.Int.{ℤ, pos, positive_or}
use remoses.Prelude.Sets.{add_to, retain}
use remoses.Access.Ticket.{ticket_ttl, Store, new_ticket_store, redeem}
use remoses.Rig.Events.Accounts.{after}
use remoses.Ws.{Event}
use remoses.Ws.Client.{stop, Client, new_client, enqueue, set_radios}

abbrev pub default_min_interval : ℕ
default_min_interval = 50_000_000

abbrev pub default_send_queue : ℕ
default_send_queue = 256

-- What the hub answers to a request for the stream.
pub data Answer : Type 0 where
  unauthorized unavailable : Answer
  upgrade : String → List String → Answer

pub record ClientMessage : Type 0 where
  pub type : String
  pub radios : List String

pub record Hub {ℓ} (F : Type ℓ) : Type ℓ where
  pub min_interval : ℕ
  pub queue_cap : ℕ
  pub tickets : Store
  pub clients : List (ℕ × Client F)
  pub closed : Bool

module _ {ℓ} {F : Type ℓ} where
  unfoldable pub new_hub : ℤ → ℤ → Hub F
  new_hub min_interval send_queue = record {
    min_interval = positive_or default_min_interval min_interval;
    queue_cap = positive_or default_send_queue send_queue;
    tickets = new_ticket_store (pos ticket_ttl);
    clients = [];
    closed = false;
  }

  unfoldable pub offer_all : Event F → List (ℕ × Client F) → List (ℕ × Client F)
  offer_all ev [] = []
  offer_all ev (entry ∷ cs) = (entry.0, enqueue ev entry.1) ∷ offer_all ev cs

  unfoldable pub dispatch : Event F → Hub F → Hub F
  dispatch ev h = record h { clients = offer_all ev h.clients }

  unfoldable pub stop_all : List (ℕ × Client F) → List (ℕ × Client F)
  stop_all [] = []
  stop_all (entry ∷ cs) = (entry.0, stop entry.1) ∷ stop_all cs

  unfoldable pub close : Hub F → Hub F
  close h = if h.closed then h else record h { closed = true; clients = stop_all h.clients }

  -- `add`, with whether the client was taken.
  unfoldable pub add : ℕ → Client F → Hub F → Bool × Hub F
  add key c h = if h.closed then (false, h) else (true, record h { clients = (key, c) ∷ h.clients })

  unfoldable pub without_client : ℕ → List (ℕ × Client F) → List (ℕ × Client F)
  without_client key [] = []
  without_client key (entry ∷ cs) =
      let rest = without_client key cs in if entry.0 == key then rest else entry ∷ rest

  unfoldable pub remove_client : ℕ → Hub F → Hub F
  remove_client key h = record h { clients = without_client key h.clients }

  -- `serve`, up to `run`: a new client with the answer's radios.
  unfoldable pub serve : ℕ → List String → Hub F → Bool × Hub F
  serve key radios h = add key (new_client h.min_interval h.queue_cap radios) h

  unfoldable pub client_count : Hub F → ℕ
  client_count h = length h.clients

-- `split` is `strings.Split` at commas, and `trim_space` is `strings.TrimSpace`.
module _ (split : String → List String) (trim_space : String → String) where
  -- The loop over the parts of a filter.
  unfoldable pub wanted : List String → List String
  wanted [] = []
  wanted (part ∷ parts) =
      let rest = wanted parts in
      if str_eq (trim_space part) "" then rest else add_to (trim_space part) rest

  unfoldable pub resolve_radios : List String → String → List String
  resolve_radios sessions filter =
      if str_eq (trim_space filter) "" then sessions else retain (wanted (split filter)) sessions

  -- `handle`: `none` is a message that is no JSON of the form; `join` is `strings.Join` with a comma.
  unfoldable pub handle {ℓ} :
      {F : Type ℓ}
      → (List String → String)
      → List String
      → Option ClientMessage
      → Client F
      → Client F
  handle join sessions none c = c
  handle join sessions (some m) c =
      if str_eq m.type "subscribe"
      then set_radios (resolve_radios sessions (join m.radios)) c
      else c

  -- Who asks: the user that the middleware has found, or the one of the ticket.
  unfoldable pub identify {ℓ} :
      {F : Type ℓ} → Option String → String → ℕ → Hub F → Option String × Hub F
  identify (some user) ticket now h = (some user, h)
  identify none ticket now h =
      let (user, tickets) = redeem h.tickets ticket now in (user, record h { tickets = tickets })

  -- `Handler`, up to the upgrade.
  unfoldable pub answer_to : List String → String → Option String → Bool → Answer
  answer_to sessions filter none closed = unauthorized
  answer_to sessions filter (some user) closed =
      if closed then unavailable else upgrade user (resolve_radios sessions filter)

  unfoldable pub handler {ℓ} :
      {F : Type ℓ} → List String → Option String → String → String → ℕ → Hub F → Answer × Hub F
  handler sessions context_user ticket filter now h =
      let (user, after) = identify context_user ticket now h in
      (answer_to sessions filter user after.closed, after)
