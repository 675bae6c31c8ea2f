-- ===== src/Access/Ticket/Single.antt =====
-- A ticket is good once, for its user, until it expires.
use text.Mathlib.Text.{◌==◌ as str_eq}
use remoses.Prelude.{
  ℕ, ◌<◌, String, ◌≡◌, refl, ◌≢◌, ◌⊎◌, inl, inr, false, none, some, List, [], ◌∷◌, arith, eq_iff,
  ltb, Bool-cases, text_ne, All,
}
use remoses.Access.Ticket.{Ticket, Store, sweep, find_ticket, without, redeem}

-- No ticket has the value.
abbrev pub Fresh : String → List Ticket → Type 0
Fresh value = All (λ t. str_eq t.value value ≡ false)

-- No two tickets have the same value.
abbrev pub Distinct : List Ticket → Type 0
Distinct [] = Unit
Distinct (t ∷ ts) = Fresh t.value ts × Distinct ts

sweep-All : (P : Ticket → Type 0) (now : ℕ) (ts : List Ticket) → All P ts → All P (sweep now ts)
unfolding sweep
sweep-All P now [] h = h
sweep-All P now (t ∷ ts) (p, h) = elim (Bool-cases (ltb now t.expires)) [
  | inl live ↦ rw live (p, sweep-All P now ts h)
  | inr over ↦ rw over (sweep-All P now ts h)
]

sweep-Distinct : (now : ℕ) (ts : List Ticket) → Distinct ts → Distinct (sweep now ts)
unfolding sweep
sweep-Distinct now [] h = h
sweep-Distinct now (t ∷ ts) (fresh, h) = elim (Bool-cases (ltb now t.expires)) [
  | inl live ↦ rw live (sweep-All _ now ts fresh, sweep-Distinct now ts h)
  | inr over ↦ rw over (sweep-Distinct now ts h)
]

without-Fresh :
    (value other : String) (ts : List Ticket) → Fresh other ts → Fresh other (without value ts)
unfolding without
without-Fresh value other [] h = h
without-Fresh value other (t ∷ ts) (ne, h) = elim (Bool-cases (str_eq t.value value)) [
  | inl same ↦ rw same h
  | inr differ ↦ rw differ (ne, without-Fresh value other ts h)
]

-- What `without` leaves has no ticket of the value, if the values were distinct.
without-gone :
    (value : String) (ts : List Ticket)
    → Distinct ts
    → Fresh value (without value ts) × Distinct (without value ts)
unfolding without
without-gone value [] h = (tt, tt)
without-gone value (t ∷ ts) (fresh, h) = elim (Bool-cases (str_eq t.value value)) [
  | inl same ↦ rw same (rw ((eq_iff t.value value).0 same) at fresh, h)
  | inr differ ↦
      let (gone, rest) = without-gone value ts h in
      rw differ ((differ, gone), (without-Fresh value t.value ts fresh, rest))
]

find_ticket-Fresh :
    (value : String) (ts : List Ticket) → Fresh value ts → find_ticket value ts ≡ none
unfolding find_ticket
find_ticket-Fresh value [] h = refl
find_ticket-Fresh value (t ∷ ts) (ne, h) = rw ne (find_ticket-Fresh value ts h)

-- Single use: whatever came of redeeming a value, no later attempt with it succeeds, as long as it is
-- not issued again.
pub redeem-redeem :
    (s : Store) (value : String) (now later : ℕ)
    → Distinct s.tickets
    → (redeem (redeem s value now).1 value later).0 ≡ none
unfolding redeem
redeem-redeem s value now later distinct = elim (Bool-cases (str_eq value "")) [
  | inl blank ↦ rw blank refl
  | inr given ↦
      let (gone, rest) =
        without-gone value (sweep now s.tickets) (sweep-Distinct now s.tickets distinct) in
      rw given (find_ticket-Fresh value _ (sweep-All _ later _ gone))
]

-- A live ticket of the value for the user.
abbrev pub Live : ℕ → String → String → List Ticket → Type 0
Live now value user [] = ⊥
Live now value user (t ∷ ts) =
    ((t.value ≡ value) × (t.user ≡ user) × (now < t.expires)) ⊎ Live now value user ts

find_ticket-Live :
    (now : ℕ) (value user : String) (ts : List Ticket)
    → find_ticket value (sweep now ts) ≡ some user
    → Live now value user ts
unfolding find_ticket sweep
find_ticket-Live now value user [] h = absurd (cc h)
find_ticket-Live now value user (t ∷ ts) h = elim (Bool-cases (ltb now t.expires)) [
  | inr over ↦ inr (find_ticket-Live now value user ts (rw over at h))
  | inl live ↦ elim (Bool-cases (str_eq t.value value)) [
    | inl same ↦
        let found = rw same at (rw live at h) in
        inl ((eq_iff t.value value).0 same, cc found, ground arith)
    | inr differ ↦ inr (find_ticket-Live now value user ts (rw differ at (rw live at h)))
  ]
]

-- Redeem answers only with the user of a ticket of the store that has the value, which is not empty,
-- and has not expired.
pub redeem-Live :
    (s : Store) (value user : String) (now : ℕ)
    → (redeem s value now).0 ≡ some user
    → (value ≢ "") × Live now value user s.tickets
unfolding redeem
redeem-Live s value user now h = elim (Bool-cases (str_eq value "")) [
  | inl blank ↦ absurd (ground arith)
  | inr given ↦ (text_ne value "" given, find_ticket-Live now value user s.tickets (rw given at h))
]
