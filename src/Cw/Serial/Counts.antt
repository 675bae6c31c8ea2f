-- ===== src/Cw/Serial/Counts.antt =====
-- A step counts the generation up by one at most, and a sender that is closed stays closed.
use remoses.Prelude.{
  ℕ, ◌+◌, ◌^◌, ◌≤◌, ◌<◌, ◌≡◌, Bool, true, not, ◌||◌, List, [], ◌∷◌, arith, ◌==◌, if-elim,
}
use remoses.Cw.Cat.Loop.{room}
use remoses.Cw.Serial.{
  Line, line_none, same_line, SerialSender, write_line, drop_lines, abort_locked, assert_line,
}
use remoses.Cw.Serial.Keyer.{
  finished, idle, Transmission, Position, parked, starting, composing, choosing, looking, resting,
  resuming, dropping, before, raising, holding, lifting, breaking, ending, Choice, woken, fired,
  aborted, Answer, Keyer, is_shut, take_signal, try_line, start_transmission, take_symbol, rest_on,
  finish, advance,
}
use remoses.Morse.Parse.{Symbol}
use remoses.Morse.Timing.{Timing}

abbrev pub Counted : SerialSender → SerialSender → Type 0
Counted s t = (s.gen ≤ t.gen) × (t.gen ≤ s.gen + 1) × (s.closed ≡ true → t.closed ≡ true)

pub Counted-refl : (s : SerialSender) → Counted s s
Counted-refl s = (omega arith, omega arith, λ closed. closed)

pub abort_locked-Counted : (s : SerialSender) → s.gen + 1 < 2 ^ 64 → Counted s (abort_locked s)
unfolding abort_locked drop_lines write_line
abort_locked-Counted s room = (omega arith, omega arith, λ closed. closed)

take_signal-Counted :
    (behind stay : Position) (c : ℕ) (s : SerialSender) (choice : Choice)
    → Counted s (take_signal behind stay c s choice).sender
unfolding take_signal
take_signal-Counted behind stay c s fired = Counted-refl s
take_signal-Counted behind stay c s woken =
    if-elim (λ (k : Keyer). Counted s k.sender) s.wake _ _ (λ ready. Counted-refl s)
      (λ empty. Counted-refl s)
take_signal-Counted behind stay c s aborted =
    if-elim (λ (k : Keyer). Counted s k.sender) (is_shut s c) _ _ (λ shut. Counted-refl s)
      (λ still. Counted-refl s)

try_line-Counted :
    (s : SerialSender) (gen : ℕ) (l : Line) (accepted : Bool) (behind : Position)
    → s.gen + 1 < 2 ^ 64
    → Counted s (try_line s gen l accepted behind).sender
unfolding try_line assert_line write_line
try_line-Counted s gen l accepted behind room =
    let P = λ (r : Bool × SerialSender). Counted s r.1 in
    if-elim P (not (s.gen == gen) || s.closed) _ _ (λ stale. Counted-refl s)
      (λ current.
        if-elim P accepted _ _ (λ taken. Counted-refl s)
          (λ refused. abort_locked-Counted (write_line s l true) room))

start_transmission-Counted :
    (gen c : ℕ) (s : SerialSender) (a : Answer)
    → s.gen + 1 < 2 ^ 64
    → Counted s (start_transmission gen c s a).sender
unfolding start_transmission
start_transmission-Counted gen c s a room =
    if-elim (λ (k : Keyer). Counted s k.sender) (same_line s.ptt_line line_none) _ _
      (λ without. Counted-refl s) (λ with_ptt. try_line-Counted s gen s.ptt_line a.accepted _ room)

take_symbol-Counted :
    (m : Transmission) (t : Timing) (s : SerialSender) (l : List Symbol)
    → Counted s (take_symbol m t s l).sender
unfolding take_symbol
take_symbol-Counted m t s [] = Counted-refl s
take_symbol-Counted m t s (head ∷ rest) = Counted-refl s

rest_on-Counted :
    (m : Transmission) (t : Timing) (deadline : ℕ) (s : SerialSender) (a : Answer) (choice : Choice)
    → Counted s (rest_on m t deadline s a choice).sender
unfolding rest_on
rest_on-Counted m t deadline s a fired = Counted-refl s
rest_on-Counted m t deadline s a woken = take_signal-Counted _ _ m.abort s woken
rest_on-Counted m t deadline s a aborted = take_signal-Counted _ _ m.abort s aborted

pub advance-Counted :
    (p : Position) (s : SerialSender) (a : Answer)
    → s.gen + 1 < 2 ^ 64
    → Counted s (advance p s a).sender
unfolding advance write_line finish
advance-Counted idle s a room = Counted-refl s
advance-Counted (parked c) s a room = take_signal-Counted idle (parked c) c s a.choice
advance-Counted finished s a room = Counted-refl s
advance-Counted (starting gen c) s a room = start_transmission-Counted gen c s a room
advance-Counted (composing m) s a room = Counted-refl s
advance-Counted (choosing m t) s a room =
    if-elim (λ (k : Keyer). Counted s k.sender) (not (s.gen == m.gen) || s.closed) _ _
      (λ stale. Counted-refl s) (λ current. take_symbol-Counted m t s s.queue)
advance-Counted (looking m t deadline) s a room = Counted-refl s
advance-Counted (resting m t deadline) s a room = rest_on-Counted m t deadline s a a.choice
advance-Counted (resuming m t) s a room = Counted-refl s
advance-Counted (dropping m) s a room = Counted-refl s
advance-Counted (before m t e es) s a room = Counted-refl s
advance-Counted (raising m t e es) s a room = try_line-Counted s m.gen s.key_line a.accepted _ room
advance-Counted (holding m t es) s a room = Counted-refl s
advance-Counted (lifting m t es) s a room = Counted-refl s
advance-Counted (breaking m) s a room = Counted-refl s
advance-Counted (ending gen) s a room =
    if-elim (Counted s) (s.gen == gen) _ _ (λ own. Counted-refl s) (λ other. Counted-refl s)
