-- ===== src/Cw/Serial/Keyer.antt =====
-- The keyer's goroutine (`run` and `transmit` of internal/cw/serialkey.go). A position says where it
-- stands between two locked regions, with the locals of `transmit` that are still to be read; `advance`
-- takes it through one region or one look at the channels.
use remoses.Prelude.{
  ℕ, ◌+◌, sym, Bool, true, false, not, ◌&&◌, ◌||◌, List, [], ◌∷◌, ltb, leb, ◌==◌, if◌then◌else◌,
}
use remoses.Prelude.Int.{pos}
use remoses.Cw.Serial.{Line, line_none, same_line, SerialSender, write_line, has_work, assert_line}
use remoses.Morse.Parse.{Symbol, chars}
use remoses.Morse.Table.{Element}
use remoses.Morse.Timing.{Timing, new_timing, mark, symbol_time, is_space}

-- The locals of `transmit`, with its arguments.
pub record Transmission : Type 0 where
  pub gen : ℕ
  pub abort : ℕ
  pub start : ℕ
  pub at : ℕ
  pub prev_char : Bool
  pub keyed : Bool

-- Where the keyer stands: in `run` at the head of the loop, parked, or behind it; in `transmit` at its
-- start, at the head of its loop, behind `timing`, in `waitForWork` at the head of its loop and in its
-- `select`, behind `waitForWork`, before a mark and at it, in a mark, at its end, and in the deferred
-- function.
pub data Position : Type 0 where
  idle : Position
  parked : ℕ → Position
  finished : Position
  starting : ℕ → ℕ → Position
  composing : Transmission → Position
  choosing : Transmission → Timing → Position
  looking : Transmission → Timing → ℕ → Position
  resting : Transmission → Timing → ℕ → Position
  resuming : Transmission → Timing → Position
  dropping : Transmission → Position
  before : Transmission → Timing → Element → List Element → Position
  raising : Transmission → Timing → Element → List Element → Position
  holding : Transmission → Timing → List Element → Position
  lifting : Transmission → Timing → List Element → Position
  breaking : Transmission → Position
  ending : ℕ → Position

-- Which of the ready cases of a `select` is taken.
pub data Choice : Type 0 where
  woken fired aborted : Choice

-- What a step reads from outside: the clock, what the port says to a level, and the choice.
pub record Answer : Type 0 where
  pub now : ℕ
  pub accepted : Bool
  pub choice : Choice

pub record Keyer : Type 0 where
  pub position : Position
  pub sender : SerialSender

abbrev pub keyer_at : Position → SerialSender → Keyer
keyer_at p s = record { position = p; sender = s }

-- Whether a channel is closed.
unfoldable pub is_shut : SerialSender → ℕ → Bool
is_shut s c = ltb c s.abort_chan || s.closed

-- The head of the loop of `run`.
unfoldable pub next_job : SerialSender → Position
next_job s =
    if s.closed
    then finished
    else if has_work s
    then starting s.gen s.abort_chan
    else parked s.abort_chan

-- A select on `wake` and a channel, with the position behind it; a case that is not ready is no step.
unfoldable pub take_signal : Position → Position → ℕ → SerialSender → Choice → Keyer
take_signal behind stay c s woken =
    if s.wake then keyer_at behind (record s { wake = false }) else keyer_at stay s
take_signal behind stay c s aborted = if is_shut s c then keyer_at behind s else keyer_at stay s
take_signal behind stay c s fired = keyer_at stay s

-- The locals at the start, `at` behind it.
abbrev pub begun : ℕ → ℕ → ℕ → ℕ → Transmission
begun gen c now at = record {
  gen = gen;
  abort = c;
  start = now;
  at = at;
  prev_char = false;
  keyed = false;
}

-- A line is asserted, with where that goes on if it was.
unfoldable pub try_line : SerialSender → ℕ → Line → Bool → Position → Keyer
try_line s gen l accepted behind =
    let (done, after) = assert_line s gen l accepted in
    keyer_at (if done then behind else ending gen) after

-- The start of `transmit`.
unfoldable pub start_transmission : ℕ → ℕ → SerialSender → Answer → Keyer
start_transmission gen c s a =
    if same_line s.ptt_line line_none
    then keyer_at (composing (begun gen c a.now 0)) s
    else try_line s gen s.ptt_line a.accepted (composing (begun gen c a.now s.lead))

-- The loop over the elements, up to the next wait: a gap before every mark but the first.
unfoldable pub next_mark : Transmission → Timing → Bool → List Element → Position
next_mark m t first [] = composing (record m { prev_char = true; keyed = true })
next_mark m t first (e ∷ es) =
    before (record m { at = m.at + (if first then 0 else t.element_gap) }) t e es

-- `symEnd`
unfoldable pub symbol_end : Transmission → Timing → Symbol → ℕ
symbol_end m t sym =
    m.at + symbol_time t sym + (if m.prev_char && not (is_space sym.kind) then t.char_gap else 0)

-- Where a symbol takes the loop.
unfoldable pub play : Transmission → Timing → Symbol → Position
play m t sym =
    if is_space sym.kind
    then composing (record m { at = m.at + (if m.keyed then t.word_gap else 0); prev_char = false })
    else next_mark (record m { at = m.at + (if m.prev_char then t.char_gap else 0) }) t true
        sym.elements

-- The symbol at the head of the queue, or the wait for more.
unfoldable pub take_symbol : Transmission → Timing → SerialSender → List Symbol → Keyer
take_symbol m t s [] =
    keyer_at (looking m t (m.start + (m.at + s.tail))) (record s { busy = false; cur_chars = 0 })
take_symbol m t s (sym ∷ rest) = keyer_at (play m t sym) (record s {
  queue = rest;
  busy = true;
  cur_chars = chars sym;
  cur_end = m.start + symbol_end m t sym;
})

-- The head of the loop of `waitForWork`.
unfoldable pub look : Transmission → Timing → ℕ → SerialSender → Position
look m t deadline s =
    if s.closed then dropping m else if has_work s then resuming m t else resting m t deadline

-- Its select.
unfoldable pub rest_on : Transmission → Timing → ℕ → SerialSender → Answer → Choice → Keyer
rest_on m t deadline s a fired =
    keyer_at (if leb deadline a.now then dropping m else resting m t deadline) s
rest_on m t deadline s a woken =
    take_signal (looking m t deadline) (resting m t deadline) m.abort s woken
rest_on m t deadline s a aborted = take_signal (dropping m) (resting m t deadline) m.abort s aborted

-- The schedule starts afresh if it is behind.
unfoldable pub anchor : Transmission → Timing → ℕ → Transmission
anchor m t now =
    if ltb (m.start + (m.at + t.char_gap)) now
    then record m { start = now; at = 0; prev_char = false }
    else m

-- `waitUntil(start.Add(at), abort)`, with what is behind it where it returns false and true.
unfoldable pub wait_until :
    Transmission → SerialSender → ℕ → Position → Position → Position → Position
wait_until m s now stay stopped reached =
    if is_shut s m.abort then stopped else if leb (m.start + m.at) now then reached else stay

-- The deferred function.
unfoldable pub finish : ℕ → SerialSender → SerialSender
finish gen s = if s.gen == gen then record s { busy = false; cur_chars = 0 } else s

unfoldable pub advance : Position → SerialSender → Answer → Keyer
advance idle s a = keyer_at (next_job s) s
advance (parked c) s a = take_signal idle (parked c) c s a.choice
advance finished s a = keyer_at finished s
advance (starting gen c) s a = start_transmission gen c s a
advance (composing m) s a = keyer_at (choosing m (new_timing (pos s.wpm) s.weight)) s
advance (choosing m t) s a =
    if not (s.gen == m.gen) || s.closed
    then keyer_at (ending m.gen) s
    else take_symbol m t s s.queue
advance (looking m t deadline) s a = keyer_at (look m t deadline s) s
advance (resting m t deadline) s a = rest_on m t deadline s a a.choice
advance (resuming m t) s a = keyer_at (composing (anchor m t a.now)) s
advance (dropping m) s a = keyer_at (ending m.gen) (write_line s s.ptt_line false)
advance (before m t e es) s a =
    keyer_at (wait_until m s a.now (before m t e es) (ending m.gen) (raising m t e es)) s
advance (raising m t e es) s a =
    try_line s m.gen s.key_line a.accepted (holding (record m { at = m.at + mark t e }) t es)
advance (holding m t es) s a =
    keyer_at (wait_until m s a.now (holding m t es) (breaking m) (lifting m t es)) s
advance (lifting m t es) s a = keyer_at (next_mark m t false es) (write_line s s.key_line false)
advance (breaking m) s a = keyer_at (ending m.gen) (write_line s s.key_line false)
advance (ending gen) s a = keyer_at idle (finish gen s)
