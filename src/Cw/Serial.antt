-- ===== src/Cw/Serial.antt =====
-- The sender that keys a control line itself (internal/cw/serialkey.go): its settings, its queue and
-- the operations of its clients, each of which is one locked region. Times are in nanoseconds and 0 is
-- Go's zero time. The abort channels are numbered in the order in which they are made: the ones before
-- `abort_chan` are closed, and that one is once the sender is closed. `dtr` and `rts` are the levels
-- that were asked for last.
pub mod Keyer
pub mod Levels
pub mod Steps
pub mod Counts
pub mod Safety
pub mod Stops
pub mod Schedule
mod Tests
use remoses.Prelude.{
  ℕ, ◌+◌, ◌-◌, ◌*◌, ◌/◌, ◌%◌, ◌^◌, ◌⊎◌, inl, inr, Bool, true, false, not, ◌&&◌, ◌||◌, Option, none,
  some, List, [], ◌∷◌, ◌++◌, reverse, ltb, leb, ◌==◌, if◌then◌else◌, Bytes, length,
}
use remoses.Prelude.Int.{ℤ, pos, negsuc}
use remoses.Cw.Cat.{clamp_wpm, Mode, append, replace, Status}
use remoses.Morse.Parse.{Symbol, chars, Parsed, char_error, symbols, syntax_error, parse}
use remoses.Morse.Table.{charset}
use remoses.Morse.Timing.{new_timing, symbols_time}

pub data Line : Type 0 where
  line_none line_dtr line_rts : Line

unfoldable pub same_line : Line → Line → Bool
same_line line_none line_none = true
same_line line_dtr line_dtr = true
same_line line_rts line_rts = true
same_line _ _ = false

-- `strings.TrimSpace` on the left, and on both sides; the white space is Unicode's.
unfoldable pub is_white : ℕ → Bool
is_white r =
    (leb 9 r && leb r 13)
    || r == 32
    || r == 133
    || r == 160
    || r == 5760
    || (leb 8192 r && leb r 8202)
    || r == 8232
    || r == 8233
    || r == 8239
    || r == 8287
    || r == 12_288

unfoldable pub trim_left : Bytes → Bytes
trim_left [] = []
trim_left (r ∷ rs) = let rest = trim_left rs in if is_white r then rest else r ∷ rs

-- No other rune than these letters has a lower case among the letters of the names.
unfoldable pub to_lower : Bytes → Bytes
to_lower [] = []
to_lower (r ∷ rs) = (if leb b'A' r && leb r b'Z' then r + 32 else r) ∷ to_lower rs

-- Whether two texts are equal.
unfoldable pub same_text : Bytes → Bytes → Bool
same_text [] [] = true
same_text (x ∷ xs) (y ∷ ys) = x == y && same_text xs ys
same_text _ _ = false

-- `parseLine`, where `none` is its error.
unfoldable pub parse_line : Bytes → Option Line
parse_line name =
    let folded = to_lower (reverse (trim_left (reverse (trim_left name)))) in
    if same_text folded [] || same_text folded (b'n' ∷ b'o' ∷ b'n' ∷ b'e' ∷ [])
    then some line_none
    else if same_text folded (b'd' ∷ b't' ∷ b'r' ∷ [])
    then some line_dtr
    else if same_text folded (b'r' ∷ b't' ∷ b's' ∷ [])
    then some line_rts
    else none

-- `config.SerialKey`
pub record SerialKey : Type 0 where
  pub key_line : Bytes
  pub ptt_line : Bytes
  pub ptt_lead_ms : ℤ
  pub ptt_tail_ms : ℤ
  pub weight : ℤ

pub record SerialSender : Type 0 where
  pub key_line : Line
  pub ptt_line : Line
  pub lead : ℕ
  pub tail : ℕ
  pub weight : ℤ
  pub queue : List Symbol
  pub wpm : ℕ
  pub gen : ℕ
  pub busy : Bool
  pub cur_chars : ℕ
  pub cur_end : ℕ
  pub closed : Bool
  pub abort_chan : ℕ
  pub wake : Bool
  pub dtr : Bool
  pub rts : Bool

pub data KeyError : Type 0 where
  no_lines no_configuration unknown_line no_key_line shared_line negative_time : KeyError

pub data SerialError : Type 0 where
  unkeyable : ℕ → ℕ → Bytes → SerialError
  serial_closed : SerialError

-- `write`: the level that each output is asked for behind it.
unfoldable pub write_line : SerialSender → Line → Bool → SerialSender
write_line s l on = record s {
  dtr = if same_line l line_dtr then on else s.dtr;
  rts = if same_line l line_rts then on else s.rts;
}

-- Both lines low, as in `abortLocked`, `Close` and `NewSerialKey`.
unfoldable pub drop_lines : SerialSender → SerialSender
drop_lines s = write_line (write_line s s.key_line false) s.ptt_line false

-- The sender that `NewSerialKey` makes, before it sets the lines.
abbrev pub fresh_sender : Line → Line → ℕ → ℕ → ℤ → ℤ → SerialSender
fresh_sender key ptt lead tail weight speed = record {
  key_line = key;
  ptt_line = ptt;
  lead = lead;
  tail = tail;
  weight = weight;
  queue = [];
  wpm = clamp_wpm speed;
  gen = 0;
  busy = false;
  cur_chars = 0;
  cur_end = 0;
  closed = false;
  abort_chan = 0;
  wake = false;
  dtr = false;
  rts = false;
}

-- The checks of `NewSerialKey` behind the names of the lines.
unfoldable pub new_sender : Line → Line → Option ℕ → Option ℕ → ℤ → ℤ → SerialSender ⊎ KeyError
new_sender key ptt (some lead) (some tail) weight speed =
    if not (same_line ptt line_none) && same_line ptt key
    then inr shared_line
    else inl (drop_lines (fresh_sender key ptt lead tail weight speed))
new_sender key ptt _ _ weight speed =
    if not (same_line ptt line_none) && same_line ptt key
    then inr shared_line
    else inr negative_time

-- `time.Duration(ms) * time.Millisecond`, or `none` for a negative time.
unfoldable pub milliseconds : ℤ → Option ℕ
milliseconds (pos n) = some (n * 1_000_000)
milliseconds (negsuc n) = none

unfoldable pub new_lines : Option Line → Option Line → SerialKey → ℤ → SerialSender ⊎ KeyError
new_lines none ptt sk speed = inr unknown_line
new_lines (some line_none) ptt sk speed = inr no_key_line
new_lines (some key) none sk speed = inr unknown_line
new_lines (some key) (some ptt) sk speed =
    new_sender key ptt (milliseconds sk.ptt_lead_ms) (milliseconds sk.ptt_tail_ms) sk.weight speed

-- `NewSerialKey`; `lines` tells whether there is a port with control lines.
unfoldable pub new_serial_key : Bool → Option SerialKey → ℤ → SerialSender ⊎ KeyError
new_serial_key false cfg speed = inr no_lines
new_serial_key true none speed = inr no_configuration
new_serial_key true (some sk) speed =
    new_lines (parse_line sk.key_line) (parse_line sk.ptt_line) sk speed

-- `charError`, for the errors that the parser has.
unfoldable pub restated : Parsed → SerialError
restated (char_error r i) = unkeyable r i charset
restated (syntax_error i) = unkeyable b'^' i charset
restated (symbols l) = serial_closed

-- What a mode leaves of the queue.
abbrev pub left : Mode → List Symbol → List Symbol
left append queue = queue
left replace queue = []

-- The locked region of `Enqueue` and `signal`.
unfoldable pub serial_accept :
    SerialSender → Bytes → Mode → Parsed → (ℕ ⊎ SerialError) × SerialSender
serial_accept s text mode (symbols syms) =
    if s.closed
    then (inr serial_closed, s)
    else (inl (length text), record s { queue = left mode s.queue ++ syms; wake = true })
serial_accept s text mode failed = (inr (restated failed), s)

unfoldable pub serial_enqueue : SerialSender → Bytes → Mode → (ℕ ⊎ SerialError) × SerialSender
serial_enqueue s text mode = serial_accept s text mode (parse text false)

unfoldable pub abort_locked : SerialSender → SerialSender
abort_locked s = drop_lines (record s {
  gen = (s.gen + 1) % 2 ^ 64;
  queue = [];
  busy = false;
  cur_chars = 0;
  cur_end = 0;
  abort_chan = if s.closed then s.abort_chan else s.abort_chan + 1;
})

unfoldable pub queued_chars : List Symbol → ℕ
queued_chars [] = 0
queued_chars (s ∷ l) = chars s + queued_chars l

unfoldable pub has_work : SerialSender → Bool
has_work s = ltb 0 (length s.queue)

-- `remaining` of `Status`.
unfoldable pub serial_remaining : SerialSender → ℕ → ℕ
serial_remaining s now =
    let t = new_timing (pos s.wpm) s.weight in
    (s.cur_end - now)
    + (if has_work s then (if s.busy then t.char_gap else 0) + symbols_time t s.queue else 0)

unfoldable pub serial_status : SerialSender → ℕ → Status
serial_status s now = record {
  queued = s.cur_chars + queued_chars s.queue;
  est_remaining_ms = serial_remaining s now / 1_000_000;
  busy = s.busy || has_work s;
  wpm = s.wpm;
}

unfoldable pub serial_set_speed : SerialSender → ℤ → SerialSender
serial_set_speed s wpm = record s { wpm = clamp_wpm wpm }

-- `Close`, up to the wait for the keyer.
unfoldable pub serial_close : SerialSender → SerialSender
serial_close s =
    if s.closed
    then s
    else record (drop_lines (record s { gen = (s.gen + 1) % 2 ^ 64; queue = []; closed = true })) {
      wake = true;
    }

-- `assert` for the transmission `gen`; `accepted` tells whether the port took the level.
unfoldable pub assert_line : SerialSender → ℕ → Line → Bool → Bool × SerialSender
assert_line s gen l accepted =
    if not (s.gen == gen) || s.closed
    then (false, s)
    else if accepted
    then (true, write_line s l true)
    else (false, abort_locked (write_line s l true))
