-- ===== src/Cw/Serial/Tests.antt =====
-- Tests and examples of the sender that keys a control line: PTT on RTS, keyed on DTR.
use remoses.Prelude.{
  ℕ, ◌+◌, ◌≡◌, refl, ap, ◌⊎◌, inl, true, Option, none, some, List, [], ◌∷◌, arith, if◌then◌else◌,
}
use remoses.Prelude.Int.{pos}
use remoses.Cw.Cat.{clamp_wpm, append}
use remoses.Cw.Chunk.{is_letter, letter_run}
use remoses.Cw.Serial.{
  line_none, line_dtr, line_rts, same_line, is_white, trim_left, to_lower, same_text, parse_line,
  SerialKey, SerialSender, write_line, drop_lines, fresh_sender, new_sender, milliseconds,
  new_lines, new_serial_key, serial_accept, serial_enqueue, has_work, assert_line,
}
use remoses.Cw.Serial.Keyer.{
  idle, fired, keyer_at, is_shut, next_job, try_line, start_transmission, next_mark, play,
  take_symbol, wait_until, advance,
}
use remoses.Cw.Serial.Levels.{Low, Current, stage_of, task}
use remoses.Cw.Serial.Safety.{
  Event, client_enqueue, client_abort, keyer_step, take_event, take_events,
}
use remoses.Cw.Serial.Schedule.{due, Eventually, Played, transmission-Played}
use remoses.Cw.Serial.Stops.{reached-Low, abort-Low}
use remoses.Morse.Parse.{char, push, run_marks, parse_char, parse_from, parse}
use remoses.Morse.Table.{dot, dash, elements_of, upper}
use remoses.Morse.Timing.{new_timing, is_space, symbols_time}

abbrev config : SerialKey
config = record {
  key_line = b'd' ∷ b't' ∷ b'r' ∷ [];
  ptt_line = b'R' ∷ b'T' ∷ b'S' ∷ b' ' ∷ [];
  ptt_lead_ms = pos 30;
  ptt_tail_ms = pos 200;
  weight = pos 50;
}

abbrev made : SerialSender
made = fresh_sender line_dtr line_rts 30_000_000 200_000_000 (pos 50) (pos 20)

config-made : new_serial_key true (some config) (pos 20) ≡ inl made
unfolding new_serial_key new_lines new_sender parse_line trim_left to_lower same_text is_white
    same_line milliseconds drop_lines write_line clamp_wpm
config-made = refl

abbrev answer : ℕ → Event
answer now = keyer_step (record { now = now; accepted = true; choice = fired })

-- "E" is queued and the keyer goes on until both lines are high.
abbrev letter : List Event
letter =
    client_enqueue (b'E' ∷ []) append
    ∷ answer 0
    ∷ answer 5
    ∷ answer 5
    ∷ answer 5
    ∷ answer 30_000_005
    ∷ answer 30_000_005
    ∷ []

letter-high :
    let s = (take_events (keyer_at idle made) letter).sender in (s.dtr ≡ true) × (s.rts ≡ true)
unfolding take_events take_event advance serial_enqueue serial_accept parse parse_from letter_run
    run_marks push parse_char elements_of upper is_letter next_job has_work start_transmission
    try_line assert_line write_line same_line take_symbol play next_mark wait_until is_shut due
    is_space new_timing
letter-high = (refl, refl)

reached-Low_example :
    let f = take_events (keyer_at idle made) letter in
    Low f.sender
    ⊎ ((gen : ℕ) × (c : ℕ) × (task (stage_of f.position) ≡ some (gen, c)) × Current gen c f.sender)
reached-Low_example = reached-Low config (pos 20) made letter config-made (omega arith)

abbrev gen_of : Option (ℕ × ℕ) → ℕ
gen_of none = 0
gen_of (some (gen, c)) = gen

abort-Low_example :
    Low (take_events (take_event (take_events (keyer_at idle made) letter) client_abort) []).sender
unfolding take_events take_event advance serial_enqueue serial_accept parse parse_from letter_run
    run_marks push parse_char elements_of upper is_letter next_job has_work start_transmission
    try_line assert_line write_line same_line take_symbol play next_mark wait_until is_shut due
    is_space new_timing
abort-Low_example =
    abort-Low config (pos 20) made letter [] config-made (omega arith)
      (λ gen c h. omega (arith, ap gen_of h))

-- "ET" in the queue.
abbrev two_letters : SerialSender
two_letters = record made {
  queue =
      record { kind = char; text = b'E' ∷ []; elements = dot ∷ [] }
      ∷ record { kind = char; text = b'T' ∷ []; elements = dash ∷ [] }
      ∷ [];
}

transmission-Played_example :
    Eventually
      (Played 0 0 7 (
        (if same_line line_rts line_none then 0 else 30_000_000)
        + symbols_time (new_timing (pos 20) (pos 50)) two_letters.queue))
      (start_transmission 0 0 two_letters (record { now = 7; accepted = true; choice = fired }))
unfolding clamp_wpm
transmission-Played_example = transmission-Played two_letters 7 refl
