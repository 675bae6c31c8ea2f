-- ===== src/Cw/Serial/Safety.antt =====
-- Whatever its clients and the port do, the keyer's lines are high only for the current transmission.
use remoses.Prelude.{
  ℕ, ◌+◌, ◌%◌, ◌^◌, ◌≤◌, ◌<◌, ◌≡◌, refl, ◌⊎◌, true, false, List, [], ◌∷◌, ◌++◌, arith, if-elim,
  Bytes, length,
}
use remoses.Prelude.Int.{ℤ}
use remoses.Cw.Cat.{clamp_wpm, Mode}
use remoses.Cw.Cat.Loop.{room}
use remoses.Cw.Serial.{
  SerialSender, SerialError, write_line, drop_lines, left, serial_accept, serial_enqueue,
  abort_locked, serial_set_speed, serial_close,
}
use remoses.Cw.Serial.Counts.{Counted, Counted-refl, abort_locked-Counted, advance-Counted}
use remoses.Cw.Serial.Keyer.{Position, Answer, Keyer, keyer_at, advance}
use remoses.Cw.Serial.Levels.{drop_lines-Low, stage_of, Sound, Holds-Low, Holds-other}
use remoses.Cw.Serial.Steps.{abort_locked-Low, advance-Sound}
use remoses.Morse.Parse.{Parsed, symbols, char_error, syntax_error, parse}

-- What happens to the sender: a call of a client, or a step of the keyer.
pub data Event : Type 0 where
  client_enqueue : Bytes → Mode → Event
  client_abort : Event
  client_close : Event
  client_speed : ℤ → Event
  keyer_step : Answer → Event

unfoldable pub take_event : Keyer → Event → Keyer
take_event k (client_enqueue text mode) = keyer_at k.position (serial_enqueue k.sender text mode).1
take_event k client_abort = keyer_at k.position (abort_locked k.sender)
take_event k client_close = keyer_at k.position (serial_close k.sender)
take_event k (client_speed wpm) = keyer_at k.position (serial_set_speed k.sender wpm)
take_event k (keyer_step a) = advance k.position k.sender a

unfoldable pub take_events : Keyer → List Event → Keyer
take_events k [] = k
take_events k (e ∷ es) = take_events (take_event k e) es

accept-Sound :
    (p : Position) (s : SerialSender) (text : Bytes) (mode : Mode) (parsed : Parsed)
    → Sound (keyer_at p s)
    → Sound (keyer_at p (serial_accept s text mode parsed).1)
      × Counted s (serial_accept s text mode parsed).1
unfolding serial_accept
accept-Sound p s text mode (symbols syms) (w, h) =
    if-elim (λ (r : (ℕ ⊎ SerialError) × SerialSender). Sound (keyer_at p r.1) × Counted s r.1)
      s.closed _ _ (λ closed. ((w, h), Counted-refl s))
      (λ running.
        ((w, Holds-other (stage_of p) s (left mode s.queue ++ syms) s.wpm true h), Counted-refl s))
accept-Sound p s text mode (char_error r i) h = (h, Counted-refl s)
accept-Sound p s text mode (syntax_error i) h = (h, Counted-refl s)

close-Sound :
    (p : Position) (s : SerialSender)
    → s.gen + 1 < 2 ^ 64
    → Sound (keyer_at p s)
    → Sound (keyer_at p (serial_close s)) × Counted s (serial_close s)
unfolding serial_close drop_lines write_line
close-Sound p s room (w, h) =
    if-elim (λ (t : SerialSender). Sound (keyer_at p t) × Counted s t) s.closed _ _
      (λ closed. ((w, h), Counted-refl s))
      (λ running.
        let stopped = record s { gen = (s.gen + 1) % 2 ^ 64; queue = []; closed = true } in
        (
          (w, Holds-Low (stage_of p) s _ h (drop_lines-Low stopped) (omega arith)),
          (omega arith, omega arith, λ closed. refl),
        ))

pub take_event-Sound :
    (k : Keyer) (e : Event)
    → k.sender.gen + 1 < 2 ^ 64
    → Sound k
    → Sound (take_event k e) × Counted k.sender (take_event k e).sender
unfolding take_event abort_locked drop_lines write_line serial_enqueue serial_set_speed
take_event-Sound k (client_enqueue text mode) room h =
    accept-Sound k.position k.sender text mode (parse text false) h
take_event-Sound k client_abort room (w, h) = (
  (
    w,
    Holds-Low (stage_of k.position) k.sender (abort_locked k.sender) h (abort_locked-Low k.sender)
        (omega arith),
  ),
  abort_locked-Counted k.sender room,
)
take_event-Sound k client_close room h = close-Sound k.position k.sender room h
take_event-Sound k (client_speed wpm) room (w, h) = (
  (w, Holds-other (stage_of k.position) k.sender k.sender.queue (clamp_wpm wpm) k.sender.wake h),
  Counted-refl k.sender,
)
take_event-Sound k (keyer_step a) room h =
    (advance-Sound k.position k.sender a h, advance-Counted k.position k.sender a room)

-- What holds of a keyer holds behind any events that the generations last for, and they only go up.
pub take_events-Sound :
    (k : Keyer) (es : List Event)
    → k.sender.gen + length es < 2 ^ 64
    → Sound k
    → Sound (take_events k es)
      × (k.sender.gen ≤ (take_events k es).sender.gen)
      × ((take_events k es).sender.gen ≤ k.sender.gen + length es)
      × (k.sender.closed ≡ true → (take_events k es).sender.closed ≡ true)
unfolding take_events
take_events-Sound k [] room h = (h, omega arith, omega arith, λ closed. closed)
take_events-Sound k (e ∷ es) room h =
    let (sound, (older, near, shut)) = take_event-Sound k e (omega arith) h in
    let (sound', older', near', shut') =
      take_events-Sound (take_event k e) es (omega arith) sound in
    (sound', omega arith, omega arith, λ closed. shut' (shut closed))
