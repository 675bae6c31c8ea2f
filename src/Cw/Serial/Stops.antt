-- ===== src/Cw/Serial/Stops.antt =====
-- What the keyer's lines can do from the start on, and behind a close and an abort.
use mathlib.Core.Path.{subst}
use remoses.Prelude.{
  ℕ, ◌+◌, ◌^◌, ◌≤◌, ◌<◌, ◌≡◌, refl, ◌⊎◌, inl, inr, true, false, not, ◌&&◌, Option, none, some, List,
  arith, if-elim, length,
}
use remoses.Prelude.Int.{ℤ}
use remoses.Cw.Cat.Loop.{room}
use remoses.Cw.Serial.{
  Line, line_none, line_dtr, line_rts, same_line, parse_line, SerialKey, SerialSender, KeyError,
  write_line, drop_lines, fresh_sender, new_sender, milliseconds, new_lines, new_serial_key,
  abort_locked,
}
use remoses.Cw.Serial.Keyer.{idle, Keyer, keyer_at}
use remoses.Cw.Serial.Levels.{Low, drop_lines-Low, Current, stage_of, Sound, task, Holds-cases}
use remoses.Cw.Serial.Safety.{
  Event, client_abort, take_event, take_events, take_event-Sound, take_events-Sound,
}

wired :
    (key ptt : Line)
    → same_line key line_none ≡ false
    → (not (same_line ptt line_none) && same_line ptt key) ≡ false
    → same_line ptt key ≡ false
unfolding same_line
wired line_none ptt named apart = absurd (cc named)
wired line_dtr line_none named apart = refl
wired line_dtr line_dtr named apart = absurd (cc apart)
wired line_dtr line_rts named apart = refl
wired line_rts line_none named apart = refl
wired line_rts line_dtr named apart = refl
wired line_rts line_rts named apart = absurd (cc apart)

-- A sender that was made is sound, with its keyer at the head of its loop.
Made : SerialSender ⊎ KeyError → Type 0
Made (inl s) = Sound (keyer_at idle s) × (s.gen ≡ 0)
Made (inr e) = Unit

new_sender-Made :
    (key ptt : Line) (lead tail : Option ℕ) (weight speed : ℤ)
    → same_line key line_none ≡ false
    → Made (new_sender key ptt lead tail weight speed)
unfolding Made new_sender drop_lines write_line
new_sender-Made key ptt (some lead) (some tail) weight speed named =
    if-elim Made (not (same_line ptt line_none) && same_line ptt key) _ _ (λ shared. tt)
      (λ apart. (
        (wired key ptt named apart, drop_lines-Low (fresh_sender key ptt lead tail weight speed)),
        refl,
      ))
new_sender-Made key ptt (some lead) none weight speed named =
    if-elim Made (not (same_line ptt line_none) && same_line ptt key) _ _ (λ shared. tt)
      (λ apart. tt)
new_sender-Made key ptt none tail weight speed named =
    if-elim Made (not (same_line ptt line_none) && same_line ptt key) _ _ (λ shared. tt)
      (λ apart. tt)

new_lines-Made :
    (key ptt : Option Line) (sk : SerialKey) (speed : ℤ) → Made (new_lines key ptt sk speed)
unfolding Made new_lines same_line
new_lines-Made none ptt sk speed = tt
new_lines-Made (some line_none) ptt sk speed = tt
new_lines-Made (some line_dtr) none sk speed = tt
new_lines-Made (some line_rts) none sk speed = tt
new_lines-Made (some line_dtr) (some ptt) sk speed =
    new_sender-Made line_dtr ptt (milliseconds sk.ptt_lead_ms) (milliseconds sk.ptt_tail_ms)
      sk.weight speed refl
new_lines-Made (some line_rts) (some ptt) sk speed =
    new_sender-Made line_rts ptt (milliseconds sk.ptt_lead_ms) (milliseconds sk.ptt_tail_ms)
      sk.weight speed refl

abort_locked-gen : (s : SerialSender) → s.gen + 1 < 2 ^ 64 → (abort_locked s).gen ≡ s.gen + 1
unfolding abort_locked drop_lines write_line
abort_locked-gen s room = omega arith

module _ (sk : SerialKey) (speed : ℤ) (s : SerialSender) (es : List Event) where
  -- The keyer behind some events from the start on.
  abbrev pub reached : Keyer
  reached = take_events (keyer_at idle s) es

  reached-Sound :
      new_serial_key true (some sk) speed ≡ inl s
      → length es < 2 ^ 64
      → Sound reached × (reached.sender.gen ≤ length es)
  unfolding new_serial_key Made
  reached-Sound made room =
      let (start, first) =
        subst Made made
          (new_lines-Made (parse_line sk.key_line) (parse_line sk.ptt_line) sk speed) in
      let (sound, older, near, shut) = take_events-Sound (keyer_at idle s) es (omega arith) start in
      (sound, omega arith)

  -- From a sender that `NewSerialKey` made, whatever its clients call, whatever the port answers and
  -- however the steps of the keyer lie between: both lines are low, or the keyer works on the
  -- transmission of the current generation and the sender is not closed, if there are fewer than 2^64
  -- events.
  pub reached-Low :
      new_serial_key true (some sk) speed ≡ inl s
      → length es < 2 ^ 64
      → Low reached.sender
        ⊎ ((gen : ℕ) × (c : ℕ) × (task (stage_of reached.position) ≡ some (gen, c))
            × Current gen c reached.sender)
  reached-Low made room =
      let ((w, h), bound) = reached-Sound made room in
      Holds-cases (stage_of reached.position) reached.sender h

  -- Once a client has called `Abort`, both lines are low for as long as the keyer does not work on a
  -- transmission that it began behind it, if there are fewer than 2^64 events in all.
  pub abort-Low :
      (later : List Event)
      → new_serial_key true (some sk) speed ≡ inl s
      → length es + length later + 1 < 2 ^ 64
      → ((gen c : ℕ)
          → task (stage_of (take_events (take_event reached client_abort) later).position)
            ≡ some (gen, c)
          → gen ≤ reached.sender.gen)
      → Low (take_events (take_event reached client_abort) later).sender
  unfolding take_event
  abort-Low later made room earlier =
      let (sound, bound) = reached-Sound made (omega arith) in
      let (sound', (older, near, shut)) =
        take_event-Sound reached client_abort (omega arith) sound in
      let ((w, h), older', near', shut') =
        take_events-Sound (take_event reached client_abort) later (omega arith) sound' in
      elim (Holds-cases _ _ h) [
        | inl low ↦ low
        | inr (gen, c, at_work, (same, running, last)) ↦
            absurd
              (omega (earlier gen c at_work, abort_locked-gen reached.sender (omega arith), arith))
      ]
