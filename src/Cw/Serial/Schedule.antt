-- ===== src/Cw/Serial/Schedule.antt =====
-- The schedule of a transmission that nothing disturbs is the one of `Timing.Symbols`.
use mathlib.Core.Path.{subst}
use remoses.Prelude.{
  ℕ, zero, suc, ◌+◌, ◌≡◌, refl, sym, ap, ◌∙◌, inl, inr, Bool, true, false, not, ◌||◌, List, [], ◌∷◌,
  arith, leb, ◌==◌, if◌then◌else◌, Bool-cases, if-true, if-false, if-elim,
}
use remoses.Prelude.Int.{pos}
use remoses.Cw.Serial.{Line, line_none, same_line, SerialSender, write_line, assert_line}
use remoses.Cw.Serial.Keyer.{
  Transmission, Position, composing, choosing, before, raising, holding, lifting, ending, fired,
  Answer, Keyer, keyer_at, is_shut, begun, try_line, start_transmission, next_mark, symbol_end,
  play, take_symbol, wait_until, advance,
}
use remoses.Cw.Serial.Levels.{Current}
use remoses.Cw.Serial.Stops.{reached}
use remoses.Morse.Parse.{Symbol, chars}
use remoses.Morse.Table.{Element, marks}
use remoses.Morse.Timing.{
  Timing, new_timing, mark, symbol_loop, symbol_time, is_space, symbols_loop, symbols_time,
}

-- The instant that a position waits for.
unfoldable pub due : Position → ℕ
due (before m t e es) = m.start + m.at
due (holding m t es) = m.start + m.at
due _ = 0

-- An answer on time, from a port that takes every level.
abbrev pub on_time : Position → Answer
on_time p = record { now = due p; accepted = true; choice = fired }

-- A number of steps of the keyer, each of them on time.
unfoldable pub punctual : ℕ → Keyer → Keyer
punctual zero k = k
punctual (suc n) k = punctual n (advance k.position k.sender (on_time k.position))

abbrev pub Eventually : (Keyer → Type 0) → Keyer → Type 0
Eventually P k = (n : ℕ) × P (punctual n k)

-- A step on the way.
step-Eventually :
    (P : Keyer → Type 0) (k k' : Keyer)
    → advance k.position k.sender (on_time k.position) ≡ k'
    → Eventually P k'
    → Eventually P k
unfolding punctual
step-Eventually P k k' step (n, h) = (suc n, subst (λ j. P (punctual n j)) (sym step) h)

module _ (m : Transmission) (s : SerialSender) (current : Current m.gen m.abort s) where
  wait_until-reached :
      (stay stopped reached : Position)
      → wait_until m s (m.start + m.at) stay stopped reached ≡ reached
  unfolding wait_until is_shut
  wait_until-reached stay stopped reached =
      let (same, running, last) = current in
      let still : is_shut s m.abort ≡ false = ground arith in
      let now : leb (m.start + m.at) (m.start + m.at) ≡ true = ground arith in
      if-false _ _ still ∙ if-true _ _ now

  current-test : (not (s.gen == m.gen) || s.closed) ≡ false
  current-test = let (same, running, last) = current in ground arith

  try_line-taken :
      (l : Line) (behind : Position)
      → try_line s m.gen l true behind ≡ keyer_at behind (write_line s l true)
  unfolding try_line assert_line
  try_line-taken l behind =
      ap (λ (r : Bool × SerialSender). keyer_at (if r.0 then behind else ending m.gen) r.1)
        (if-false _ _ current-test)

-- The elements of a symbol take what `Timing.Symbol` says, and no level that they leave matters.
marks-Eventually :
    (P : Keyer → Type 0) (t : Timing) (es : List Element) (first : Bool) (m : Transmission)
    (s : SerialSender) (total : ℕ)
    → Current m.gen m.abort s
    → total ≡ m.at + symbol_loop t first es
    → ((dtr rts : Bool)
        → Eventually P (
            keyer_at
              (composing (record m { at = total; prev_char = true; keyed = true }))
              (record s { dtr = dtr; rts = rts })))
    → Eventually P (keyer_at (next_mark m t first es) s)
unfolding next_mark symbol_loop advance due write_line
marks-Eventually P t [] first m s total current e next =
    subst
      (λ x.
        Eventually P (keyer_at (composing (record m { at = x; prev_char = true; keyed = true })) s))
      (e ∙ omega arith) (next s.dtr s.rts)
marks-Eventually P t (x ∷ es) first m s total current e next =
    let n = record m { at = m.at + (if first then 0 else t.element_gap) } in
    let held = record n { at = n.at + mark t x } in
    let up = write_line s s.key_line true in
    let down = write_line up s.key_line false in
    step-Eventually P _ (keyer_at (raising n t x es) s)
      (ap (λ p. keyer_at p s) (wait_until-reached n s current _ _ _))
      (step-Eventually P _ (keyer_at (holding held t es) up)
        (try_line-taken n s current s.key_line (holding held t es))
        (step-Eventually P _ (keyer_at (lifting held t es) up)
          (ap (λ p. keyer_at p up) (wait_until-reached held up current _ _ _))
          (step-Eventually P _ (keyer_at (next_mark held t false es) down) refl
            (marks-Eventually P t es false held down total current (e ∙ omega arith) next))))

-- The keyer stands at the head of the loop with an empty queue, `total` behind the start.
abbrev pub Played : ℕ → ℕ → ℕ → ℕ → Keyer → Type 0
Played gen c start total k =
    (n : Transmission) × (k.position ≡ composing n)
    × (n.start ≡ start)
    × (n.at ≡ total)
    × (k.sender.queue ≡ [])
    × Current gen c k.sender

-- The sender behind the lock under which a symbol is taken.
abbrev taken : Transmission → Timing → SerialSender → Symbol → List Symbol → SerialSender
taken m t s x rest = record s {
  queue = rest;
  busy = true;
  cur_chars = chars x;
  cur_end = m.start + symbol_end m t x;
}

choosing-taken :
    (m : Transmission) (t : Timing) (s : SerialSender) (x : Symbol) (rest : List Symbol)
    (a : Answer)
    → Current m.gen m.abort s
    → s.queue ≡ x ∷ rest
    → advance (choosing m t) s a ≡ keyer_at (play m t x) (taken m t s x rest)
unfolding advance take_symbol
choosing-taken m t s x rest a current e =
    if-false _ _ (current-test m s current) ∙ ap (take_symbol m t s) e

-- Where a symbol takes the schedule, with how long the rest takes from there.
play-Eventually :
    (P : Keyer → Type 0) (m : Transmission) (t : Timing) (x : Symbol) (s : SerialSender)
    → Current m.gen m.abort s
    → (is_space x.kind ≡ true
        → Eventually P (
            keyer_at
              (composing
                (record m { at = m.at + (if m.keyed then t.word_gap else 0); prev_char = false }))
              s))
    → (is_space x.kind ≡ false
        → (dtr rts : Bool)
        → Eventually P (
            keyer_at
              (composing (record m {
                at = m.at + (if m.prev_char then t.char_gap else 0) + symbol_time t x;
                prev_char = true;
                keyed = true;
              }))
              (record s { dtr = dtr; rts = rts })))
    → Eventually P (keyer_at (play m t x) s)
unfolding play symbol_time
play-Eventually P m t x s current gap marks =
    if-elim (λ (p : Position). Eventually P (keyer_at p s)) (is_space x.kind) _ _ gap
      (λ sounds.
        marks-Eventually P t x.elements true
          (record m { at = m.at + (if m.prev_char then t.char_gap else 0) }) s _ current refl
          (marks sounds))

symbols_loop-gap :
    (t : Timing) (keyed prev_char : Bool) (x : Symbol) (rest : List Symbol)
    → is_space x.kind ≡ true
    → symbols_loop t keyed prev_char (x ∷ rest)
      ≡ (if keyed then t.word_gap else 0) + symbols_loop t keyed false rest
unfolding symbols_loop
symbols_loop-gap t keyed prev_char x rest gap = if-true _ _ gap

symbols_loop-sounds :
    (t : Timing) (keyed prev_char : Bool) (x : Symbol) (rest : List Symbol)
    → is_space x.kind ≡ false
    → symbols_loop t keyed prev_char (x ∷ rest)
      ≡ (if prev_char then t.char_gap else 0) + symbol_time t x + symbols_loop t true true rest
unfolding symbols_loop
symbols_loop-sounds t keyed prev_char x rest sounds = if-false _ _ sounds

symbols_loop-done : (t : Timing) (keyed prev_char : Bool) → symbols_loop t keyed prev_char [] ≡ 0
unfolding symbols_loop
symbols_loop-done t keyed prev_char = refl

queue-Eventually :
    (m : Transmission) (t : Timing) (s : SerialSender) (l : List Symbol) (total : ℕ)
    → Current m.gen m.abort s
    → new_timing (pos s.wpm) s.weight ≡ t
    → s.queue ≡ l
    → total ≡ m.at + symbols_loop t m.keyed m.prev_char l
    → Eventually (Played m.gen m.abort m.start total) (keyer_at (composing m) s)
unfolding punctual advance
queue-Eventually m t s [] total current speed e sum =
    (0, (m, refl, refl, omega (arith, sum, symbols_loop-done t m.keyed m.prev_char), e, current))
queue-Eventually m t s (x ∷ rest) total current speed e sum =
    let P = Played m.gen m.abort m.start total in
    let s' = taken m t s x rest in
    step-Eventually P (keyer_at (composing m) s) (keyer_at (choosing m t) s)
      (ap (λ u. keyer_at (choosing m u) s) speed)
      (step-Eventually P (keyer_at (choosing m t) s) (keyer_at (play m t x) s')
        (choosing-taken m t s x rest (on_time (choosing m t)) current e)
        (play-Eventually P m t x s' current
          (λ gap.
            queue-Eventually
              (record m { at = m.at + (if m.keyed then t.word_gap else 0); prev_char = false }) t s'
              rest total current speed refl
              (omega (arith, sum, symbols_loop-gap t m.keyed m.prev_char x rest gap)))
          (λ sounds dtr rts.
            queue-Eventually
              (record m {
                at = m.at + (if m.prev_char then t.char_gap else 0) + symbol_time t x;
                prev_char = true;
                keyed = true;
              })
              t (record s' { dtr = dtr; rts = rts }) rest total current speed refl
              (omega (arith, sum, symbols_loop-sounds t m.keyed m.prev_char x rest sounds)))))

-- A transmission that begins on a sender that is not closed, with text in the queue, whose waits all end
-- on time and whose port takes every level, plays the whole queue: the keyer comes back to the head of
-- its loop with an empty queue, and the end of the last symbol is, behind the start, the lead of PTT
-- (where there is a line for it) and the time that `Timing.Symbols` tells for the queue.
pub transmission-Played :
    (s : SerialSender) (now : ℕ)
    → s.closed ≡ false
    → Eventually
        (Played s.gen s.abort_chan now (
          (if same_line s.ptt_line line_none then 0 else s.lead)
          + symbols_time (new_timing (pos s.wpm) s.weight) s.queue))
        (start_transmission s.gen s.abort_chan s
          (record { now = now; accepted = true; choice = fired }))
unfolding start_transmission symbols_time write_line
transmission-Played s now running =
    let t = new_timing (pos s.wpm) s.weight in
    let a : Answer = record { now = now; accepted = true; choice = fired } in
    let total = (if same_line s.ptt_line line_none then 0 else s.lead) + symbols_time t s.queue in
    let P = Played s.gen s.abort_chan now total in
    let alone = begun s.gen s.abort_chan now 0 in
    let led = begun s.gen s.abort_chan now s.lead in
    let raised = write_line s s.ptt_line true in
    elim (Bool-cases (same_line s.ptt_line line_none)) [
      | inl without ↦ subst (Eventually P) (sym (if-true _ _ without)) (
          queue-Eventually alone t s s.queue total (refl, running, refl) refl refl
            (omega (arith, if-true 0 s.lead without)))
      | inr with_ptt ↦
          subst (Eventually P)
            (sym (
              if-false _ _ with_ptt
              ∙ try_line-taken led s (refl, running, refl) s.ptt_line (composing led)))
            (queue-Eventually led t raised s.queue total (refl, running, refl) refl refl
              (omega (arith, if-false 0 s.lead with_ptt)))
    ]
