-- ===== src/Cw/Serial/Steps.antt =====
-- Every step of the keyer keeps the lines low but for the transmission that is current.
use mathlib.Core.Path.{subst}
use remoses.Prelude.{
  ℕ, ◌+◌, ◌≡◌, refl, sym, ◌⊎◌, inl, inr, Bool, true, false, not, ◌||◌, List, [], ◌∷◌, arith, ltb,
  leb, ◌==◌, if◌then◌else◌, if-elim,
}
use remoses.Cw.Serial.{
  Line, line_none, same_line, SerialSender, write_line, drop_lines, abort_locked, has_work,
  assert_line,
}
use remoses.Cw.Serial.Keyer.{
  finished, idle, Transmission, Position, parked, starting, composing, choosing, looking, resting,
  resuming, dropping, before, raising, holding, lifting, breaking, ending, Choice, woken, fired,
  aborted, Answer, keyer_at, is_shut, next_job, take_signal, try_line, start_transmission,
  next_mark, symbol_end, play, take_symbol, look, rest_on, anchor, wait_until, finish, advance,
}
use remoses.Cw.Serial.Levels.{
  level, Low, Wired, level-dropped, level-other, level-low, drop_lines-Low, Current, armed, between,
  keying, stage_of, Holds, Sound, shut-Low, stale-Low, now-Current, between-cases, Holds-other,
}
use remoses.Morse.Parse.{Symbol, chars}
use remoses.Morse.Table.{Element}
use remoses.Morse.Timing.{Timing, is_space}

-- What a step keeps, by what it is made of.
wait_until-Holds :
    (m : Transmission) (s : SerialSender) (now : ℕ) (stay stopped reached : Position)
    → Holds (stage_of stay) s
    → Holds (stage_of reached) s
    → (is_shut s m.abort ≡ true → Holds (stage_of stopped) s)
    → Holds (stage_of (wait_until m s now stay stopped reached)) s
unfolding wait_until
wait_until-Holds m s now stay stopped reached h k stop =
    let P = λ (p : Position). Holds (stage_of p) s in
    if-elim P (is_shut s m.abort) _ _ stop
      (λ still. if-elim P (leb (m.start + m.at) now) _ _ (λ due. k) (λ early. h))

take_signal-Sound :
    (behind stay : Position) (c : ℕ) (s : SerialSender) (choice : Choice)
    → Wired s
    → Holds (stage_of stay) s
    → Holds (stage_of behind) s
    → Sound (take_signal behind stay c s choice)
unfolding take_signal
take_signal-Sound behind stay c s fired w h k = (w, h)
take_signal-Sound behind stay c s woken w h k =
    if-elim Sound s.wake _ _ (λ ready. (w, Holds-other (stage_of behind) s s.queue s.wpm false k))
      (λ empty. (w, h))
take_signal-Sound behind stay c s aborted w h k =
    if-elim Sound (is_shut s c) _ _ (λ shut. (w, k)) (λ still. (w, h))

pub abort_locked-Low : (s : SerialSender) → Low (abort_locked s)
unfolding abort_locked
abort_locked-Low s = drop_lines-Low _

try_line-Sound :
    (s : SerialSender) (gen : ℕ) (l : Line) (accepted : Bool) (behind : Position)
    → Wired s
    → ((not (s.gen == gen) || s.closed) ≡ true → Low s)
    → ((not (s.gen == gen) || s.closed) ≡ false → Holds (stage_of behind) (write_line s l true))
    → Sound (try_line s gen l accepted behind)
unfolding try_line assert_line abort_locked drop_lines write_line
try_line-Sound s gen l accepted behind w stale raised =
    let P =
      λ (r : Bool × SerialSender). Sound (keyer_at (if r.0 then behind else ending gen) r.1) in
    if-elim P (not (s.gen == gen) || s.closed) _ _ (λ h. (w, stale h))
      (λ h.
        if-elim P accepted _ _ (λ taken. (w, raised h))
          (λ refused. (w, abort_locked-Low (write_line s l true))))

next_mark-stage :
    (m : Transmission) (t : Timing) (first : Bool) (es : List Element)
    → stage_of (next_mark m t first es) ≡ between m.gen m.abort
unfolding next_mark
next_mark-stage m t first [] = refl
next_mark-stage m t first (e ∷ es) = refl

play-stage :
    (m : Transmission) (t : Timing) (sym : Symbol) → stage_of (play m t sym) ≡ between m.gen m.abort
unfolding play
play-stage m t sym =
    if-elim {A = Position} (λ p. stage_of p ≡ between m.gen m.abort) (is_space sym.kind) _ _
      (λ gap. refl) (λ marks. next_mark-stage _ t true sym.elements)

next_job-Holds : (s : SerialSender) → Low s → Holds (stage_of (next_job s)) s
unfolding next_job
next_job-Holds s low =
    let P = λ (p : Position). Holds (stage_of p) s in
    if-elim P s.closed _ _ (λ closed. low)
      (λ running.
        if-elim P (has_work s) _ _ (λ work. ((omega arith, λ same still. refl), low))
          (λ nothing. low))

start_transmission-Sound :
    (gen c : ℕ) (s : SerialSender) (a : Answer)
    → Wired s
    → Holds (armed gen c) s
    → Sound (start_transmission gen c s a)
unfolding start_transmission write_line
start_transmission-Sound gen c s a w (linked, (key, ptt)) =
    if-elim Sound (same_line s.ptt_line line_none) _ _ (λ without. (w, (linked, key, inl ptt)))
      (λ with_ptt.
        try_line-Sound s gen s.ptt_line a.accepted _ w (λ stale. (key, ptt))
          (λ now_on. (
            linked,
            level-other s s.key_line s.ptt_line true w key,
            inr (now-Current gen c s linked now_on),
          )))

take_symbol-Sound :
    (m : Transmission) (t : Timing) (s : SerialSender) (l : List Symbol)
    → Wired s
    → Holds (between m.gen m.abort) s
    → Sound (take_symbol m t s l)
unfolding take_symbol
take_symbol-Sound m t s [] w h = (w, h)
take_symbol-Sound m t s (head ∷ rest) w h = (
  w,
  subst
      (λ g. Holds g (record s {
        queue = rest;
        busy = true;
        cur_chars = chars head;
        cur_end = m.start + symbol_end m t head;
      }))
      (sym (play-stage m t head)) h,
)

rest_on-Sound :
    (m : Transmission) (t : Timing) (deadline : ℕ) (s : SerialSender) (a : Answer) (choice : Choice)
    → Wired s
    → Holds (between m.gen m.abort) s
    → Sound (rest_on m t deadline s a choice)
unfolding rest_on
rest_on-Sound m t deadline s a fired w h = (
  w,
  if-elim (λ (p : Position). Holds (stage_of p) s) (leb deadline a.now) _ _ (λ due. h) (λ early. h),
)
rest_on-Sound m t deadline s a woken w h = take_signal-Sound _ _ m.abort s woken w h h
rest_on-Sound m t deadline s a aborted w h = take_signal-Sound _ _ m.abort s aborted w h h

look-Holds :
    (m : Transmission) (t : Timing) (deadline : ℕ) (s : SerialSender)
    → Holds (between m.gen m.abort) s
    → Holds (stage_of (look m t deadline s)) s
unfolding look
look-Holds m t deadline s h =
    let P = λ (p : Position). Holds (stage_of p) s in
    if-elim P s.closed _ _ (λ closed. h)
      (λ running. if-elim P (has_work s) _ _ (λ work. h) (λ nothing. h))

anchor-Holds :
    (m : Transmission) (t : Timing) (now : ℕ) (s : SerialSender)
    → Holds (between m.gen m.abort) s
    → Holds (between (anchor m t now).gen (anchor m t now).abort) s
unfolding anchor
anchor-Holds m t now s h =
    if-elim (λ (n : Transmission). Holds (between n.gen n.abort) s)
      (ltb (m.start + (m.at + t.char_gap)) now) _ _ (λ behind. h) (λ in_time. h)

lifted-ptt :
    (gen c : ℕ) (s : SerialSender)
    → Low s ⊎ Current gen c s
    → (level (write_line s s.key_line false) s.ptt_line ≡ false)
      ⊎ Current gen c (write_line s s.key_line false)
unfolding write_line
lifted-ptt gen c s (inl (key, ptt)) = inl (level-low s s.ptt_line s.key_line ptt)
lifted-ptt gen c s (inr current) = inr current

lift-Holds :
    (m : Transmission) (t : Timing) (es : List Element) (s : SerialSender)
    → Holds (keying m.gen m.abort) s
    → Holds (stage_of (next_mark m t false es)) (write_line s s.key_line false)
unfolding write_line
lift-Holds m t es s (linked, h) =
    subst (λ g. Holds g (write_line s s.key_line false)) (sym (next_mark-stage m t false es))
      (linked, level-dropped s s.key_line, lifted-ptt m.gen m.abort s h)

pub advance-Sound :
    (p : Position) (s : SerialSender) (a : Answer) → Sound (keyer_at p s) → Sound (advance p s a)
unfolding advance write_line finish
advance-Sound idle s a (w, h) = (w, next_job-Holds s h)
advance-Sound (parked c) s a (w, h) = take_signal-Sound idle (parked c) c s a.choice w h h
advance-Sound finished s a h = h
advance-Sound (starting gen c) s a (w, h) = start_transmission-Sound gen c s a w h
advance-Sound (composing m) s a h = h
advance-Sound (choosing m t) s a (w, (linked, key, ptt)) =
    if-elim Sound (not (s.gen == m.gen) || s.closed) _ _
      (λ stale. (w, stale-Low m.gen m.abort s (between-cases m.gen m.abort s key ptt) stale))
      (λ on. take_symbol-Sound m t s s.queue w (linked, key, ptt))
advance-Sound (looking m t deadline) s a (w, h) = (w, look-Holds m t deadline s h)
advance-Sound (resting m t deadline) s a (w, h) = rest_on-Sound m t deadline s a a.choice w h
advance-Sound (resuming m t) s a (w, h) = (w, anchor-Holds m t a.now s h)
advance-Sound (dropping m) s a (w, (linked, key, ptt)) =
    (w, (level-low s s.key_line s.ptt_line key, level-dropped s s.ptt_line))
advance-Sound (before m t e es) s a (w, (linked, key, ptt)) = (
  w,
  wait_until-Holds m s a.now (before m t e es) (ending m.gen) (raising m t e es) (linked, key, ptt)
      (linked, key, ptt) (shut-Low m.gen m.abort s (between-cases m.gen m.abort s key ptt)),
)
advance-Sound (raising m t e es) s a (w, (linked, key, ptt)) =
    try_line-Sound s m.gen s.key_line a.accepted _ w
      (stale-Low m.gen m.abort s (between-cases m.gen m.abort s key ptt))
      (λ on. (linked, inr (now-Current m.gen m.abort s linked on)))
advance-Sound (holding m t es) s a (w, (linked, h)) = (
  w,
  wait_until-Holds m s a.now (holding m t es) (breaking m) (lifting m t es) (linked, h) (linked, h)
      (shut-Low m.gen m.abort s h),
)
advance-Sound (lifting m t es) s a (w, h) = (w, lift-Holds m t es s h)
advance-Sound (breaking m) s a (w, (key, ptt)) =
    (w, (level-dropped s s.key_line, level-low s s.ptt_line s.key_line ptt))
advance-Sound (ending gen) s a (w, h) =
    if-elim (λ (t : SerialSender). Wired t × Low t) (s.gen == gen) _ _ (λ own. (w, h))
      (λ other. (w, h))
