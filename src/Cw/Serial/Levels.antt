-- ===== src/Cw/Serial/Levels.antt =====
-- The levels of the control lines, and what may be high at each position of the keyer.
use remoses.Prelude.{
  ℕ, ◌≤◌, ◌<◌, ◌≡◌, refl, ◌⊎◌, inl, inr, Bool, true, false, not, ◌||◌, Option, none, some, List,
  arith, ◌==◌,
}
use remoses.Cw.Serial.{
  Line, line_none, line_dtr, line_rts, same_line, SerialSender, write_line, drop_lines,
}
use remoses.Cw.Serial.Keyer.{
  finished, idle, Position, parked, starting, composing, choosing, looking, resting, resuming,
  dropping, before, raising, holding, lifting, breaking, ending, Keyer, is_shut,
}
use remoses.Morse.Parse.{Symbol}

-- The level of a line.
abbrev pub level : SerialSender → Line → Bool
level s line_none = false
level s line_dtr = s.dtr
level s line_rts = s.rts

abbrev pub Low : SerialSender → Type 0
Low s = (level s s.key_line ≡ false) × (level s s.ptt_line ≡ false)

-- The two lines are not the same.
abbrev pub Wired : SerialSender → Type 0
Wired s = same_line s.ptt_line s.key_line ≡ false

pub level-dropped : (s : SerialSender) (l : Line) → level (write_line s l false) l ≡ false
unfolding write_line same_line
level-dropped s line_none = refl
level-dropped s line_dtr = refl
level-dropped s line_rts = refl

-- A line that is low stays low when another is written, and when any is dropped.
pub level-other :
    (s : SerialSender) (k l : Line) (on : Bool)
    → same_line l k ≡ false
    → level s k ≡ false
    → level (write_line s l on) k ≡ false
unfolding write_line same_line
level-other s line_none l on apart low = refl
level-other s line_dtr line_none on apart low = low
level-other s line_dtr line_rts on apart low = low
level-other s line_dtr line_dtr on apart low = absurd (cc apart)
level-other s line_rts line_none on apart low = low
level-other s line_rts line_dtr on apart low = low
level-other s line_rts line_rts on apart low = absurd (cc apart)

pub level-low :
    (s : SerialSender) (k l : Line) → level s k ≡ false → level (write_line s l false) k ≡ false
unfolding write_line same_line
level-low s line_none l low = refl
level-low s line_dtr line_none low = low
level-low s line_dtr line_dtr low = refl
level-low s line_dtr line_rts low = low
level-low s line_rts line_none low = low
level-low s line_rts line_dtr low = low
level-low s line_rts line_rts low = refl

pub drop_lines-Low : (s : SerialSender) → Low (drop_lines s)
unfolding drop_lines write_line
drop_lines-Low s = (
  level-low (write_line s s.key_line false) s.key_line s.ptt_line (level-dropped s s.key_line),
  level-dropped (write_line s s.key_line false) s.ptt_line,
)

-- What a transmission may count on: its number is none to come, and while it is current its channel is
-- the one that an abort closes.
abbrev pub Linked : ℕ → ℕ → SerialSender → Type 0
Linked gen c s = (gen ≤ s.gen) × (s.gen ≡ gen → s.closed ≡ false → c ≡ s.abort_chan)

-- A transmission is the current one.
abbrev pub Current : ℕ → ℕ → SerialSender → Type 0
Current gen c s = (s.gen ≡ gen) × (s.closed ≡ false) × (c ≡ s.abort_chan)

-- What a position may have high: nothing, nothing yet for its transmission, only the line for PTT, or
-- both lines.
pub data Stage : Type 0 where
  off : Stage
  armed between keying : ℕ → ℕ → Stage

abbrev pub stage_of : Position → Stage
stage_of (starting gen c) = armed gen c
stage_of (composing m) = between m.gen m.abort
stage_of (choosing m t) = between m.gen m.abort
stage_of (looking m t deadline) = between m.gen m.abort
stage_of (resting m t deadline) = between m.gen m.abort
stage_of (resuming m t) = between m.gen m.abort
stage_of (dropping m) = between m.gen m.abort
stage_of (before m t e es) = between m.gen m.abort
stage_of (raising m t e es) = between m.gen m.abort
stage_of (holding m t es) = keying m.gen m.abort
stage_of (lifting m t es) = keying m.gen m.abort
stage_of idle = off
stage_of (parked c) = off
stage_of finished = off
stage_of (breaking m) = off
stage_of (ending gen) = off

abbrev pub Holds : Stage → SerialSender → Type 0
Holds off s = Low s
Holds (armed gen c) s = Linked gen c s × Low s
Holds (between gen c) s =
    Linked gen c s × (level s s.key_line ≡ false) × ((level s s.ptt_line ≡ false) ⊎ Current gen c s)
Holds (keying gen c) s = Linked gen c s × (Low s ⊎ Current gen c s)

-- The invariant of the keyer and the sender.
abbrev pub Sound : Keyer → Type 0
Sound k = Wired k.sender × Holds (stage_of k.position) k.sender

-- Whoever drops both lines and counts the generation up keeps it.
pub Holds-Low : (g : Stage) (s t : SerialSender) → Holds g s → Low t → s.gen < t.gen → Holds g t
Holds-Low off s t h low older = low
Holds-Low (armed gen c) s t ((known, linked), h) low older =
    ((omega arith, λ same. absurd (omega arith)), low)
Holds-Low (between gen c) s t ((known, linked), h, h') (key, ptt) older =
    ((omega arith, λ same. absurd (omega arith)), key, inl ptt)
Holds-Low (keying gen c) s t ((known, linked), h) low older =
    ((omega arith, λ same. absurd (omega arith)), inl low)

-- A transmission whose channel is closed, or that is not current, has nothing high.
pub shut-Low : (gen c : ℕ) (s : SerialSender) → Low s ⊎ Current gen c s → is_shut s c ≡ true → Low s
unfolding is_shut
shut-Low gen c s (inl low) shut = low
shut-Low gen c s (inr (same, running, last)) shut = absurd (ground arith)

pub stale-Low :
    (gen c : ℕ) (s : SerialSender)
    → Low s ⊎ Current gen c s
    → (not (s.gen == gen) || s.closed) ≡ true
    → Low s
stale-Low gen c s (inl low) stale = low
stale-Low gen c s (inr (same, running, last)) stale = absurd (ground arith)

pub now-Current :
    (gen c : ℕ) (s : SerialSender)
    → Linked gen c s
    → (not (s.gen == gen) || s.closed) ≡ false
    → Current gen c s
now-Current gen c s (known, linked) test =
    let same : s.gen ≡ gen = ground arith in
    let running : s.closed ≡ false = ground arith in (same, running, linked same running)

-- The two cases of the stage between marks.
pub between-cases :
    (gen c : ℕ) (s : SerialSender)
    → (level s s.key_line ≡ false)
    → (level s s.ptt_line ≡ false) ⊎ Current gen c s
    → Low s ⊎ Current gen c s
between-cases gen c s key (inl ptt) = inl (key, ptt)
between-cases gen c s key (inr current) = inr current

-- What else changes in a sender does not matter.
pub Holds-other :
    (g : Stage) (s : SerialSender) (queue : List Symbol) (wpm : ℕ) (wake : Bool)
    → Holds g s
    → Holds g (record s { queue = queue; wpm = wpm; wake = wake })
Holds-other off s queue wpm wake h = h
Holds-other (armed gen c) s queue wpm wake h = h
Holds-other (between gen c) s queue wpm wake h = h
Holds-other (keying gen c) s queue wpm wake h = h

-- The transmission that a position works on.
abbrev pub task : Stage → Option (ℕ × ℕ)
task off = none
task (armed gen c) = some (gen, c)
task (between gen c) = some (gen, c)
task (keying gen c) = some (gen, c)

-- Both lines are low, or the keyer works on the transmission that is current.
pub Holds-cases :
    (g : Stage) (s : SerialSender)
    → Holds g s
    → Low s ⊎ ((gen : ℕ) × (c : ℕ) × (task g ≡ some (gen, c)) × Current gen c s)
Holds-cases off s low = inl low
Holds-cases (armed gen c) s (linked, low) = inl low
Holds-cases (between gen c) s (linked, key, inl ptt) = inl (key, ptt)
Holds-cases (between gen c) s (linked, key, inr current) = inr (gen, c, refl, current)
Holds-cases (keying gen c) s (linked, inl low) = inl low
Holds-cases (keying gen c) s (linked, inr current) = inr (gen, c, refl, current)
