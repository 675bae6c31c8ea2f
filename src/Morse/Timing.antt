-- ===== src/Morse/Timing.antt =====
-- Element timing (internal/morse/timing.go). Durations are in nanoseconds. The durations of a
-- `Timing` are natural numbers: the weighting shift, which Go keeps as one signed number, is kept by
-- its amount, and added or taken away where Go's is positive or negative. Go's division rounds
-- towards zero, so the amount is the same on both sides. `wpm` and `weight` may be any integer.
pub mod Totals
pub mod Weight
pub mod Paris
use remoses.Prelude.{
  ℕ, zero, suc, ◌+◌, ◌-◌, ◌*◌, ◌/◌, min, max, ◌⊎◌, inl, inr, Bool, true, false, List, [], ◌∷◌, leb,
  ◌==◌, if◌then◌else◌, Bytes,
}
use remoses.Prelude.Int.{ℤ, pos, negsuc}
use remoses.Morse.Parse.{Kind, space, Symbol, Parsed, symbols, char_error, syntax_error, parse}
use remoses.Morse.Table.{Element, dot, dash}

abbrev pub min_weight : ℕ
min_weight = 20

abbrev pub max_weight : ℕ
max_weight = 80

abbrev pub neutral_weight : ℕ
neutral_weight = 50

unfoldable pub unit_duration : ℤ → ℕ
unit_duration (pos zero) = 0
unit_duration (pos (suc n)) = 1_200_000_000 / suc n
unit_duration (negsuc n) = 0

pub record Timing : Type 0 where
  pub unit : ℕ
  pub dit : ℕ
  pub dah : ℕ
  pub element_gap : ℕ
  pub char_gap : ℕ
  pub word_gap : ℕ

-- `Timing{}`
abbrev pub no_timing : Timing
no_timing = record { unit = 0; dit = 0; dah = 0; element_gap = 0; char_gap = 0; word_gap = 0 }

-- The weight that is used: 0 is neutral, and the rest is clamped.
pub effective_weight : ℤ → ℕ
effective_weight (pos zero) = neutral_weight
effective_weight (pos (suc w)) = min (max (suc w) min_weight) max_weight
effective_weight (negsuc w) = min_weight

-- The durations for a unit and a shift of marks by `+ s` and of gaps by `- s`.
abbrev pub heavier : ℕ → ℕ → Timing
heavier unit s = record {
  unit = unit;
  dit = unit + s;
  dah = 3 * unit + s;
  element_gap = unit - s;
  char_gap = 3 * unit - s;
  word_gap = 7 * unit - s;
}

-- The same with the signs of a negative shift.
abbrev pub lighter : ℕ → ℕ → Timing
lighter unit s = record {
  unit = unit;
  dit = unit - s;
  dah = 3 * unit - s;
  element_gap = unit + s;
  char_gap = 3 * unit + s;
  word_gap = 7 * unit + s;
}

pub timing_of : ℕ → ℕ → Timing
timing_of unit w =
    if unit == 0
    then no_timing
    else if leb neutral_weight w
    then heavier unit (unit * (w - neutral_weight) / 50)
    else lighter unit (unit * (neutral_weight - w) / 50)

unfoldable pub new_timing : ℤ → ℤ → Timing
unfolding unit_duration effective_weight timing_of
new_timing wpm weight = timing_of (unit_duration wpm) (effective_weight weight)

pub mark : Timing → Element → ℕ
mark t dash = t.dah
mark t dot = t.dit

-- The loop of `Symbol`: a gap before every mark but the first.
unfoldable pub symbol_loop : Timing → Bool → List Element → ℕ
unfolding mark
symbol_loop t first [] = 0
symbol_loop t first (e ∷ es) =
    (if first then 0 else t.element_gap) + mark t e + symbol_loop t false es

unfoldable pub symbol_time : Timing → Symbol → ℕ
unfolding symbol_loop
symbol_time t s = symbol_loop t true s.elements

unfoldable pub is_space : Kind → Bool
is_space space = true
is_space _ = false

-- The loop of `Symbols`, with what is still to come added to `total`.
unfoldable pub symbols_loop : Timing → Bool → Bool → List Symbol → ℕ
unfolding symbol_time is_space
symbols_loop t keyed prev_char [] = 0
symbols_loop t keyed prev_char (s ∷ l) =
    let after_space = symbols_loop t keyed false l in
    let after_char = symbols_loop t true true l in
    if is_space s.kind
    then (if keyed then t.word_gap else 0) + after_space
    else (if prev_char then t.char_gap else 0) + symbol_time t s + after_char

unfoldable pub symbols_time : Timing → List Symbol → ℕ
unfolding symbols_loop
symbols_time t l = symbols_loop t false false l

pub timed : Timing → Parsed → ℕ ⊎ Parsed
timed t (symbols l) = inl (symbols_time t l)
timed t (char_error r i) = inr (char_error r i)
timed t (syntax_error i) = inr (syntax_error i)

-- `Duration`: the time, or the parser's error.
unfoldable pub duration : Bytes → ℤ → ℤ → ℕ ⊎ Parsed
unfolding timed
duration text wpm weight = timed (new_timing wpm weight) (parse text false)

abbrev time_or_zero : ℕ ⊎ Parsed → ℕ
time_or_zero (inl d) = d
time_or_zero (inr e) = 0

unfoldable pub estimate : Bytes → ℤ → ℤ → ℕ
unfolding timed
estimate text wpm weight = time_or_zero (timed (new_timing wpm weight) (parse text true))
