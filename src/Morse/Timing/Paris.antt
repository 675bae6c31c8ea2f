-- ===== src/Morse/Timing/Paris.antt =====
-- The PARIS standard: the word and its trailing space are exactly 50 dot units.
use remoses.Prelude.{
  ℕ, ◌-◌, ◌*◌, ◌≤◌, ◌≡◌, refl, ap, inl, false, List, [], ◌∷◌, arith, runes, Bytes,
}
use remoses.Prelude.Int.{ℤ}
use remoses.Morse.Parse.{char, Symbol, symbols, space_symbol, parse}
use remoses.Morse.Table.{dot, dash, elements_of, is_letter, upper, upper_string}
use remoses.Morse.Timing.{
  min_weight, max_weight, neutral_weight, unit_duration, effective_weight, timing_of, new_timing,
  symbols_time, duration,
}
use remoses.Morse.Timing.Weight.{effective_weight_bounds, shift_small}

abbrev pub paris : Bytes
paris = runes "PARIS "

abbrev paris_symbols : List Symbol
paris_symbols =
    record { kind = char; text = b'P' ∷ []; elements = dot ∷ dash ∷ dash ∷ dot ∷ [] }
    ∷ record { kind = char; text = b'A' ∷ []; elements = dot ∷ dash ∷ [] }
    ∷ record { kind = char; text = b'R' ∷ []; elements = dot ∷ dash ∷ dot ∷ [] }
    ∷ record { kind = char; text = b'I' ∷ []; elements = dot ∷ dot ∷ [] }
    ∷ record { kind = char; text = b'S' ∷ []; elements = dot ∷ dot ∷ dot ∷ [] }
    ∷ space_symbol
    ∷ []

parse-paris : parse paris false ≡ symbols paris_symbols
unfolding parse elements_of upper upper_string is_letter
parse-paris = refl

timing_of-paris :
    (u w : ℕ)
    → min_weight ≤ w
    → w ≤ max_weight
    → symbols_time (timing_of u w) paris_symbols ≡ 50 * u
unfolding timing_of symbols_time
timing_of-paris u w lo hi =
    ground (arith, shift_small u (w - neutral_weight), shift_small u (neutral_weight - w))

-- "PARIS " takes 50 dot units at every speed and at every weight.
pub duration-paris : (wpm weight : ℤ) → duration paris wpm weight ≡ inl (50 * unit_duration wpm)
unfolding duration new_timing
duration-paris wpm weight =
    let bounds = effective_weight_bounds weight in
    rw parse-paris
      (ap inl (timing_of-paris (unit_duration wpm) (effective_weight weight) bounds.0 bounds.1))
