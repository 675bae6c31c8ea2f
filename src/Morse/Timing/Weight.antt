-- ===== src/Morse/Timing/Weight.antt =====
-- Weighting and the length of a message.
use remoses.Prelude.{
  ℕ, zero, suc, ◌+◌, ◌-◌, ◌*◌, ◌/◌, ◌≤◌, ◌≡◌, sym, inl, inr, true, false, List, arith, leb,
  if◌then◌else◌, Bool-cases,
}
use remoses.Prelude.Int.{ℤ, pos, negsuc}
use remoses.Morse.Parse.{Symbol}
use remoses.Morse.Timing.{
  min_weight, max_weight, neutral_weight, unit_duration, effective_weight, heavier, lighter,
  timing_of, new_timing, symbols_time,
}
use remoses.Morse.Timing.Totals.{
  gap_count, mark_count, symbols_loop-heavier, symbols_loop-lighter, WellSpaced,
  gap_count-WellSpaced,
}

-- By how much the marks of a weight are lengthened or shortened.
abbrev pub shift_of : ℕ → ℕ → ℕ
shift_of u w =
    if leb neutral_weight w then u * (w - neutral_weight) / 50 else u * (neutral_weight - w) / 50

pub effective_weight_bounds :
    (weight : ℤ) → (min_weight ≤ effective_weight weight) × (effective_weight weight ≤ max_weight)
unfolding effective_weight
effective_weight_bounds (pos zero) = omega arith
effective_weight_bounds (pos (suc w)) = omega arith
effective_weight_bounds (negsuc w) = omega arith

pub shift_small : (u d : ℕ) → d ≤ 30 → u * d / 50 ≤ u
shift_small u d h = let top : u * d ≤ u * 30 = grind arith in omega arith

-- Total time on either side of the neutral one, whatever the signs.
abbrev pub Within : ℕ → ℕ → ℕ → Type 0
Within a b s = (a ≤ b + s) × (b ≤ a + s)

timing_of-neutral : (n : ℕ) → timing_of (suc n) neutral_weight ≡ heavier (suc n) 0
unfolding timing_of
timing_of-neutral n =
    let none_left : suc n * (neutral_weight - neutral_weight) / 50 ≡ 0 = omega arith in
    rw none_left (ground arith)

timing_of-heavier :
    (n w : ℕ)
    → leb neutral_weight w ≡ true
    → timing_of (suc n) w ≡ heavier (suc n) (suc n * (w - neutral_weight) / 50)
unfolding timing_of
timing_of-heavier n w h = rw h (ground arith)

timing_of-lighter :
    (n w : ℕ)
    → leb neutral_weight w ≡ false
    → timing_of (suc n) w ≡ lighter (suc n) (suc n * (neutral_weight - w) / 50)
unfolding timing_of
timing_of-lighter n w h = rw h (ground arith)

-- `s` times two counts that differ by one at most.
count_Within : (a b s g m : ℕ) → a + s * g ≡ b + s * m → g ≤ m → m ≤ g + 1 → Within a b s
count_Within a b s g m e h k =
    let low : s * g ≤ s * m = grind arith in
    let high : s * m ≤ s * (g + 1) = grind arith in omega arith

timing_of-Within :
    (u w : ℕ) (l : List Symbol)
    → min_weight ≤ w
    → w ≤ max_weight
    → WellSpaced false false l
    → Within
        (symbols_time (timing_of u w) l)
        (symbols_time (timing_of u neutral_weight) l)
        (shift_of u w)
timing_of-Within zero w l lo hi ws = unfold timing_of in omega arith
timing_of-Within (suc n) w l lo hi ws =
    let counts = gap_count-WellSpaced false false l (λ f. absurd (cc f)) ws in
    let g = gap_count false false l in
    let m = mark_count l in
    elim (Bool-cases (leb neutral_weight w)) [
      | inl heavy ↦
          let s = suc n * (w - neutral_weight) / 50 in
          let law =
            symbols_loop-heavier (suc n) s (shift_small (suc n) (w - neutral_weight) (omega arith))
              false false l in
          rw (timing_of-neutral n, timing_of-heavier n w heavy, heavy)
            (unfold symbols_time in count_Within _ _ s g m law (omega arith) (omega arith))
      | inr light ↦
          let s = suc n * (neutral_weight - w) / 50 in
          let law =
            symbols_loop-lighter (suc n) s (shift_small (suc n) (neutral_weight - w) (omega arith))
              false false l in
          rw (timing_of-neutral n, timing_of-lighter n w light, light)
            (unfold symbols_time in
              (let swapped = count_Within _ _ s g m (sym law) (omega arith) (omega arith) in
                (swapped.1, swapped.0)))
    ]

-- At any speed, weighting changes the time of a well spaced message by one shift at most, the amount
-- by which it lengthens or shortens a single mark.
pub new_timing-Within :
    (wpm weight : ℤ) (l : List Symbol)
    → WellSpaced false false l
    → Within
        (symbols_time (new_timing wpm weight) l)
        (symbols_time (new_timing wpm (pos 50)) l)
        (shift_of (unit_duration wpm) (effective_weight weight))
unfolding new_timing
new_timing-Within wpm weight l ws =
    let bounds = effective_weight_bounds weight in
    timing_of-Within (unit_duration wpm) (effective_weight weight) l bounds.0 bounds.1 ws
