-- ===== src/Morse/Timing/Totals.antt =====
-- The whole of a transmission: what weighting changes, and how the two ways to time a text agree.
use remoses.Prelude.{
  ℕ, ◌+◌, ◌*◌, ◌≤◌, ◌<◌, ◌≡◌, refl, inl, inr, Bool, true, false, List, [], ◌∷◌, arith,
  if◌then◌else◌, Bool-cases, length,
}
use remoses.Morse.Parse.{Symbol}
use remoses.Morse.Table.{Element}
use remoses.Morse.Timing.{heavier, lighter, symbol_loop, is_space, symbols_loop}

-- How many gaps of any kind the timing loops add.
abbrev pub element_gaps : Bool → List Element → ℕ
element_gaps first [] = 0
element_gaps first (e ∷ es) = (if first then 0 else 1) + element_gaps false es

abbrev pub gap_count : Bool → Bool → List Symbol → ℕ
gap_count keyed prev_char [] = 0
gap_count keyed prev_char (s ∷ l) =
    let after_space = gap_count keyed false l in
    let after_char = gap_count true true l in
    if is_space s.kind
    then (if keyed then 1 else 0) + after_space
    else (if prev_char then 1 else 0) + element_gaps true s.elements + after_char

abbrev pub mark_count : List Symbol → ℕ
mark_count [] = 0
mark_count (s ∷ l) =
    let rest = mark_count l in if is_space s.kind then rest else length s.elements + rest

module _ (u s : ℕ) (small : s ≤ u) where
  symbol_loop-heavier :
      (first : Bool) (es : List Element)
      → symbol_loop (heavier u s) first es + s * element_gaps first es
        ≡ symbol_loop (heavier u 0) first es + s * length es
  unfolding symbol_loop
  symbol_loop-heavier first [] = omega arith
  symbol_loop-heavier first (e ∷ es) = ground (arith, symbol_loop-heavier false es)

  symbol_loop-lighter :
      (first : Bool) (es : List Element)
      → symbol_loop (lighter u s) first es + s * length es
        ≡ symbol_loop (heavier u 0) first es + s * element_gaps first es
  unfolding symbol_loop
  symbol_loop-lighter first [] = omega arith
  symbol_loop-lighter first (e ∷ es) = ground (arith, symbol_loop-lighter false es)

  -- The shift is added once for each mark and taken away once for each gap.
  pub symbols_loop-heavier :
      (k p : Bool) (l : List Symbol)
      → symbols_loop (heavier u s) k p l + s * gap_count k p l
        ≡ symbols_loop (heavier u 0) k p l + s * mark_count l
  unfolding symbols_loop
  symbols_loop-heavier k p [] = omega arith
  symbols_loop-heavier k p (x ∷ l) =
      let spaced = symbols_loop-heavier k false l in
      let keyed = symbols_loop-heavier true true l in
      let own = symbol_loop-heavier true x.elements in
      elim (Bool-cases (is_space x.kind)) [
        | inl e ↦ rw e (ground arith)
        | inr e ↦ rw e (ground arith)
      ]

  pub symbols_loop-lighter :
      (k p : Bool) (l : List Symbol)
      → symbols_loop (lighter u s) k p l + s * mark_count l
        ≡ symbols_loop (heavier u 0) k p l + s * gap_count k p l
  unfolding symbols_loop
  symbols_loop-lighter k p [] = omega arith
  symbols_loop-lighter k p (x ∷ l) =
      let spaced = symbols_loop-lighter k false l in
      let keyed = symbols_loop-lighter true true l in
      let own = symbol_loop-lighter true x.elements in
      elim (Bool-cases (is_space x.kind)) [
        | inl e ↦ rw e (ground arith)
        | inr e ↦ rw e (ground arith)
      ]

-- Words are set apart by one space at a time, and every other symbol has a mark.
abbrev pub WellSpaced : Bool → Bool → List Symbol → Type 0
WellSpaced k p [] = Unit
WellSpaced k p (s ∷ l) =
    (is_space s.kind ≡ true → (k ≡ true → p ≡ true) × WellSpaced k false l)
    × (is_space s.kind ≡ false → (0 < length s.elements) × WellSpaced true true l)

element_gaps-length :
    (es : List Element)
    → (element_gaps false es ≡ length es) × (0 < length es → element_gaps true es + 1 ≡ length es)
element_gaps-length [] = (refl, λ h. absurd (omega arith))
element_gaps-length (e ∷ es) = let rest = element_gaps-length es in (omega arith, λ h. omega arith)

abbrev pub pending : Bool → ℕ
pending p = if p then 1 else 0

-- In a well spaced message every mark is followed by one gap, but for the last.
pub gap_count-WellSpaced :
    (k p : Bool) (l : List Symbol)
    → (p ≡ true → k ≡ true)
    → WellSpaced k p l
    → (gap_count k p l ≤ mark_count l + pending p)
      × (mark_count l + pending p ≤ gap_count k p l + 1)
gap_count-WellSpaced k p [] h w = ground arith
gap_count-WellSpaced k p (x ∷ l) h w = elim (Bool-cases (is_space x.kind)) [
  | inl e ↦
      let ih = gap_count-WellSpaced k false l (λ f. absurd (cc f)) (w.0 e).1 in
      let sent = (w.0 e).0 in rw e (ground (arith, sent))
  | inr e ↦
      let ih = gap_count-WellSpaced true true l (λ _. refl) (w.1 e).1 in
      let inner = (element_gaps-length x.elements).1 (w.1 e).0 in rw e (ground arith)
]
