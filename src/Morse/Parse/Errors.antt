-- ===== src/Morse/Parse/Errors.antt =====
-- Where the parser's errors point.
use remoses.Prelude.{
  ℕ, zero, suc, ◌+◌, ◌≡◌, refl, ap, inl, inr, false, Option, none, some, List, [], ◌∷◌, ◌++◌, arith,
  ◌==◌, Bool-cases, ==_iff, Bytes, length,
}
use remoses.Morse.Parse.{
  Symbol, Parsed, symbols, char_error, syntax_error, push, letter_run, space_symbol, parse_char,
  parse_from, parse,
}
use remoses.Morse.Table.{Element, elements_of, upper}

-- An error's offset is the index of the rune it speaks of, which the strict parser cannot take: a
-- character with no elements, or a caret with no letter behind it.
abbrev pub Blames : ℕ → Bytes → Parsed → Type 0
Blames i text (symbols l) = Unit
Blames i text (char_error r off) =
    (before : Bytes) × (after : Bytes) × (text ≡ before ++ r ∷ after)
    × (off ≡ i + length before)
    × (elements_of (upper r) ≡ none)
Blames i text (syntax_error off) =
    (before : Bytes) × (after : Bytes) × (text ≡ before ++ b'^' ∷ after)
    × (off ≡ i + length before)
    × (letter_run after ≡ 0)

Blames-cons : (i r : ℕ) (rs : Bytes) (p : Parsed) → Blames (i + 1) rs p → Blames i (r ∷ rs) p
Blames-cons i r rs (symbols l) h = tt
Blames-cons i r rs (char_error c off) h =
    let (before, after, e, at, bad) = h in (r ∷ before, after, ap (◌∷◌ r) e, omega arith, bad)
Blames-cons i r rs (syntax_error off) h =
    let (before, after, e, at, bad) = h in (r ∷ before, after, ap (◌∷◌ r) e, omega arith, bad)

push-Blames :
    (s : Symbol) (i r : ℕ) (rs : Bytes) (p : Parsed)
    → Blames (i + 1) rs p
    → Blames i (r ∷ rs) (push s p)
unfolding push
push-Blames s i r rs (symbols l) h = tt
push-Blames s i r rs (char_error c off) h = Blames-cons i r rs (char_error c off) h
push-Blames s i r rs (syntax_error off) h = Blames-cons i r rs (syntax_error off) h

parse_char-Blames :
    (i r : ℕ) (rs : Bytes) (o : Option (List Element)) (p : Parsed)
    → elements_of (upper r) ≡ o
    → Blames (i + 1) rs p
    → Blames i (r ∷ rs) (parse_char false i r o p)
unfolding parse_char
parse_char-Blames i r rs none p e h = ([], rs, refl, omega arith, e)
parse_char-Blames i r rs (some els) p e h = push-Blames _ i r rs p h

parse_from-Blames : (skip i : ℕ) (rs : Bytes) → Blames i rs (parse_from false skip i rs)
unfolding parse_from
parse_from-Blames zero i [] = tt
parse_from-Blames (suc skip) i [] = tt
parse_from-Blames (suc skip) i (r ∷ rs) =
    Blames-cons i r rs (parse_from false skip (i + 1) rs) (parse_from-Blames skip (i + 1) rs)
parse_from-Blames zero i (r ∷ rs) = elim (Bool-cases (r == b'^')) [
  | inl caret ↦ rw caret (elim (Bool-cases (letter_run rs == 0)) [
    | inl stray ↦
        rw stray
          ([], rs, ap (λ c. c ∷ rs) ((==_iff r b'^').0 caret), omega arith, (==_iff _ 0).0 stray)
    | inr run ↦ rw run (push-Blames _ i r rs _ (parse_from-Blames (letter_run rs) (i + 1) rs))
  ])
  | inr other ↦ rw other (elim (Bool-cases (r == b' ')) [
    | inl gap ↦ rw gap (push-Blames space_symbol i r rs _ (parse_from-Blames zero (i + 1) rs))
    | inr letter ↦ rw letter (
        parse_char-Blames i r rs (elements_of (upper r)) _ refl (parse_from-Blames zero (i + 1) rs))
  ])
]

-- A failed parse names a rune of the text at its offset: for a character error one with no entry in
-- the element table, for a syntax error a caret that no letter follows.
pub parse-Blames : (text : Bytes) → Blames 0 text (parse text false)
unfolding parse
parse-Blames text = parse_from-Blames zero 0 text
