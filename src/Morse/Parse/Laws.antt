-- ===== src/Morse/Parse/Laws.antt =====
-- How the two modes of the parser agree.
use remoses.Prelude.{
  ℕ, zero, suc, ◌+◌, ◌≡◌, refl, inl, inr, true, false, Option, none, some, List, [], ◌∷◌, ◌==◌,
  Bool-cases, Bytes,
}
use remoses.Morse.Parse.{
  Symbol, Parsed, symbols, char_error, syntax_error, push, letter_run, space_symbol, parse_char,
  parse_from, parse,
}
use remoses.Morse.Table.{Element, elements_of, upper}

pub push-eq-symbols :
    (s : Symbol) (p : Parsed) (l : List Symbol)
    → push s p ≡ symbols l
    → (rest : List Symbol) × (p ≡ symbols rest) × (l ≡ s ∷ rest)
unfolding push
push-eq-symbols s (symbols m) l e = (m, refl, cc)
push-eq-symbols s (char_error r i) l e = cc
push-eq-symbols s (syntax_error i) l e = cc

-- Where the strict mode succeeds, the tolerant one gives the same symbols.
abbrev Agrees : Parsed → Parsed → Type 0
Agrees strict lax = (l : List Symbol) → strict ≡ symbols l → lax ≡ symbols l

push-Agrees : (s : Symbol) (p q : Parsed) → Agrees p q → Agrees (push s p) (push s q)
push-Agrees s p q h l e =
    let (rest, ep, el) = push-eq-symbols s p l e in rw (h rest ep, el) (unfold push in refl)

parse_char-Agrees :
    (i r : ℕ) (o : Option (List Element)) (p q : Parsed)
    → Agrees p q
    → Agrees (parse_char false i r o p) (parse_char true i r o q)
unfolding parse_char
parse_char-Agrees i r none p q h = λ l e. cc e
parse_char-Agrees i r (some els) p q h = push-Agrees _ p q h

parse_from-Agrees :
    (skip i : ℕ) (rs : Bytes) → Agrees (parse_from false skip i rs) (parse_from true skip i rs)
unfolding parse_from
parse_from-Agrees zero i [] = λ l e. e
parse_from-Agrees (suc skip) i [] = λ l e. e
parse_from-Agrees (suc skip) i (r ∷ rs) = parse_from-Agrees skip (i + 1) rs
parse_from-Agrees zero i (r ∷ rs) = elim (Bool-cases (r == b'^')) [
  | inl caret ↦ rw caret (elim (Bool-cases (letter_run rs == 0)) [
    | inl stray ↦ rw stray (λ l e. cc e)
    | inr run ↦ rw run (push-Agrees _ _ _ (parse_from-Agrees (letter_run rs) (i + 1) rs))
  ])
  | inr other ↦ rw other (elim (Bool-cases (r == b' ')) [
    | inl gap ↦ rw gap (push-Agrees space_symbol _ _ (parse_from-Agrees zero (i + 1) rs))
    | inr letter ↦
        rw letter
          (parse_char-Agrees i r (elements_of (upper r)) _ _ (parse_from-Agrees zero (i + 1) rs))
  ])
]

-- The tolerant mode never fails, whatever the text.
abbrev Succeeds : Parsed → Type 0
Succeeds p = (l : List Symbol) × (p ≡ symbols l)

push-Succeeds : (s : Symbol) (p : Parsed) → Succeeds p → Succeeds (push s p)
unfolding push
push-Succeeds s p (l, e) = (s ∷ l, rw e)

parse_char-Succeeds :
    (i r : ℕ) (o : Option (List Element)) (p : Parsed)
    → Succeeds p
    → Succeeds (parse_char true i r o p)
unfolding parse_char
parse_char-Succeeds i r none p h = push-Succeeds _ p h
parse_char-Succeeds i r (some els) p h = push-Succeeds _ p h

parse_from-Succeeds : (skip i : ℕ) (rs : Bytes) → Succeeds (parse_from true skip i rs)
unfolding parse_from
parse_from-Succeeds zero i [] = ([], refl)
parse_from-Succeeds (suc skip) i [] = ([], refl)
parse_from-Succeeds (suc skip) i (r ∷ rs) = parse_from-Succeeds skip (i + 1) rs
parse_from-Succeeds zero i (r ∷ rs) = elim (Bool-cases (r == b'^')) [
  | inl caret ↦ rw caret (elim (Bool-cases (letter_run rs == 0)) [
    | inl stray ↦ rw stray (push-Succeeds _ _ (parse_from-Succeeds zero (i + 1) rs))
    | inr run ↦ rw run (push-Succeeds _ _ (parse_from-Succeeds (letter_run rs) (i + 1) rs))
  ])
  | inr other ↦ rw other (elim (Bool-cases (r == b' ')) [
    | inl gap ↦ rw gap (push-Succeeds space_symbol _ (parse_from-Succeeds zero (i + 1) rs))
    | inr letter ↦
        rw letter
          (parse_char-Succeeds i r (elements_of (upper r)) _ (parse_from-Succeeds zero (i + 1) rs))
  ])
]

-- The tolerant parse gives symbols for every text, and where the strict parse succeeds, the same.
pub parse-tolerant :
    (text : Bytes)
    → (l : List Symbol) × (parse text true ≡ symbols l)
      × ((m : List Symbol) → parse text false ≡ symbols m → m ≡ l)
unfolding parse
parse-tolerant text =
    let (l, e) = parse_from-Succeeds zero 0 text in
    (l, e, λ m f. cc (e, parse_from-Agrees zero 0 text m f))
