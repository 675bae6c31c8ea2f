-- ===== src/Morse/Parse/Texts.antt =====
-- What the parser keeps of its text.
use remoses.Prelude.{
  ℕ, zero, suc, ◌+◌, ◌≡◌, refl, ap, ◌∙◌, inl, inr, false, Option, none, some, List, [], ◌∷◌, ◌++◌,
  arith, ◌==◌, Bool-cases, ==_iff, Bytes, take, drop, take-append-drop,
}
use remoses.Morse.Parse.{
  char, Symbol, Parsed, symbols, push, letter_run, run_symbol, space_symbol, parse_char, parse_from,
  parse,
}
use remoses.Morse.Parse.Laws.{push-eq-symbols}
use remoses.Morse.Table.{Element, elements_of, upper, upper_string}

-- The canonical text of a list of symbols.
abbrev pub texts : List Symbol → Bytes
texts [] = []
texts (s ∷ l) = s.text ++ texts l

upper_string-append : (xs ys : Bytes) → upper_string (xs ++ ys) ≡ upper_string xs ++ upper_string ys
unfolding upper_string
upper_string-append [] ys = refl
upper_string-append (x ∷ xs) ys = ap (◌∷◌ (upper x)) (upper_string-append xs ys)

-- What the symbols keep of the text behind a jump over `skip` letters.
abbrev Keeps : ℕ → Bytes → Parsed → Type 0
Keeps skip rs p = (l : List Symbol) → p ≡ symbols l → texts l ≡ upper_string (drop skip rs)

push-Keeps :
    (s : Symbol) (p : Parsed) (rs before : Bytes) (skip : ℕ)
    → s.text ≡ upper_string before
    → Keeps skip rs p
    → (l : List Symbol) → push s p ≡ symbols l
    → texts l ≡ upper_string (before ++ drop skip rs)
push-Keeps s p rs before skip hs h l e =
    let (rest, ep, el) = push-eq-symbols s p l e in
    rw (el, upper_string-append before (drop skip rs)) (rw (hs, h rest ep))

parse_char-Keeps :
    (i r : ℕ) (rs : Bytes) (o : Option (List Element)) (p : Parsed)
    → Keeps zero rs p
    → (l : List Symbol) → parse_char false i r o p ≡ symbols l
    → texts l ≡ upper_string (r ∷ rs)
unfolding parse_char upper_string
parse_char-Keeps i r rs none p h l e = absurd (cc e)
parse_char-Keeps i r rs (some els) p h l e =
    push-Keeps (record { kind = char; text = upper r ∷ []; elements = els }) p rs (r ∷ []) zero refl
      h l e

parse_from-Keeps : (skip i : ℕ) (rs : Bytes) → Keeps skip rs (parse_from false skip i rs)
unfolding parse_from upper_string
parse_from-Keeps zero i [] = λ l e. ground arith
parse_from-Keeps (suc skip) i [] = λ l e. ground arith
parse_from-Keeps (suc skip) i (r ∷ rs) = parse_from-Keeps skip (i + 1) rs
parse_from-Keeps zero i (r ∷ rs) = elim (Bool-cases (r == b'^')) [
  | inl caret ↦ rw caret (elim (Bool-cases (letter_run rs == 0)) [
    | inl stray ↦ rw stray (λ l e. absurd (cc e))
    | inr run ↦ rw run (λ l e.
        let kept =
          push-Keeps (run_symbol (take (letter_run rs) rs)) _ rs (b'^' ∷ take (letter_run rs) rs)
            (letter_run rs) refl (parse_from-Keeps (letter_run rs) (i + 1) rs) l e in
        rw (take-append-drop (letter_run rs) rs) at kept ∙ rw ((==_iff r b'^').0 caret))
  ])
  | inr other ↦ rw other (elim (Bool-cases (r == b' ')) [
    | inl gap ↦ rw gap (λ l e.
        push-Keeps space_symbol _ rs (b' ' ∷ []) zero refl (parse_from-Keeps zero (i + 1) rs) l e
        ∙ rw ((==_iff r b' ').0 gap))
    | inr letter ↦
        rw letter
          (parse_char-Keeps i r rs (elements_of (upper r)) _ (parse_from-Keeps zero (i + 1) rs))
  ])
]

-- The symbols of a text spell that text, upper-cased: nothing is lost, added or moved.
pub parse-texts :
    (text : Bytes) (l : List Symbol) → parse text false ≡ symbols l → texts l ≡ upper_string text
unfolding parse
parse-texts text l e = parse_from-Keeps zero 0 text l e
