-- ===== src/Morse/Parse.antt =====
-- Canonical text and its parser (internal/morse/morse.go). A rune is its code point, a text the list
-- of its runes, as `[]rune(text)` gives them.
pub mod Laws
pub mod Texts
pub mod Errors
use remoses.Prelude.{
  ℕ, zero, suc, ◌+◌, Bool, true, false, Option, none, some, List, [], ◌∷◌, ◌++◌, ◌==◌,
  if◌then◌else◌, Bytes, length, take,
}
use remoses.Morse.Table.{Element, dot, dash, elements_of, is_letter, upper, upper_string, marks}

pub data Kind : Type 0 where
  char prosign_run space : Kind

pub record Symbol : Type 0 where
  pub kind : Kind
  pub text : Bytes
  pub elements : List Element

-- `Chars`
abbrev pub chars : Symbol → ℕ
chars s = length s.text

-- The results of the parser: the symbols, a `CharError` with its character and offset, or a
-- `SyntaxError` with its offset.
pub data Parsed : Type 0 where
  symbols : List Symbol → Parsed
  char_error : ℕ → ℕ → Parsed
  syntax_error : ℕ → Parsed

abbrev pub nominal : List Element
nominal = dash ∷ dot ∷ dash ∷ []

-- `out = append(out, s)`, in front of what the rest of the loop gives; an error drops it.
unfoldable pub push : Symbol → Parsed → Parsed
push s (symbols l) = symbols (s ∷ l)
push s (char_error r i) = char_error r i
push s (syntax_error i) = syntax_error i

-- How many letters stand at the head: `j - (i+1)` of the inner loop.
unfoldable pub letter_run : Bytes → ℕ
letter_run [] = 0
letter_run (r ∷ rs) = if is_letter r then suc (letter_run rs) else 0

-- `els = append(els, table[upper(rs[k])]...)` for each letter of the run.
unfoldable pub run_marks : Bytes → List Element
run_marks [] = []
run_marks (r ∷ rs) = marks r ++ run_marks rs

abbrev pub unknown : ℕ → Symbol
unknown r = record { kind = char; text = r ∷ []; elements = nominal }

abbrev pub run_symbol : Bytes → Symbol
run_symbol letters = record {
  kind = prosign_run;
  text = b'^' ∷ upper_string letters;
  elements = run_marks letters;
}

abbrev pub space_symbol : Symbol
space_symbol = record { kind = space; text = b' ' ∷ []; elements = [] }

-- What a character that is neither a caret nor a space becomes; `next` is the rest of the loop.
unfoldable pub parse_char : Bool → ℕ → ℕ → Option (List Element) → Parsed → Parsed
unfolding push
parse_char tolerant i r none next = if tolerant then push (unknown r) next else char_error r i
parse_char tolerant i r (some els) next =
    push (record { kind = char; text = upper r ∷ []; elements = els }) next

-- The loop of `parse`, at index `i`. The second argument counts the letters of a prosign that were
-- read already, which `i = j` jumps over.
unfoldable pub parse_from : Bool → ℕ → ℕ → Bytes → Parsed
unfolding push parse_char
parse_from tolerant skip i [] = symbols []
parse_from tolerant (suc skip) i (r ∷ rs) = parse_from tolerant skip (i + 1) rs
parse_from tolerant zero i (r ∷ rs) =
    let next = parse_from tolerant zero (i + 1) rs in
    let behind = parse_from tolerant (letter_run rs) (i + 1) rs in
    if r == b'^'
    then (if letter_run rs == 0
        then (if tolerant then push (unknown r) next else syntax_error i)
        else push (run_symbol (take (letter_run rs) rs)) behind)
    else if r == b' '
    then push space_symbol next
    else parse_char tolerant i r (elements_of (upper r)) next

unfoldable pub parse : Bytes → Bool → Parsed
unfolding parse_from letter_run run_marks
parse text tolerant = parse_from tolerant zero 0 text

abbrev is_symbols : Parsed → Bool
is_symbols (symbols l) = true
is_symbols _ = false

unfoldable pub valid : Bytes → Bool
valid text = is_symbols (parse text false)
