-- ===== src/Morse/Tests.antt =====
-- Known texts, and the theorems at concrete inputs.
use remoses.Prelude.{◌*◌, ◌≡◌, refl, inl, true, false, some, List, [], ◌∷◌, arith, runes, Bytes}
use remoses.Prelude.Int.{pos}
use remoses.Morse.Parse.{
  char_error, char, prosign_run, Symbol, symbols, syntax_error, space_symbol, parse,
}
use remoses.Morse.Parse.Errors.{Blames, parse-Blames}
use remoses.Morse.Parse.Laws.{parse-tolerant}
use remoses.Morse.Parse.Texts.{texts, parse-texts}
use remoses.Morse.Table.{is_letter, dot, dash, elements_of, upper, upper_string, marks, encode}
use remoses.Morse.Timing.{
  unit_duration, effective_weight, new_timing, is_space, symbols_time, duration,
}
use remoses.Morse.Timing.Paris.{paris, duration-paris}
use remoses.Morse.Timing.Weight.{shift_of, Within, new_timing-Within}

abbrev call : Bytes
call = runes "cq ^ar"

abbrev call_symbols : List Symbol
call_symbols =
    record { kind = char; text = b'C' ∷ []; elements = dash ∷ dot ∷ dash ∷ dot ∷ [] }
    ∷ record { kind = char; text = b'Q' ∷ []; elements = dash ∷ dash ∷ dot ∷ dash ∷ [] }
    ∷ space_symbol
    ∷ record {
      kind = prosign_run;
      text = runes "^AR";
      elements = dot ∷ dash ∷ dot ∷ dash ∷ dot ∷ [];
    }
    ∷ []

parse-call : parse call false ≡ symbols call_symbols
unfolding parse elements_of upper upper_string is_letter marks
parse-call = refl

parse-errors :
    (parse (runes "A%") false ≡ char_error b'%' 1) × (parse (runes "A ^1") false ≡ syntax_error 2)
unfolding parse elements_of upper is_letter
parse-errors = (refl, refl)

encode_m : encode b'm' ≡ some (dash ∷ dash ∷ [])
unfolding encode
encode_m = refl

parse-texts_example : texts call_symbols ≡ upper_string call
parse-texts_example = parse-texts call call_symbols parse-call

parse-Blames_example : Blames 0 (runes "A%") (parse (runes "A%") false)
parse-Blames_example = parse-Blames (runes "A%")

parse-tolerant_example :
    (l : List Symbol) × (parse call true ≡ symbols l)
    × ((m : List Symbol) → parse call false ≡ symbols m → m ≡ l)
parse-tolerant_example = parse-tolerant call

duration-paris_example : duration paris (pos 20) (pos 65) ≡ inl (50 * unit_duration (pos 20))
duration-paris_example = duration-paris (pos 20) (pos 65)

new_timing-Within_example :
    Within
      (symbols_time (new_timing (pos 20) (pos 80)) call_symbols)
      (symbols_time (new_timing (pos 20) (pos 50)) call_symbols)
      (shift_of (unit_duration (pos 20)) (effective_weight (pos 80)))
unfolding is_space
new_timing-Within_example = new_timing-Within (pos 20) (pos 80) call_symbols (ground arith)
