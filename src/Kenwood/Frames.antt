-- ===== src/Kenwood/Frames.antt =====
-- What the splitter finds.
use mathlib.Core.List.{append-nil, append_assoc}
use remoses.Prelude.{
  ℕ, ◌+◌, ◌≤◌, ◌≡◌, sym, ap, ◌∙◌, ◌≢◌, Bool, true, false, not, Option, some, [], ◌∷◌, ◌++◌, arith,
  ◌==◌, if-true, if-false, Bytes, length, length-append, All, All-append,
}
use remoses.Kenwood.{is_command_byte, trim_start, trim_end, trim_frame, split_loop, split_frames}

-- No byte of a text ends a frame.
abbrev pub Inside : Bytes → Type 0
Inside bytes = All (λ c. (c == b';') ≡ false) bytes

-- Bytes that cannot begin a command.
abbrev pub Rubbish : Bytes → Type 0
Rubbish bytes = All (λ c. is_command_byte c ≡ false) bytes

split_loop-Inside :
    (seen : Bytes) (adv : ℕ) (at_eof : Bool) (xs ys : Bytes)
    → Inside xs
    → split_loop seen adv at_eof (xs ++ ys) ≡ split_loop (seen ++ xs) adv at_eof ys
unfolding split_loop
split_loop-Inside seen adv at_eof [] ys h =
    ap (λ l. split_loop l adv at_eof ys) (sym (append-nil seen))
split_loop-Inside seen adv at_eof (c ∷ xs) ys (inside, h) =
    if-true _ _ (ap not inside)
    ∙ split_loop-Inside (seen ++ c ∷ []) adv at_eof xs ys h
    ∙ ap (λ l. split_loop l adv at_eof ys) (append_assoc seen (c ∷ []) xs)

trim_start-Rubbish :
    (noise : Bytes) (c : ℕ) (body : Bytes)
    → Rubbish noise
    → is_command_byte c ≡ true
    → trim_start (noise ++ c ∷ body) ≡ c ∷ body
unfolding trim_start
trim_start-Rubbish [] c body h begins = if-true _ _ begins
trim_start-Rubbish (x ∷ noise) c body (junk, h) begins =
    if-false _ _ junk ∙ trim_start-Rubbish noise c body h begins

split_loop-semicolon :
    (seen frame rest : Bytes) (c : ℕ) (at_eof : Bool)
    → trim_frame seen ≡ c ∷ frame
    → split_loop seen 0 at_eof (b';' ∷ rest) ≡ (length seen + 1, some (c ∷ frame))
unfolding split_loop
split_loop-semicolon seen frame rest c at_eof trimmed =
    let some_left : (length (trim_frame seen) == 0) ≡ false =
      ap (λ l. length l == 0) trimmed ∙ ground arith in
    let start : 0 + (length seen + 1) ≡ length seen + 1 = omega arith in
    if-false _ _ some_left ∙ (λ i. (start i, some (trimmed i)))

-- A frame that begins like a command and has nothing to trim at its end is found behind any bytes that
-- can begin no command and end no frame, whatever comes behind its semicolon, and the splitter advances
-- right behind that.
pub split_frames-found :
    (noise : Bytes) (c : ℕ) (body rest : Bytes) (at_eof : Bool)
    → Inside noise
    → Rubbish noise
    → is_command_byte c ≡ true
    → Inside (c ∷ body)
    → trim_end (c ∷ body) ≡ c ∷ body
    → split_frames (noise ++ (c ∷ body) ++ b';' ∷ rest) at_eof
      ≡ (length noise + length (c ∷ body) + 1, some (c ∷ body))
unfolding split_frames trim_frame
split_frames-found noise c body rest at_eof inside junk begins inside' ends =
    split_loop-Inside [] 0 at_eof (noise ++ c ∷ body) (b';' ∷ rest)
      (All-append _ noise (c ∷ body) inside inside')
    ∙ split_loop-semicolon (noise ++ c ∷ body) body rest c at_eof
        (ap trim_end (trim_start-Rubbish noise c body junk begins) ∙ ends)
    ∙ ap (λ n. (n + 1, some (c ∷ body))) (length-append noise (c ∷ body))

-- The same for the loop, of what is behind its start.
abbrev Bounded : Bytes → ℕ → Bytes → ℕ × Option Bytes → Type 0
Bounded seen adv bytes r = (r.0 ≤ adv + length seen + length bytes) × (r.1 ≢ some [])
