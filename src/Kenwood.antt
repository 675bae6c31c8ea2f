-- ===== src/Kenwood.antt =====
-- The framing of Kenwood's protocol (internal/rig/backend/kenwood/codec.go): every frame ends in a
-- semicolon. A byte is its number.
pub mod Frames
mod Tests
use remoses.Prelude.{
  ℕ, ◌+◌, Bool, not, ◌&&◌, ◌||◌, Option, none, some, [], ◌∷◌, ◌++◌, ltb, leb, ◌==◌, if◌then◌else◌,
  Bytes, length,
}

-- `isCommandByte`
unfoldable pub is_command_byte : ℕ → Bool
is_command_byte c = (leb b'A' c && leb c b'Z') || (leb b'a' c && leb c b'z') || c == b'?'

-- The bytes that are dropped at the end of a frame.
unfoldable pub is_trailing : ℕ → Bool
is_trailing c = c == 13 || c == 10 || c == 0

-- The two loops of `trimFrame`.
unfoldable pub trim_start : Bytes → Bytes
trim_start [] = []
trim_start (c ∷ cs) = let rest = trim_start cs in if is_command_byte c then c ∷ cs else rest

unfoldable pub trim_end : Bytes → Bytes
trim_end [] = []
trim_end (c ∷ cs) =
    let rest = trim_end cs in if length rest == 0 && is_trailing c then [] else c ∷ rest

unfoldable pub trim_frame : Bytes → Bytes
trim_frame b = trim_end (trim_start b)

-- The loop of `splitFrames`: `seen` is what was read behind `adv`.
unfoldable pub split_loop : Bytes → ℕ → Bool → Bytes → ℕ × Option Bytes
split_loop seen adv at_eof [] =
    if at_eof && ltb 0 (length seen) then (adv + length seen, none) else (adv, none)
split_loop seen adv at_eof (c ∷ cs) =
    let next = adv + (length seen + 1) in
    let empty_frame = split_loop [] next at_eof cs in
    let within = split_loop (seen ++ c ∷ []) adv at_eof cs in
    if not (c == b';')
    then within
    else if length (trim_frame seen) == 0
    then empty_frame
    else (next, some (trim_frame seen))

unfoldable pub split_frames : Bytes → Bool → ℕ × Option Bytes
split_frames bytes at_eof = split_loop [] 0 at_eof bytes
