-- ===== src/Kenwood/Tests.antt =====
-- Tests and examples of the framing.
use remoses.Prelude.{◌≡◌, refl, false, some, [], ◌∷◌, ◌++◌}
use remoses.Kenwood.{
  is_command_byte, is_trailing, trim_start, trim_end, trim_frame, split_loop, split_frames,
}
use remoses.Kenwood.Frames.{split_frames-found}

-- "FA1;" behind a byte of noise and in front of "MD".
split_frames-found_example :
    split_frames ((255 ∷ []) ++ (b'F' ∷ b'A' ∷ b'1' ∷ []) ++ b';' ∷ b'M' ∷ b'D' ∷ []) false
    ≡ (5, some (b'F' ∷ b'A' ∷ b'1' ∷ []))
unfolding is_command_byte trim_end is_trailing
split_frames-found_example =
    split_frames-found (255 ∷ []) b'F' (b'A' ∷ b'1' ∷ []) (b'M' ∷ b'D' ∷ []) false (refl, tt)
      (refl, tt) refl (refl, (refl, (refl, tt))) refl

-- Empty frames are swallowed.
semicolons :
    split_frames (b';' ∷ b';' ∷ b'I' ∷ b'D' ∷ b';' ∷ []) false ≡ (5, some (b'I' ∷ b'D' ∷ []))
unfolding split_frames split_loop trim_frame trim_start trim_end is_command_byte is_trailing
semicolons = refl
