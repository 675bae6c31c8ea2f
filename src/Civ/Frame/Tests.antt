-- ===== src/Civ/Frame/Tests.antt =====
-- `Split` on known input, and the theorems at concrete inputs.
use remoses.Prelude.{◌+◌, ◌≡◌, refl, false, none, some, [], ◌∷◌, ◌++◌, arith, Bytes, length}
use remoses.Civ.Frame.{split, Rig, frame}
use remoses.Civ.Frame.Laws.{TokenOf, split-TokenOf}
use remoses.Civ.Frame.Sync.{run, split-frame}

abbrev ic7610 : Rig
ic7610 = record { rig_addr = 0x98; ctrl_addr = 0xE0 }

abbrev noisy : Bytes
noisy = 0x00 ∷ 0x31 ∷ 0xFE ∷ 0xFE ∷ 0xFE ∷ 0xFE ∷ 0x98 ∷ 0xE0 ∷ 0x03 ∷ 0xFD ∷ 0xFE ∷ []

split-noisy : split noisy false ≡ (10, some (0xFE ∷ 0xFE ∷ 0x98 ∷ 0xE0 ∷ 0x03 ∷ 0xFD ∷ []))
unfolding split
split-noisy = refl

split-runt : split (0xFE ∷ 0xFE ∷ 0xFD ∷ 0x01 ∷ []) false ≡ (3, none)
unfolding split
split-runt = refl

split-cut_short : split (0xFE ∷ 0xFE ∷ 0x98 ∷ 0xE0 ∷ 0xFE ∷ 0xFE ∷ []) false ≡ (4, none)
unfolding split
split-cut_short = refl

abbrev partial : Bytes
partial = 0xFE ∷ 0xFE ∷ 0x98 ∷ []

split-waiting : (split partial false).0 ≡ 0
unfolding split
split-waiting = refl

split-TokenOf_example : TokenOf noisy (split noisy false)
split-TokenOf_example = split-TokenOf noisy false

split-frame_example :
    split (0x00 ∷ 0x31 ∷ run 2 (frame ic7610 0x03 [] ++ 0xFE ∷ [])) false
    ≡ (2 + 2 + length (frame ic7610 0x03 []), some (frame ic7610 0x03 []))
split-frame_example =
    split-frame ic7610 0x03 [] (0x00 ∷ 0x31 ∷ []) (0xFE ∷ []) 2 false (omega arith) (omega arith)
