-- ===== src/Civ/Bcd/Tests.antt =====
-- Known frames, and the theorems of `Laws` at concrete inputs.
use remoses.Prelude.{◌≡◌, refl, false, none, some, [], ◌∷◌, arith, Bytes, length}
use remoses.Civ.Bcd.{freq_bytes, unbcd_byte, encode_frequency, decode_frequency}
use remoses.Civ.Bcd.Laws.{decode-encode_frequency}

encode_14_mhz : encode_frequency 14_074_000 false ≡ some (0x00 ∷ 0x40 ∷ 0x07 ∷ 0x14 ∷ 0x00 ∷ [])
unfolding encode_frequency
encode_14_mhz = refl

decode_noise : decode_frequency (0x00 ∷ 0x4F ∷ 0x07 ∷ 0x14 ∷ 0x00 ∷ []) ≡ none
unfolding decode_frequency unbcd_byte
decode_noise = refl

decode_14_mhz : decode_frequency (0x00 ∷ 0x40 ∷ 0x07 ∷ 0x14 ∷ 0x00 ∷ []) ≡ some 14_074_000
unfolding decode_frequency unbcd_byte
decode_14_mhz = refl

decode-encode_frequency_example :
    (b : Bytes) × (encode_frequency 14_074_000 false ≡ some b)
    × (decode_frequency b ≡ some 14_074_000)
    × (length b ≡ freq_bytes)
decode-encode_frequency_example = decode-encode_frequency 14_074_000 false (omega arith)
