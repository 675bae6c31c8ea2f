-- ===== src/Civ/Bcd.antt =====
-- Packed binary-coded decimal (internal/rig/backend/civ/bcd.go).
-- A byte is a number below 256; an `int` or `uint64` is a natural number, and the `uint64`
-- arithmetic of the decoder keeps its wrap-around.
pub mod Laws
pub mod Tests
use Prim.Native.Nat.{bit_and, bit_or}
use remoses.Prelude.{
  ℕ, zero, suc, ◌+◌, ◌*◌, ◌/◌, ◌%◌, ◌^◌, Bool, not, ◌&&◌, ◌||◌, Option, none, some, List, [], ◌∷◌,
  reverse, ltb, ◌==◌, if◌then◌else◌, ◌>>=◌, Bytes, length,
}

abbrev pub freq_bytes : ℕ
freq_bytes = 5

abbrev pub freq_bytes_wide : ℕ
freq_bytes_wide = 6

abbrev pub max_frequency_hz : ℕ
max_frequency_hz = 9_999_999_999

abbrev pub wide_max_frequency_hz : ℕ
wide_max_frequency_hz = 999_999_999_999

-- `byte(hi<<4 | lo)`
nibbles : ℕ → ℕ → ℕ
nibbles hi lo = bit_or (hi * 16) lo % 256

pub bcd_byte : ℕ → ℕ
unfolding nibbles
bcd_byte v = nibbles (v / 10) (v % 10)

pub unbcd_byte : ℕ → Option ℕ
unbcd_byte b =
    let hi = b / 16 in
    let lo = bit_and b 0x0F in if ltb 9 hi || ltb 9 lo then none else some (hi * 10 + lo)

-- `[2]byte` as a pair
unfoldable pub encode_bcd2 : ℕ → ℕ × ℕ
encode_bcd2 v = (bcd_byte (v / 100), bcd_byte (v % 100))

unfoldable pub decode_bcd2 : Bytes → Option ℕ
decode_bcd2 (b0 ∷ b1 ∷ []) = do hi ← unbcd_byte b0; lo ← unbcd_byte b1; some (hi * 100 + lo)
decode_bcd2 _ = none

-- The loop of `encodeFrequency`, over the bytes of `out` still to fill.
encode_digits : ℕ → ℕ → Bytes
unfolding nibbles
encode_digits zero hz = []
encode_digits (suc n) hz = nibbles (hz / 10 % 10) (hz % 10) ∷ encode_digits n (hz / 10 / 10)

unfoldable pub encode_frequency : ℕ → Bool → Option Bytes
unfolding encode_digits
encode_frequency hz wide =
    let n = if wide then freq_bytes_wide else freq_bytes in
    let limit = if wide then wide_max_frequency_hz else max_frequency_hz in
    if ltb limit hz then none else some (encode_digits n hz)

-- The loop of `decodeFrequency`, over the bytes from the last to the first.
decode_digits : ℕ → Bytes → Option ℕ
decode_digits hz [] = some hz
decode_digits hz (b ∷ bs) = do v ← unbcd_byte b; decode_digits ((hz * 100 + v) % 2 ^ 64) bs

unfoldable pub decode_frequency : Bytes → Option ℕ
unfolding decode_digits
decode_frequency b =
    if not (length b == freq_bytes) && not (length b == freq_bytes_wide)
    then none
    else decode_digits 0 (reverse b)
