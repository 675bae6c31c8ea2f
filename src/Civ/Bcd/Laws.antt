-- ===== src/Civ/Bcd/Laws.antt =====
-- Encoding and decoding are inverse.
use Prim.Native.Nat.{bit_and}
use mathlib.Core.List.{reverse-append}
use remoses.Prelude.{
  ℕ, zero, suc, ◌+◌, ◌*◌, ◌/◌, ◌%◌, ◌^◌, ◌≤◌, ◌<◌, ◌≡◌, refl, ap, ◌∙◌, ◌⊎◌, inl, inr, Bool, true,
  false, some, [], ◌∷◌, ◌++◌, reverse, arith, ◌==◌, if◌then◌else◌, ==_iff, passes, passes_at, ◌>>=◌,
  Option-cases, Bytes, length,
}
use remoses.Civ.Bcd.{
  nibbles, encode_digits, decode_digits, freq_bytes, freq_bytes_wide, max_frequency_hz,
  wide_max_frequency_hz, unbcd_byte, encode_frequency, decode_frequency,
}

nibbles_table : passes (λ hi. passes (λ lo. nibbles hi lo == hi * 16 + lo) 10) 10 ≡ true
unfolding passes nibbles
nibbles_table = refl

nibbles-sum : (hi lo : ℕ) → hi < 10 → lo < 10 → nibbles hi lo ≡ hi * 16 + lo
nibbles-sum hi lo h l = (==_iff _ _).0 (passes_at _ 10 lo l (passes_at _ 10 hi h nibbles_table))

low_nibble_table : passes (λ b. bit_and b 0x0F == b % 16) 256 ≡ true
unfolding passes
low_nibble_table = refl

low_nibble : (b : ℕ) → b < 256 → bit_and b 0x0F ≡ b % 16
low_nibble b h = (==_iff _ _).0 (passes_at _ 256 b h low_nibble_table)

unbcd_byte-nibbles :
    (hi lo : ℕ) → hi < 10 → lo < 10 → unbcd_byte (nibbles hi lo) ≡ some (hi * 10 + lo)
unfolding unbcd_byte
unbcd_byte-nibbles hi lo h l =
    rw (nibbles-sum hi lo h l) (ground (arith, low_nibble (hi * 16 + lo) (omega arith)))

-- 100 to the power `n`: the values below it are those of `n` bytes.
abbrev pub span : ℕ → ℕ
span zero = 1
span (suc n) = 100 * span n

decode_digits-append :
    (hz : ℕ) (xs ys : Bytes)
    → decode_digits hz (xs ++ ys) ≡ (decode_digits hz xs >>= λ h. decode_digits h ys)
unfolding decode_digits
decode_digits-append hz [] ys = refl
decode_digits-append hz (x ∷ xs) ys = elim (Option-cases (unbcd_byte x)) [
  | inl e ↦ rw e
  | inr (v, e) ↦ rw e (decode_digits-append ((hz * 100 + v) % 2 ^ 64) xs ys)
]

decode_digits-snoc :
    (b : ℕ) (bs : Bytes)
    → decode_digits 0 (reverse (b ∷ bs))
      ≡ (decode_digits 0 (reverse bs) >>= λ h. decode_digits h (b ∷ []))
decode_digits-snoc b bs =
    ap (decode_digits 0) (reverse-append (b ∷ []) bs) ∙ decode_digits-append 0 (reverse bs) (b ∷ [])

length-encode_digits : (n hz : ℕ) → length (encode_digits n hz) ≡ n
unfolding encode_digits
length-encode_digits zero hz = refl
length-encode_digits (suc n) hz = ap suc (length-encode_digits n (hz / 10 / 10))

decode-encode_digits :
    (n hz : ℕ)
    → hz < span n
    → hz < 2 ^ 64
    → decode_digits 0 (reverse (encode_digits n hz)) ≡ some hz
unfolding encode_digits decode_digits
decode-encode_digits zero hz h w = let e : hz ≡ 0 = omega arith in rw e
decode-encode_digits (suc n) hz h w =
    decode_digits-snoc _ (encode_digits n (hz / 10 / 10))
    ∙ rw (decode-encode_digits n (hz / 10 / 10) (omega arith) (omega arith)) (
        rw (unbcd_byte-nibbles (hz / 10 % 10) (hz % 10) (omega arith) (omega arith))
          (ap some (omega arith)))

decode_frequency-digits :
    (b : Bytes)
    → (length b ≡ freq_bytes) ⊎ (length b ≡ freq_bytes_wide)
    → decode_frequency b ≡ decode_digits 0 (reverse b)
unfolding decode_frequency
decode_frequency-digits b h = ground arith

decode-encode_width :
    (n hz : ℕ)
    → (n ≡ freq_bytes) ⊎ (n ≡ freq_bytes_wide)
    → hz < span n
    → hz < 2 ^ 64
    → decode_frequency (encode_digits n hz) ≡ some hz
decode-encode_width n hz w h k =
    decode_frequency-digits (encode_digits n hz) (rw (length-encode_digits n hz) w)
    ∙ decode-encode_digits n hz h k

-- A frequency that fits the field is sent as five bytes, or six in the wide form, and is read back.
pub decode-encode_frequency :
    (hz : ℕ) (wide : Bool)
    → hz ≤ (if wide then wide_max_frequency_hz else max_frequency_hz)
    → (b : Bytes) × (encode_frequency hz wide ≡ some b)
      × (decode_frequency b ≡ some hz)
      × (length b ≡ (if wide then freq_bytes_wide else freq_bytes))
unfolding encode_frequency
decode-encode_frequency hz true h = (
  encode_digits 6 hz,
  ground arith,
  decode-encode_width 6 hz (inr refl) (omega arith) (omega arith),
  length-encode_digits 6 hz,
)
decode-encode_frequency hz false h = (
  encode_digits 5 hz,
  ground arith,
  decode-encode_width 5 hz (inl refl) (omega arith) (omega arith),
  length-encode_digits 5 hz,
)
