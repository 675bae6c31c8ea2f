-- ===== src/Cw/Chunk.antt =====
-- Validation of canonical text and its division into chunks (internal/cw/chunk.go). Text is a list of
-- runes. What a rig gets is bytes: `encode`, the backend's `EncodeProsigns`, turns a text into them or
-- fails with an error of its own type.
pub mod Cuts
pub mod Laws
use remoses.Prelude.{
  ℕ, zero, suc, ◌+◌, ◌-◌, ◌⊎◌, inl, inr, Bool, false, ◌&&◌, ◌||◌, Option, none, some, List, [], ◌∷◌,
  ◌++◌, ltb, leb, ◌==◌, if◌then◌else◌, Bytes, length, take, drop,
}

-- The errors: `CharError` with its character and offset, an encoding failure, a unit that no chunk can
-- hold with its encoded length, an unusable maximum.
pub data Fault {ℓ} (E : Type ℓ) : Type ℓ where
  char_error : ℕ → ℕ → Fault E
  encoding : Bytes → E → Fault E
  too_long : Bytes → ℕ → Fault E
  unusable : Fault E

pub record Chunk : Type 0 where
  pub canon : Bytes
  pub encoded : Bytes
  pub chars : ℕ
  pub id : ℕ

pub record Piece : Type 0 where
  pub canon : Bytes
  pub encoded : Bytes

unfoldable pub is_letter : ℕ → Bool
is_letter r = (leb b'A' r && leb r b'Z') || (leb b'a' r && leb r b'z')

unfoldable pub ascii_upper_rune : ℕ → ℕ
ascii_upper_rune r = if leb b'a' r && leb r b'z' then r - b'a' + b'A' else r

unfoldable pub ascii_lower_rune : ℕ → ℕ
ascii_lower_rune r = if leb b'A' r && leb r b'Z' then r - b'A' + b'a' else r

unfoldable pub ascii_upper : Bytes → Bytes
ascii_upper [] = []
ascii_upper (r ∷ rs) = ascii_upper_rune r ∷ ascii_upper rs

unfoldable pub contains_rune : Bytes → ℕ → Bool
contains_rune [] r = false
contains_rune (c ∷ cs) r = c == r || contains_rune cs r

unfoldable pub in_charset : ℕ → Bytes → Bool
in_charset r charset =
    contains_rune charset r
    || contains_rune charset (ascii_upper_rune r)
    || contains_rune charset (ascii_lower_rune r)

unfoldable pub starts_with_letter : Bytes → Bool
starts_with_letter [] = false
starts_with_letter (r ∷ rs) = is_letter r

-- The loop of `validate` at index `i`: the character and offset of a `CharError`, if any.
unfoldable pub validate_from : Bytes → ℕ → Bytes → Option (ℕ × ℕ)
validate_from charset i [] = none
validate_from charset i (r ∷ rs) =
    let rest = validate_from charset (i + 1) rs in
    if r == b'^'
    then (if starts_with_letter rs then rest else some (b'^', i))
    else if in_charset r charset
    then rest
    else some (r, i)

unfoldable pub validate : Bytes → Bytes → Option (ℕ × ℕ)
validate text charset = validate_from charset 0 text

-- How many spaces, other characters and letters stand at the head of a text.
unfoldable pub space_run : Bytes → ℕ
space_run [] = 0
space_run (r ∷ rs) = if r == b' ' then suc (space_run rs) else 0

unfoldable pub word_run : Bytes → ℕ
word_run [] = 0
word_run (r ∷ rs) = if r == b' ' then 0 else suc (word_run rs)

unfoldable pub letter_run : Bytes → ℕ
letter_run [] = 0
letter_run (r ∷ rs) = if is_letter r then suc (letter_run rs) else 0

-- `k - i`: the spaces before a word and that word.
unfoldable pub group_run : Bytes → ℕ
group_run rs = space_run rs + word_run (drop (space_run rs) rs)

-- The loop of `groups`. Each turn moves on by a character at least, so the length of the text is
-- enough fuel.
unfoldable pub groups_loop : ℕ → Bytes → List Bytes
groups_loop zero rs = []
groups_loop (suc fuel) [] = []
groups_loop (suc fuel) (r ∷ rs) =
    take (group_run (r ∷ rs)) (r ∷ rs) ∷ groups_loop fuel (drop (group_run (r ∷ rs)) (r ∷ rs))

unfoldable pub groups : Bytes → List Bytes
groups text = groups_loop (length text) text

-- `j - (i + 1)`: the letters that stay with a caret.
unfoldable pub tail_run : ℕ → Bytes → ℕ
tail_run r rs = if r == b'^' then letter_run rs else 0

-- The loop of `units` behind the leading spaces, on the same fuel.
unfoldable pub units_loop : ℕ → Bytes → Bytes → List Bytes
units_loop zero lead rs = []
units_loop (suc fuel) lead [] = []
units_loop (suc fuel) lead (r ∷ rs) =
    (lead ++ r ∷ take (tail_run r rs) rs) ∷ units_loop fuel [] (drop (tail_run r rs) rs)

-- `if len(out) == 0 && lead != ""`
unfoldable pub or_lead : Bytes → List Bytes → List Bytes
or_lead [] [] = []
or_lead (r ∷ rs) [] = (r ∷ rs) ∷ []
or_lead lead (u ∷ us) = u ∷ us

unfoldable pub units : Bytes → List Bytes
units group =
    let n = space_run group in
    or_lead (take n group) (units_loop (length group) (take n group) (drop n group))

-- `err != nil` returns early.
infixl 5 ◌and_then◌
abbrev pub ◌and_then◌ {ℓ κ μ} : {A : Type ℓ} {B : Type κ} {F : Type μ} → A ⊎ F → (A → B ⊎ F) → B ⊎ F
(inl a) and_then f = f a
(inr e) and_then f = inr e

-- `append(out, cur)` with `cur.chars` set.
abbrev pub finished : Piece → Chunk
finished cur = record { canon = cur.canon; encoded = cur.encoded; chars = length cur.canon; id = 0 }

abbrev pub joined : Piece → Piece → Piece
joined cur p = record { canon = cur.canon ++ p.canon; encoded = cur.encoded ++ p.encoded }

-- The loop of `buildChunks` over the pieces, with the chunk that is open (`have`), and the last flush.
unfoldable pub chunk_loop : ℕ → Option Piece → List Piece → List Chunk
chunk_loop max_chunk none [] = []
chunk_loop max_chunk (some cur) [] = finished cur ∷ []
chunk_loop max_chunk none (p ∷ ps) = chunk_loop max_chunk (some p) ps
chunk_loop max_chunk (some cur) (p ∷ ps) =
    let fresh = chunk_loop max_chunk (some p) ps in
    let longer = chunk_loop max_chunk (some (joined cur p)) ps in
    if ltb max_chunk (length cur.encoded + length p.encoded) then finished cur ∷ fresh else longer

module _ {ℓ} {E : Type ℓ} (max_chunk : ℕ) (encode : Bytes → Bytes ⊎ E) where
  -- The piece of a unit that was encoded.
  unfoldable pub unit_piece : Bytes → Bytes ⊎ E → Piece ⊎ Fault E
  unit_piece u (inr e) = inr (encoding u e)
  unit_piece u (inl enc) =
      if ltb max_chunk (length enc)
      then inr (too_long u (length enc))
      else inl (record { canon = u; encoded = enc })

  -- The pieces of a word that is too long for a chunk, one for each unit.
  unfoldable pub split_units : List Bytes → List Piece ⊎ Fault E
  unfolding unit_piece
  split_units [] = inl []
  split_units (u ∷ us) =
      unit_piece u (encode u) and_then (λ p. split_units us and_then (λ ps. inl (p ∷ ps)))

  -- The pieces of a group that was encoded.
  unfoldable pub group_pieces : Bytes → Bytes ⊎ E → List Piece ⊎ Fault E
  group_pieces group (inr e) = inr (encoding group e)
  group_pieces group (inl enc) =
      if leb (length enc) max_chunk
      then inl (record { canon = group; encoded = enc } ∷ [])
      else split_units (units group)

  unfoldable pub split_group : Bytes → List Piece ⊎ Fault E
  split_group group = group_pieces group (encode group)

  unfoldable pub split_groups : List Bytes → List Piece ⊎ Fault E
  split_groups [] = inl []
  split_groups (g ∷ gs) =
      split_group g and_then (λ ps. split_groups gs and_then (λ qs. inl (ps ++ qs)))

  unfoldable pub split : Bytes → List Piece ⊎ Fault E
  split text = split_groups (groups text)

  unfoldable pub build_chunks : Bytes → List Chunk ⊎ Fault E
  build_chunks text =
      if ltb max_chunk 1
      then inr unusable
      else (split text and_then (λ pieces. inl (chunk_loop max_chunk none pieces)))
