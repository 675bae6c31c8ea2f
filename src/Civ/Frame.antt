-- ===== src/Civ/Frame.antt =====
-- CI-V framing (internal/rig/backend/civ/frame.go): `frame`, `Split`, `wellFormed`, `isEcho` and
-- `addressedToUs`. A slice of the input is the list of its bytes; the `(advance, token)` result of
-- `Split` is a pair, with `none` for a nil token. `Split` never returns an error.
pub mod Laws
pub mod Sync
pub mod Tests
use remoses.Prelude.{
  ℕ, suc, ◌+◌, ◌-◌, Bool, false, not, ◌&&◌, ◌||◌, Option, none, some, [], ◌∷◌, ◌++◌, ltb, leb, ◌==◌,
  if◌then◌else◌, Bytes, length, take, drop,
}

abbrev pub preamble : ℕ
preamble = 0xFE

abbrev pub eom : ℕ
eom = 0xFD

abbrev pub addr_broadcast : ℕ
addr_broadcast = 0x00

abbrev pub min_frame_len : ℕ
min_frame_len = 6

abbrev pub max_frame_len : ℕ
max_frame_len = 1024

-- The two addresses of a `Rig`, the fields that framing reads.
pub record Rig : Type 0 where
  pub rig_addr : ℕ
  pub ctrl_addr : ℕ

unfoldable pub frame : Rig → ℕ → Bytes → Bytes
frame r cmd payload = preamble ∷ preamble ∷ r.rig_addr ∷ r.ctrl_addr ∷ cmd ∷ (payload ++ eom ∷ [])

-- How the search for `FE FE` ends: no preamble, a lone FE as the last byte, or a pair at an index,
-- with the bytes from there on.
pub data Search : Type 0 where
  noise : Search
  lone : ℕ → Search
  pair : ℕ → Bytes → Search

-- The first loop of `Split`; the jump of `bytes.IndexByte` is made byte by byte.
pub find_preamble : ℕ → Bytes → Search
find_preamble i [] = noise
find_preamble i (b ∷ []) = if b == preamble then lone i else noise
find_preamble i (b ∷ c ∷ rest) =
    if b == preamble && c == preamble
    then pair i (b ∷ c ∷ rest)
    else find_preamble (i + 1) (c ∷ rest)

-- The second loop: how many bytes the run of FE has.
pub run_length : Bytes → ℕ
run_length [] = 0
run_length (b ∷ rest) = if b == preamble then suc (run_length rest) else 0

-- How the search for the end of the body stops, and at which index.
pub data Ending : Type 0 where
  ended : ℕ → Ending
  restarted : ℕ → Ending
  unfinished : Ending

-- The third loop.
pub scan_body : ℕ → Bytes → Ending
scan_body j [] = unfinished
scan_body j (b ∷ rest) =
    if b == eom then ended j else if b == preamble then restarted j else scan_body (j + 1) rest

-- The rest of `Split` behind the third loop.
pub finish : Bytes → Bool → ℕ → Ending → ℕ × Option Bytes
finish input at_eof k (ended j) =
    let start = k - 2 in
    let end = j + 1 in
    if ltb (end - start) min_frame_len
    then (end, none)
    else (end, some (take (end - start) (drop start input)))
finish input at_eof k (restarted j) = (j, none)
finish input at_eof k unfinished =
    let start = k - 2 in
    if at_eof
    then (length input, none)
    else if leb max_frame_len (length input - start)
    then (k, none)
    else (start, none)

-- The rest of `Split` behind the first loop.
pub after_search : Bytes → Bool → Search → ℕ × Option Bytes
unfolding finish
after_search input at_eof noise = (length input, none)
after_search input at_eof (lone i) = if at_eof then (length input, none) else (i, none)
after_search input at_eof (pair i rest) =
    let n = run_length rest in
    let k = i + n in
    if k == length input && not at_eof
    then (k - 2, none)
    else finish input at_eof k (scan_body k (drop n rest))

unfoldable pub split : Bytes → Bool → ℕ × Option Bytes
unfolding after_search find_preamble run_length scan_body
split input at_eof = after_search input at_eof (find_preamble 0 input)

pub ends_with_eom : Bytes → Bool
ends_with_eom [] = false
ends_with_eom (b ∷ []) = b == eom
ends_with_eom (b ∷ c ∷ rest) = ends_with_eom (c ∷ rest)

-- `len(f) >= minFrameLen` is made explicit by the two patterns that index a byte.
unfoldable pub well_formed : Bytes → Bool
unfolding ends_with_eom
well_formed (a ∷ b ∷ rest) =
    leb min_frame_len (length (a ∷ b ∷ rest))
    && a == preamble
    && b == preamble
    && ends_with_eom (a ∷ b ∷ rest)
well_formed _ = false

-- `f[2]` and `f[3]`; a shorter frame is not well formed, and both callers test that first.
abbrev pub address_bytes : Bytes → ℕ × ℕ
address_bytes (_ ∷ _ ∷ to ∷ from ∷ _) = (to, from)
address_bytes _ = (0, 0)

unfoldable pub is_echo : Rig → Bytes → Bool
is_echo r f =
    well_formed f && (address_bytes f).0 == r.rig_addr && (address_bytes f).1 == r.ctrl_addr

unfoldable pub addressed_to_us : Rig → Bytes → Bool
addressed_to_us r f =
    if not (well_formed f)
    then false
    else if not ((address_bytes f).1 == r.rig_addr)
    then false
    else (address_bytes f).0 == r.ctrl_addr || (address_bytes f).0 == addr_broadcast
