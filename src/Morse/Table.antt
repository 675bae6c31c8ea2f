-- ===== src/Morse/Table.antt =====
-- The element table of internal/morse/morse.go, and the lookup of one character.
use remoses.Prelude.{
  ℕ, ◌+◌, ◌-◌, Bool, not, ◌&&◌, ◌||◌, Option, none, some, List, [], ◌∷◌, ◌++◌, leb, ◌==◌,
  if◌then◌else◌, ◌>>=◌, Bytes,
}

pub data Element : Type 0 where
  dot dash : Element

-- `Units`
unfoldable pub units : Element → ℕ
units dash = 3
units dot = 1

-- The map `table`, which is `patterns` with each `.` and `-` decoded. The keys are the characters'
-- code points, in the order of the source.
pub table : List (ℕ × List Element)
table =
    (65, dot ∷ dash ∷ [])
    ∷ (66, dash ∷ dot ∷ dot ∷ dot ∷ [])
    ∷ (67, dash ∷ dot ∷ dash ∷ dot ∷ [])
    ∷ (68, dash ∷ dot ∷ dot ∷ [])
    ∷ (69, dot ∷ [])
    ∷ (70, dot ∷ dot ∷ dash ∷ dot ∷ [])
    ∷ (71, dash ∷ dash ∷ dot ∷ [])
    ∷ (72, dot ∷ dot ∷ dot ∷ dot ∷ [])
    ∷ (73, dot ∷ dot ∷ [])
    ∷ (74, dot ∷ dash ∷ dash ∷ dash ∷ [])
    ∷ (75, dash ∷ dot ∷ dash ∷ [])
    ∷ (76, dot ∷ dash ∷ dot ∷ dot ∷ [])
    ∷ (77, dash ∷ dash ∷ [])
    ∷ (78, dash ∷ dot ∷ [])
    ∷ (79, dash ∷ dash ∷ dash ∷ [])
    ∷ (80, dot ∷ dash ∷ dash ∷ dot ∷ [])
    ∷ (81, dash ∷ dash ∷ dot ∷ dash ∷ [])
    ∷ (82, dot ∷ dash ∷ dot ∷ [])
    ∷ (83, dot ∷ dot ∷ dot ∷ [])
    ∷ (84, dash ∷ [])
    ∷ (85, dot ∷ dot ∷ dash ∷ [])
    ∷ (86, dot ∷ dot ∷ dot ∷ dash ∷ [])
    ∷ (87, dot ∷ dash ∷ dash ∷ [])
    ∷ (88, dash ∷ dot ∷ dot ∷ dash ∷ [])
    ∷ (89, dash ∷ dot ∷ dash ∷ dash ∷ [])
    ∷ (90, dash ∷ dash ∷ dot ∷ dot ∷ [])
    ∷ (48, dash ∷ dash ∷ dash ∷ dash ∷ dash ∷ [])
    ∷ (49, dot ∷ dash ∷ dash ∷ dash ∷ dash ∷ [])
    ∷ (50, dot ∷ dot ∷ dash ∷ dash ∷ dash ∷ [])
    ∷ (51, dot ∷ dot ∷ dot ∷ dash ∷ dash ∷ [])
    ∷ (52, dot ∷ dot ∷ dot ∷ dot ∷ dash ∷ [])
    ∷ (53, dot ∷ dot ∷ dot ∷ dot ∷ dot ∷ [])
    ∷ (54, dash ∷ dot ∷ dot ∷ dot ∷ dot ∷ [])
    ∷ (55, dash ∷ dash ∷ dot ∷ dot ∷ dot ∷ [])
    ∷ (56, dash ∷ dash ∷ dash ∷ dot ∷ dot ∷ [])
    ∷ (57, dash ∷ dash ∷ dash ∷ dash ∷ dot ∷ [])
    ∷ (39, dot ∷ dash ∷ dash ∷ dash ∷ dash ∷ dot ∷ [])
    ∷ (34, dot ∷ dash ∷ dot ∷ dot ∷ dash ∷ dot ∷ [])
    ∷ (40, dash ∷ dot ∷ dash ∷ dash ∷ dot ∷ [])
    ∷ (41, dash ∷ dot ∷ dash ∷ dash ∷ dot ∷ dash ∷ [])
    ∷ (42, dash ∷ dot ∷ dot ∷ dash ∷ [])
    ∷ (43, dot ∷ dash ∷ dot ∷ dash ∷ dot ∷ [])
    ∷ (44, dash ∷ dash ∷ dot ∷ dot ∷ dash ∷ dash ∷ [])
    ∷ (45, dash ∷ dot ∷ dot ∷ dot ∷ dot ∷ dash ∷ [])
    ∷ (46, dot ∷ dash ∷ dot ∷ dash ∷ dot ∷ dash ∷ [])
    ∷ (47, dash ∷ dot ∷ dot ∷ dash ∷ dot ∷ [])
    ∷ (58, dash ∷ dash ∷ dash ∷ dot ∷ dot ∷ dot ∷ [])
    ∷ (61, dash ∷ dot ∷ dot ∷ dot ∷ dash ∷ [])
    ∷ (63, dot ∷ dot ∷ dash ∷ dash ∷ dot ∷ dot ∷ [])
    ∷ (64, dot ∷ dash ∷ dash ∷ dot ∷ dash ∷ dot ∷ [])
    ∷ []

pub assoc : ℕ → List (ℕ × List Element) → Option (List Element)
assoc r [] = none
assoc r ((k, els) ∷ rest) = if k == r then some els else assoc r rest

unfoldable pub elements_of : ℕ → Option (List Element)
unfolding assoc table
elements_of r = assoc r table

unfoldable pub is_letter : ℕ → Bool
is_letter r = (leb b'A' r && leb r b'Z') || (leb b'a' r && leb r b'z')

-- ASCII case folding; `r - 'a' + 'A'` on the runes from a to z.
unfoldable pub upper : ℕ → ℕ
upper r = if leb b'a' r && leb r b'z' then r - b'a' + b'A' else r

unfoldable pub upper_string : Bytes → Bytes
unfolding upper
upper_string [] = []
upper_string (r ∷ rs) = upper r ∷ upper_string rs

-- What a Go map read gives where the key is missing: no elements.
elements_or : Option (List Element) → List Element
elements_or none = []
elements_or (some els) = els

-- `table[upper(r)]`, where a missing key gives no elements.
unfoldable pub marks : ℕ → List Element
unfolding elements_of upper elements_or
marks r = elements_or (elements_of (upper r))

unfoldable pub encode : ℕ → Option (List Element)
unfolding elements_of upper elements_or
encode r = elements_of (upper r)

-- `charset`, in its order.
unfoldable pub charset : Bytes
charset =
    65 ∷ 66 ∷ 67 ∷ 68 ∷ 69 ∷ 70 ∷ 71 ∷ 72 ∷ 73 ∷ 74 ∷ 75 ∷ 76 ∷ 77 ∷ 78 ∷ 79 ∷ 80 ∷ 81 ∷ 82 ∷ 83
    ∷ 84 ∷ 85 ∷ 86 ∷ 87 ∷ 88 ∷ 89 ∷ 90 ∷ 48 ∷ 49 ∷ 50 ∷ 51 ∷ 52 ∷ 53 ∷ 54 ∷ 55 ∷ 56 ∷ 57 ∷ 32 ∷ 39
    ∷ 34 ∷ 40 ∷ 41 ∷ 42 ∷ 43 ∷ 44 ∷ 45 ∷ 46 ∷ 47 ∷ 58 ∷ 61 ∷ 63 ∷ 64 ∷ []

-- `Prosign`, on the letters of the name.
prosign_loop : Bytes → Option (List Element)
unfolding is_letter marks
prosign_loop [] = some []
prosign_loop (r ∷ rs) =
    if not (is_letter r) then none else (do els ← prosign_loop rs; some (marks r ++ els))

unfoldable pub prosign : Bytes → Option (List Element)
unfolding prosign_loop
prosign [] = none
prosign (r ∷ rs) = prosign_loop (r ∷ rs)
