-- ===== src/Civ/Frame/Laws.antt =====
-- What `Split` returns, for every input: its bounds, its progress and the shape of its tokens.
use mathlib.Core.List.{append_assoc}
use remoses.Prelude.{
  ℕ, zero, suc, ◌+◌, ◌-◌, ◌≤◌, ◌<◌, ◌≡◌, refl, sym, ap, ◌∙◌, ◌≢◌, inl, inr, Bool, true, false, not,
  ◌&&◌, Option, none, some, [], ◌∷◌, ◌++◌, arith, ltb, ◌==◌, Bool-cases, ==_iff, Bytes, length,
  take, drop, length-append, drop-append, take-append, take-append-drop, length-take, All,
}
use remoses.Civ.Frame.{
  preamble, eom, min_frame_len, Search, noise, lone, pair, find_preamble, run_length, Ending, ended,
  restarted, unfinished, scan_body, finish, after_search, split,
}

-- A byte that may stand inside a frame.
abbrev pub Clean : ℕ → Type 0
Clean b = (b ≢ preamble) × (b ≢ eom)

-- What the search knows where it stops, from index `i` over `input`.
abbrev pub Located : ℕ → Bytes → Search → Type 0
Located i input noise = Unit
Located i input (lone j) = suc j ≡ i + length input
Located i input (pair j rest) =
    (before : Bytes) × (input ≡ before ++ rest) × (j ≡ i + length before) × (2 ≤ run_length rest)

Located-cons :
    (i b : ℕ) (input : Bytes) (found : Search)
    → Located (i + 1) input found
    → Located i (b ∷ input) found
Located-cons i b input noise h = tt
Located-cons i b input (lone j) h = omega arith
Located-cons i b input (pair j rest) h =
    let (before, e, at, two) = h in (b ∷ before, ap (◌∷◌ b) e, omega arith, two)

pub find_preamble-Located : (i : ℕ) (input : Bytes) → Located i input (find_preamble i input)
unfolding find_preamble run_length
find_preamble-Located i [] = tt
find_preamble-Located i (b ∷ []) = ground arith
find_preamble-Located i (b ∷ c ∷ rest) = elim (Bool-cases (b == preamble && c == preamble)) [
  | inl e ↦ rw e ([], refl, omega arith, ground arith)
  | inr e ↦ rw e (Located-cons i b (c ∷ rest) _ (find_preamble-Located (i + 1) (c ∷ rest)))
]

pub run_length-le : (input : Bytes) → run_length input ≤ length input
unfolding run_length
run_length-le [] = omega arith
run_length-le (b ∷ rest) = ground (arith, run_length-le rest)

-- One more FE in front of a run.
drop-run_cons :
    (b c : ℕ) (rest : Bytes) (r : ℕ)
    → b ≡ preamble
    → c ≡ preamble
    → (2 ≤ suc r → drop (suc r - 2) (c ∷ rest) ≡ preamble ∷ preamble ∷ drop r rest)
    → drop (suc (suc r) - 2) (b ∷ c ∷ rest) ≡ preamble ∷ preamble ∷ drop r rest
drop-run_cons b c rest zero hb hc ih = rw (hb, hc)
drop-run_cons b c rest (suc r) hb hc ih =
    let outer : suc (suc (suc r)) - 2 ≡ suc r = omega arith in
    let inner : suc (suc r) - 2 ≡ r = omega arith in rw outer (rw inner at (ih (omega arith)))

-- The last two bytes of the run open the frame.
drop-run_length :
    (input : Bytes)
    → 2 ≤ run_length input
    → drop (run_length input - 2) input ≡ preamble ∷ preamble ∷ drop (run_length input) input
unfolding run_length
drop-run_length [] h = absurd (omega arith)
drop-run_length (b ∷ []) h = absurd (ground arith)
drop-run_length (b ∷ c ∷ rest) h =
    let eb : (b == preamble) ≡ true = ground arith in
    let ec : (c == preamble) ≡ true = ground arith in
    let ih = drop-run_length (c ∷ rest) in
    rw (eb, ec)
      (drop-run_cons b c rest (run_length rest) ((==_iff b _).0 eb) ((==_iff c _).0 ec)
        (rw ec at ih))

-- What the third loop knows where it stops.
abbrev pub Ends : ℕ → Bytes → Ending → Type 0
Ends j body (ended e) =
    (inner : Bytes) × (rest : Bytes) × (body ≡ inner ++ eom ∷ rest)
    × All Clean inner
    × (e ≡ j + length inner)
Ends j body (restarted e) = (j ≤ e) × (e < j + length body)
Ends j body unfinished = Unit

Ends-cons :
    (j b : ℕ) (rest : Bytes) (e : Ending) → Clean b → Ends (j + 1) rest e → Ends j (b ∷ rest) e
Ends-cons j b rest (ended e) c h =
    let (inner, more, eq, cleans, at) = h in
    (b ∷ inner, more, ap (◌∷◌ b) eq, (c, cleans), omega arith)
Ends-cons j b rest (restarted e) c h = omega arith
Ends-cons j b rest unfinished c h = tt

pub scan_body-Ends : (j : ℕ) (body : Bytes) → Ends j body (scan_body j body)
unfolding scan_body
scan_body-Ends j [] = tt
scan_body-Ends j (b ∷ rest) = elim (Bool-cases (b == eom)) [
  | inl e ↦ rw e ([], rest, ap (λ c. c ∷ rest) ((==_iff b eom).0 e), tt, omega arith)
  | inr e ↦ elim (Bool-cases (b == preamble)) [
    | inl p ↦ rw (e, p) (omega arith)
    | inr p ↦
        rw (e, p) (Ends-cons j b rest _ (ground arith, ground arith) (scan_body-Ends (j + 1) rest))
  ]
]

-- A frame as `Split` hands it out: the two preamble bytes, a body free of reserved bytes, and the
-- end of message; at least `minFrameLen` long.
pub record IsFrame (f : Bytes) : Type 0 where
  pub inner : Bytes
  pub shape : f ≡ preamble ∷ preamble ∷ (inner ++ eom ∷ [])
  pub clean : All Clean inner
  pub long_enough : min_frame_len ≤ length f

-- The token, where there is one, is a frame that ends where the advance does.
abbrev pub TokenOf : Bytes → ℕ × Option Bytes → Type 0
TokenOf input (adv, none) = adv ≤ length input
TokenOf input (adv, some f) =
    (before : Bytes) × (rest : Bytes) × (input ≡ before ++ (f ++ rest))
    × IsFrame f
    × (adv ≡ length before + length f)

-- The slice that `Split` returns: `n` bytes from index `start` on.
pub slice-middle :
    (input before f rest : Bytes) (start n : ℕ)
    → input ≡ before ++ (f ++ rest)
    → start ≡ length before
    → n ≡ length f
    → take n (drop start input) ≡ f
slice-middle input before f rest start n e hs hn =
    rw (e, hs, hn) (rw (drop-append before (f ++ rest)) (take-append f rest))

IsFrame-of :
    (inner : Bytes)
    → All Clean inner
    → 3 ≤ length inner
    → IsFrame (preamble ∷ preamble ∷ (inner ++ eom ∷ []))
IsFrame-of inner c h = record {
  inner = inner;
  shape = refl;
  clean = c;
  long_enough = omega (arith, length-append inner (eom ∷ []));
}

finish-TokenOf :
    (input before : Bytes) (at_eof : Bool) (k : ℕ) (body : Bytes) (e : Ending)
    → input ≡ before ++ preamble ∷ preamble ∷ body
    → k ≡ length before + 2
    → Ends k body e
    → TokenOf input (finish input at_eof k e)
unfolding finish
finish-TokenOf input before at_eof k body (ended j) eq hk (inner, rest, split_body, clean, at) =
    let f : Bytes = preamble ∷ preamble ∷ (inner ++ eom ∷ []) in
    let len_f : length f ≡ length inner + 3 = omega (arith, length-append inner (eom ∷ [])) in
    let whole : input ≡ before ++ (f ++ rest) =
      rw (eq, split_body) (rw (append_assoc inner (eom ∷ []) rest) refl) in
    let total : length input ≡ length before + length f + length rest =
      ap length whole ∙ omega (arith, length-append before (f ++ rest), length-append f rest) in
    elim (Bool-cases (ltb (j + 1 - (k - 2)) min_frame_len)) [
      | inl runt ↦ rw runt (omega arith)
      | inr long ↦
          rw
            (
              long,
              slice-middle input before f rest (k - 2) (j + 1 - (k - 2)) whole (omega arith)
                  (omega arith),
            )
            (before, rest, whole, IsFrame-of inner clean (ground arith), omega arith)
    ]
finish-TokenOf input before at_eof k body (restarted j) eq hk h =
    omega (arith, ap length eq, length-append before (preamble ∷ preamble ∷ body))
finish-TokenOf input before at_eof k body unfinished eq hk h =
    let total = ap length eq ∙ length-append before (preamble ∷ preamble ∷ body) in ground arith

after_search-TokenOf :
    (input : Bytes) (at_eof : Bool) (found : Search)
    → Located 0 input found
    → TokenOf input (after_search input at_eof found)
unfolding after_search
after_search-TokenOf input at_eof noise h = omega arith
after_search-TokenOf input true (lone i) h = omega arith
after_search-TokenOf input false (lone i) h = omega arith
after_search-TokenOf input at_eof (pair i rest) (before, e, at, two) =
    let n : ℕ = run_length rest in
    let noise : Bytes = before ++ take (n - 2) rest in
    let n_le = run_length-le rest in
    let len_noise : length noise ≡ i + n - 2 =
      omega (arith, length-append before (take (n - 2) rest), length-take (n - 2) rest) in
    let whole : input ≡ noise ++ preamble ∷ preamble ∷ drop n rest =
      e
      ∙ ap (◌++◌ before) (sym (take-append-drop (n - 2) rest))
      ∙ sym (append_assoc before (take (n - 2) rest) (drop (n - 2) rest))
      ∙ ap (◌++◌ noise) (drop-run_length rest two) in
    elim (Bool-cases (i + n == length input && not at_eof)) [
      | inl inside_run ↦ rw inside_run (ground arith)
      | inr body ↦ rw body (
          finish-TokenOf input noise at_eof (i + n) (drop n rest) _ whole (omega arith)
            (scan_body-Ends (i + n) (drop n rest)))
    ]

-- `Split` never passes the end of its input, and what it hands out is a frame: two preamble bytes,
-- then bytes free of both reserved codes, then the end of message, at least six in all; it stands
-- in the input as it is, and the advance ends right behind it.
pub split-TokenOf : (input : Bytes) (at_eof : Bool) → TokenOf input (split input at_eof)
unfolding split
split-TokenOf input at_eof =
    after_search-TokenOf input at_eof (find_preamble 0 input) (find_preamble-Located 0 input)
