-- ===== src/Civ/Frame/Sync.antt =====
-- `Split` finds a frame that was sent, behind noise and an over-long preamble.
use mathlib.Core.List.{append_assoc}
use remoses.Prelude.{
  ℕ, zero, suc, ◌+◌, ◌-◌, ◌≡◌, refl, sym, ap, ◌∙◌, ◌≢◌, Bool, false, some, [], ◌∷◌, ◌++◌, arith,
  ◌==◌, Bytes, length, drop, length-append, All,
}
use remoses.Civ.Frame.{
  Rig, preamble, eom, frame, pair, find_preamble, run_length, ended, scan_body, finish,
  after_search, split,
}
use remoses.Civ.Frame.Laws.{Clean, slice-middle}

-- `n` bytes of preamble.
abbrev pub run : ℕ → Bytes → Bytes
run zero rest = rest
run (suc n) rest = preamble ∷ run n rest

length-run : (n : ℕ) (rest : Bytes) → length (run n rest) ≡ n + length rest
length-run zero rest = omega arith
length-run (suc n) rest = omega (arith, length-run n rest)

-- Noise with no preamble byte in it is passed over.
find_preamble-noise :
    (i j n : ℕ) (before rest : Bytes)
    → All (λ b. b ≢ preamble) before
    → j ≡ i + length before
    → find_preamble i (before ++ run (suc (suc n)) rest) ≡ pair j (run (suc (suc n)) rest)
unfolding find_preamble
find_preamble-noise i j n [] rest h e = let e' : i ≡ j = omega arith in rw e'
find_preamble-noise i j n (b ∷ []) rest h e = let e' : i + 1 ≡ j = omega arith in ground arith
find_preamble-noise i j n (b ∷ c ∷ before) rest h e =
    ground (arith, find_preamble-noise (i + 1) j n (c ∷ before) rest h.1 (omega arith))

run_length-run : (n : ℕ) (c : ℕ) (rest : Bytes) → c ≢ preamble → run_length (run n (c ∷ rest)) ≡ n
unfolding run_length
run_length-run zero c rest h = ground arith
run_length-run (suc n) c rest h = ground (arith, run_length-run n c rest h)

drop-run : (n : ℕ) (rest : Bytes) → drop n (run n rest) ≡ rest
drop-run zero rest = refl
drop-run (suc n) rest = drop-run n rest

scan_body-Clean :
    (j e : ℕ) (inner rest : Bytes)
    → All Clean inner
    → e ≡ j + length inner
    → scan_body j (inner ++ eom ∷ rest) ≡ ended e
unfolding scan_body
scan_body-Clean j e [] rest c h = let e' : j ≡ e = omega arith in rw e'
scan_body-Clean j e (b ∷ inner) rest c h =
    ground (arith, scan_body-Clean (j + 1) e inner rest c.1 (omega arith))

run-pair : (n : ℕ) (rest : Bytes) → run n (preamble ∷ preamble ∷ rest) ≡ run (suc (suc n)) rest
run-pair zero rest = refl
run-pair (suc n) rest = ap (◌∷◌ preamble) (run-pair n rest)

run-eq-append : (n : ℕ) (rest : Bytes) → run n rest ≡ run n [] ++ rest
run-eq-append zero rest = refl
run-eq-append (suc n) rest = ap (◌∷◌ preamble) (run-eq-append n rest)

-- The bytes of a frame between the preamble and the end of message.
abbrev pub inner_of : Rig → ℕ → Bytes → Bytes
inner_of r cmd payload = r.rig_addr ∷ r.ctrl_addr ∷ cmd ∷ payload

length-frame :
    (r : Rig) (cmd : ℕ) (payload : Bytes) → length (frame r cmd payload) ≡ length payload + 6
unfolding frame
length-frame r cmd payload = omega (arith, length-append payload (eom ∷ []))

-- The same, from the state of the search: `k` is the index behind the run.
finish-clean :
    (input before : Bytes) (r : Rig) (cmd : ℕ) (payload rest : Bytes) (at_eof : Bool) (k j : ℕ)
    → input ≡ before ++ (frame r cmd payload ++ rest)
    → k ≡ length before + 2
    → j ≡ length before + 5 + length payload
    → finish input at_eof k (ended j)
      ≡ (length before + length (frame r cmd payload), some (frame r cmd payload))
unfolding finish
finish-clean input before r cmd payload rest at_eof k j e hk hj =
    let lf = length-frame r cmd payload in
    let cut =
      slice-middle input before (frame r cmd payload) rest (k - 2) (j + 1 - (k - 2)) e (omega arith)
        (omega arith) in
    ground (arith, cut)

frame-append :
    (r : Rig) (cmd : ℕ) (payload rest : Bytes)
    → frame r cmd payload ++ rest ≡ preamble ∷ preamble ∷ (inner_of r cmd payload ++ eom ∷ rest)
unfolding frame
frame-append r cmd payload rest = simp append_assoc

-- The search has stopped at the run in front of the frame.
after_search-frame :
    (input before : Bytes) (r : Rig) (cmd : ℕ) (payload rest : Bytes) (n : ℕ) (at_eof : Bool)
    → All Clean (inner_of r cmd payload)
    → input ≡ before ++ run n (frame r cmd payload ++ rest)
    → after_search input at_eof
        (pair (length before) (run (suc (suc n)) (inner_of r cmd payload ++ eom ∷ rest)))
      ≡ (length before + n + length (frame r cmd payload), some (frame r cmd payload))
unfolding after_search
after_search-frame input before r cmd payload rest n at_eof hc e =
    let body : Bytes = inner_of r cmd payload ++ eom ∷ rest in
    let noise : Bytes = before ++ run n [] in
    let k : ℕ = length before + suc (suc n) in
    let j : ℕ = k + length (inner_of r cmd payload) in
    let whole : input ≡ noise ++ (frame r cmd payload ++ rest) =
      e
      ∙ ap (◌++◌ before) (run-eq-append n (frame r cmd payload ++ rest))
      ∙ sym (append_assoc before (run n []) (frame r cmd payload ++ rest)) in
    let len_noise : length noise ≡ length before + n =
      omega (arith, length-append before (run n []), length-run n []) in
    let total : length input ≡ length noise + length (frame r cmd payload) + length rest =
      ap length whole
      ∙ omega (
        arith,
        length-append noise (frame r cmd payload ++ rest),
        length-append (frame r cmd payload) rest,
      ) in
    let past_run : (k == length input) ≡ false = ground (arith, length-frame r cmd payload) in
    rw
      (
        run_length-run (suc (suc n)) r.rig_addr _ hc.0.0,
        past_run,
        drop-run (suc (suc n)) body,
        scan_body-Clean k j (inner_of r cmd payload) rest hc refl,
      )
      (finish-clean input noise r cmd payload rest at_eof k j whole (omega arith) (omega arith)
        ∙ rw len_noise)

-- A frame is found behind any noise without a preamble byte and any number of extra preamble bytes,
-- whatever follows it: the token is the frame, and the advance ends right behind it.
pub split-frame :
    (r : Rig) (cmd : ℕ) (payload before rest : Bytes) (n : ℕ) (at_eof : Bool)
    → All (λ b. b ≢ preamble) before
    → All Clean (inner_of r cmd payload)
    → split (before ++ run n (frame r cmd payload ++ rest)) at_eof
      ≡ (length before + n + length (frame r cmd payload), some (frame r cmd payload))
unfolding split
split-frame r cmd payload before rest n at_eof hb hc =
    let tail = ap (run n) (frame-append r cmd payload rest) ∙ run-pair n _ in
    let found =
      find_preamble-noise 0 (length before) n before (inner_of r cmd payload ++ eom ∷ rest) hb
        (omega arith) in
    ap
      (λ w.
        after_search (before ++ run n (frame r cmd payload ++ rest)) at_eof
          (find_preamble 0 (before ++ w)))
      tail
    ∙ ap (after_search (before ++ run n (frame r cmd payload ++ rest)) at_eof) found
    ∙ after_search-frame _ before r cmd payload rest n at_eof hc refl
