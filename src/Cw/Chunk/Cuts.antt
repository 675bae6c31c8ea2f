-- ===== src/Cw/Chunk/Cuts.antt =====
-- The groups and the units of a text are that text, cut.
use mathlib.Core.List.{append_assoc}
use remoses.Prelude.{
  ℕ, zero, suc, ◌≤◌, ◌<◌, ◌≡◌, refl, ap, ◌∙◌, List, [], ◌∷◌, ◌++◌, arith, Bytes, length, take, drop,
  length-drop, take-append-drop,
}
use remoses.Cw.Chunk.{
  space_run, word_run, group_run, groups_loop, groups, tail_run, units_loop, or_lead, units,
}

abbrev pub concat_all : List Bytes → Bytes
concat_all [] = []
concat_all (x ∷ xs) = x ++ concat_all xs

group_run_pos : (r : ℕ) (rs : Bytes) → 0 < group_run (r ∷ rs)
unfolding group_run space_run word_run
group_run_pos r rs = ground arith

concat-groups_loop :
    (fuel : ℕ) (rs : Bytes) → length rs ≤ fuel → concat_all (groups_loop fuel rs) ≡ rs
unfolding groups_loop
concat-groups_loop zero [] h = refl
concat-groups_loop zero (r ∷ rs) h = absurd (omega arith)
concat-groups_loop (suc fuel) [] h = refl
concat-groups_loop (suc fuel) (r ∷ rs) h =
    let n = group_run (r ∷ rs) in
    rw
      (concat-groups_loop fuel (drop n (r ∷ rs))
        (omega (arith, length-drop n (r ∷ rs), group_run_pos r rs)))
      (take-append-drop n (r ∷ rs))

-- The groups of a text are that text, cut.
pub concat-groups : (text : Bytes) → concat_all (groups text) ≡ text
unfolding groups
concat-groups text = concat-groups_loop (length text) text (omega arith)

concat-units_tail :
    (fuel : ℕ) (rs : Bytes) → length rs ≤ fuel → concat_all (units_loop fuel [] rs) ≡ rs
unfolding units_loop
concat-units_tail zero [] h = refl
concat-units_tail zero (r ∷ rs) h = absurd (omega arith)
concat-units_tail (suc fuel) [] h = refl
concat-units_tail (suc fuel) (r ∷ rs) h =
    let n = tail_run r rs in
    rw (concat-units_tail fuel (drop n rs) (omega (arith, length-drop n rs)))
      (ap (◌∷◌ r) (take-append-drop n rs))

concat-units_loop :
    (fuel : ℕ) (lead : Bytes) (r : ℕ) (rs : Bytes)
    → length rs < fuel
    → concat_all (units_loop fuel lead (r ∷ rs)) ≡ lead ++ r ∷ rs
unfolding units_loop
concat-units_loop zero lead r rs h = absurd (omega arith)
concat-units_loop (suc fuel) lead r rs h =
    let n = tail_run r rs in
    rw (concat-units_tail fuel (drop n rs) (omega (arith, length-drop n rs))) (
      append_assoc lead (r ∷ take n rs) (drop n rs)
      ∙ ap (λ x. lead ++ r ∷ x) (take-append-drop n rs))

or_lead-cons : (lead : Bytes) {u : Bytes} {us : List Bytes} → or_lead lead (u ∷ us) ≡ u ∷ us
unfolding or_lead
or_lead-cons [] = refl
or_lead-cons (l ∷ lead) = refl

concat-or_lead :
    (fuel : ℕ) (lead rs : Bytes)
    → length rs ≤ fuel
    → concat_all (or_lead lead (units_loop fuel lead rs)) ≡ lead ++ rs
unfolding or_lead units_loop
concat-or_lead zero [] [] h = refl
concat-or_lead (suc fuel) [] [] h = refl
concat-or_lead zero (l ∷ lead) [] h = refl
concat-or_lead (suc fuel) (l ∷ lead) [] h = refl
concat-or_lead zero lead (r ∷ rs) h = absurd (omega arith)
concat-or_lead (suc fuel) lead (r ∷ rs) h =
    let n = tail_run r rs in
    ap concat_all
      (or_lead-cons lead {u = lead ++ r ∷ take n rs} {us = units_loop fuel [] (drop n rs)})
    ∙ concat-units_loop (suc fuel) lead r rs (omega arith)

-- So are the units of a group.
pub concat-units : (group : Bytes) → concat_all (units group) ≡ group
unfolding units
concat-units group =
    let n = space_run group in
    concat-or_lead (length group) (take n group) (drop n group) (omega (arith, length-drop n group))
    ∙ take-append-drop n group
