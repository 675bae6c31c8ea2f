-- ===== src/Ws/Stream/Timed.antt =====
-- What a turn holds back, it has a time for.
use mathlib.Core.Path.{subst}
use text.Mathlib.Text.{◌==◌ as str_eq}
use remoses.Prelude.{
  ℕ, ◌+◌, ◌≤◌, String, ◌≡◌, refl, sym, ap, ◌∙◌, ◌⊎◌, inl, inr, true, false, Option, none, some,
  List, [], ◌∷◌, arith, eq_iff, ltb, Bool-cases, if-true, if-false, if-elim,
}
use remoses.Prelude.Maps.{lookup, lookup-insert}
use remoses.Prelude.Sets.{has, has-remove}
use remoses.Rig.Patch.Check.{is_nil}
use remoses.Ws.Client.Bounds.{Sound}
use remoses.Ws.Drain.{
  Draining, sooner, held_until, or_zero, write_resync, resync_due, resync_turn, each, drain_resyncs,
}

-- There is a time that something held back is due, and the writer wakes up no later.
abbrev pub Timed : Option ℕ → Option ℕ → Type 0
Timed next due = (t : ℕ) × (at_time : ℕ) × (next ≡ some t) × (due ≡ some at_time) × (t ≤ at_time)

pub sooner_self :
    (at_time : ℕ) (next due : Option ℕ) → due ≡ some at_time → Timed (sooner at_time next) due
unfolding sooner
sooner_self at_time none due e = (at_time, at_time, refl, e, omega arith)
sooner_self at_time (some t) due e = elim (Bool-cases (ltb at_time t)) [
  | inl first ↦ (at_time, at_time, if-true _ _ first, e, omega arith)
  | inr later ↦ (t, at_time, if-false _ _ later, e, ground arith)
]

pub sooner_other :
    (at_time : ℕ) (next due : Option ℕ) → Timed next due → Timed (sooner at_time next) due
unfolding sooner
sooner_other at_time none due (t, u, e, f, le) = absurd (cc e)
sooner_other at_time (some s) due (t, u, e, f, le) = elim (Bool-cases (ltb at_time s)) [
  | inl first ↦ (at_time, u, if-true _ _ first, f, ground (arith, ap or_zero e))
  | inr later ↦ (t, u, if-false _ _ later ∙ e, f, le)
]

pub held_until-some :
    (now at_time : ℕ) (due : Option ℕ) → held_until now due ≡ some at_time → due ≡ some at_time
unfolding held_until
held_until-some now at_time none e = absurd (cc e)
held_until-some now at_time (some u) e = elim (Bool-cases (ltb now u)) [
  | inl early ↦ sym (if-true (some u) none early) ∙ e
  | inr late ↦ absurd (cc (sym (if-false (some u) none late) ∙ e))
]

pub later-has :
    (key id : String) (rest s : List String)
    → has id (key ∷ rest) ≡ true
    → has id s ≡ true
    → has key s ≡ false
    → has id rest ≡ true
unfolding has
later-has key id rest s coming there absent = elim (Bool-cases (str_eq key id)) [
  | inl same ↦ absurd (cc (there, absent, ap (λ x. has x s) ((eq_iff key id).0 same)))
  | inr other ↦ ground arith
]

pub unmarked : (id : String) (s : List String) → is_nil s ≡ true → has id s ≡ true → ⊥
unfolding has
unmarked id [] nothing there = cc there
unmarked id (x ∷ s) nothing there = cc nothing

module _ {ℓ} {F : Type ℓ} where
  -- Every mark is of a radio that is still to come in the loop, or has its time.
  abbrev pub ResyncTimed : List String → Draining F → Type 0
  ResyncTimed rest d =
      (id : String)
      → has id d.client.resync ≡ true
      → (has id rest ≡ true) ⊎ Timed d.next (lookup id d.client.next_resync)

  resync_due-Timed :
      (now : ℕ) (key : String) (rest : List String) (held : Option ℕ) (d : Draining F)
      → held_until now (lookup key d.client.next_resync) ≡ held
      → ResyncTimed (key ∷ rest) d
      → ResyncTimed rest (resync_due now key held d)
  unfolding resync_due write_resync has
  resync_due-Timed now key rest (some at_time) d e timed id marked =
      elim (Bool-cases (str_eq key id)) [
        | inl same ↦ inr (
            sooner_self at_time d.next _ (
              ap (λ x. lookup x d.client.next_resync) (sym ((eq_iff key id).0 same))
              ∙ held_until-some now at_time _ e))
        | inr other ↦ elim (timed id marked) [
          | inl coming ↦ inl (ground arith)
          | inr there ↦ inr (sooner_other at_time d.next _ there)
        ]
      ]
  resync_due-Timed now key rest none d e timed id marked = elim (Bool-cases (str_eq key id)) [
    | inl same ↦ absurd (ground (arith, has-remove key id d.client.resync))
    | inr other ↦ elim (timed id (ground (arith, has-remove key id d.client.resync))) [
      | inl coming ↦ inl (ground arith)
      | inr there ↦ inr (
          subst (λ due. Timed d.next due)
            (sym (
              lookup-insert key id (now + d.client.min_interval) d.client.next_resync
              ∙ if-false _ _ other))
            there)
    ]
  ]

  resync_turn-Timed :
      (now : ℕ) (key : String) (rest : List String) (d : Draining F)
      → ResyncTimed (key ∷ rest) d
      → ResyncTimed rest (resync_turn now key d)
  unfolding resync_turn
  resync_turn-Timed now key rest d timed =
      if-elim (ResyncTimed rest) (has key d.client.resync) _ _
        (λ marked. resync_due-Timed now key rest _ d refl timed)
        (λ unmarked id marked. elim (timed id marked) [
          | inl coming ↦ inl (later-has key id rest d.client.resync coming marked unmarked)
          | inr there ↦ inr there
        ])

  resyncs-Timed :
      (now : ℕ) (ids : List String) (d : Draining F)
      → ResyncTimed ids d
      → ResyncTimed [] (each (resync_turn now) ids d)
  unfolding each
  resyncs-Timed now [] d timed = timed
  resyncs-Timed now (id ∷ ids) d timed =
      resyncs-Timed now ids (resync_turn now id d) (resync_turn-Timed now id ids d timed)

  pub drain_resyncs-Timed :
      (now : ℕ) (d : Draining F) → Sound d.client → ResyncTimed [] (drain_resyncs now d)
  unfolding drain_resyncs has
  drain_resyncs-Timed now d v =
      if-elim (ResyncTimed []) (is_nil d.client.resync) _ _
        (λ nothing id marked. absurd (unmarked id d.client.resync nothing marked))
        (λ something. resyncs-Timed now d.client.subs d (λ id marked. inl (v.marked id marked)))
