-- ===== src/Rig/Cache/Deadman.antt =====
-- The transmit time-out: a radio that is known to transmit has its timer running.
use remoses.Prelude.{
  ℕ, suc, ◌+◌, ◌≤◌, ◌≡◌, refl, sym, ◌∙◌, Bool, true, false, not, Option, none, some, List, [], ◌∷◌,
  arith, if-elim, All,
}
use remoses.Prelude.Compare.{
  Comparable, nat_comparable, int_comparable, bool_comparable, string_comparable,
}
use remoses.Prelude.Int.{pos}
use remoses.Radio.{CwStatus, State, Patch}
use remoses.Radio.Change.{changed, empty, apply, diff}
use remoses.Radio.Compared.{
  meter_comparable, power_comparable, cw_equal, cw_comparable, vfo_comparable,
}
use remoses.Radio.Follow.{empty-ptt}
use remoses.Rig.Cache.{
  EventKind, Published, Session, arm_at, arm_deadman, disarm_deadman, watch_ptt, publish_event,
  announce, updated, next_state, store_change, store_cw, cache_apply, refresh_cw,
}

-- What reaches the cache: a change with its clocks, or a status of the CW sender.
pub data Input {ℓ} (F : Type ℓ) : Type ℓ where
  patched : Patch F → EventKind → ℕ → ℕ → Input F
  sender_status : CwStatus → ℕ → Input F

-- No change of a flag leaves it as it was.
changed-same : (old new : Bool) → changed old new ≡ none → new ≡ old
changed-same true true h = refl
changed-same false false h = refl
changed-same true false h = absurd (cc h)
changed-same false true h = absurd (cc h)

module _ {ℓ} {F : Type ℓ} ⦃float : Comparable F⦄ (s : State F) (p : Patch F) (now : ℕ) where
  next_state-ptt : (next_state s p now).ptt ≡ (apply s p).ptt
  unfolding next_state
  next_state-ptt =
      if-elim {A = State F} (λ t. t.ptt ≡ (apply s p).ptt) (empty (diff s (updated s p now))) _ _
        (λ same. refl) (λ differs. refl)

  -- What is no change at all is no change of PTT.
  next_state-same_ptt : empty (diff s (updated s p now)) ≡ true → (next_state s p now).ptt ≡ s.ptt
  next_state-same_ptt same =
      next_state-ptt ∙ changed-same s.ptt (apply s p).ptt (empty-ptt s (updated s p now) same)

module _ {ℓ} {F : Type ℓ} ⦃float : Comparable F⦄ where
  -- A session takes an input, and several.
  unfoldable pub take_input : Session F → Input F → Session F
  take_input s (patched p kind now armed_at) = cache_apply s p kind now armed_at
  take_input s (sender_status status now) = refresh_cw s status now

  unfoldable pub take_inputs : Session F → List (Input F) → Session F
  take_inputs s [] = s
  take_inputs s (i ∷ is) = take_inputs (take_input s i) is

module _ {ℓ} {F : Type ℓ} ⦃float : Comparable F⦄ (n latest : ℕ) where
  -- With a time-out of `n + 1`: while the radio is known to transmit, the timer is armed, for that time
  -- behind a clock reading up to `latest` at most.
  abbrev pub Guarded : Session F → Type 0
  Guarded s =
      (s.tx_timeout ≡ pos (suc n))
      × (s.state.ptt ≡ true → (d : ℕ) × (s.deadman ≡ some d) × (d ≤ latest + suc n))

  -- The clock that an input may arm the timer at.
  abbrev pub Clocked : Input F → Type 0
  Clocked (patched p kind now armed_at) = armed_at ≤ latest
  Clocked (sender_status status now) = Unit

  Deadline : Session F → Type 0
  Deadline s = (d : ℕ) × (s.deadman ≡ some d) × (d ≤ latest + suc n)

  watch_ptt-Guarded :
      (old new : Bool) (s : Session F) (armed_at : ℕ)
      → armed_at ≤ latest
      → s.tx_timeout ≡ pos (suc n)
      → s.state.ptt ≡ new
      → (old ≡ true → Deadline s)
      → Guarded (watch_ptt (changed old new) s armed_at)
  unfolding watch_ptt arm_deadman disarm_deadman arm_at Deadline
  watch_ptt-Guarded true true s armed_at early limit now before = (limit, λ on. before refl)
  watch_ptt-Guarded false false s armed_at early limit now before =
      (limit, λ on. absurd (cc (now, on)))
  watch_ptt-Guarded true false s armed_at early limit now before =
      (limit, λ on. absurd (cc (now, on)))
  watch_ptt-Guarded false true s armed_at early limit now before =
      (limit, λ on. (armed_at + suc n, rw limit refl, omega arith))

  cache_apply-Guarded :
      (s : Session F) (p : Patch F) (kind : EventKind) (now armed_at : ℕ)
      → armed_at ≤ latest
      → Guarded s
      → Guarded (cache_apply s p kind now armed_at)
  unfolding cache_apply store_change announce publish_event diff Deadline
  cache_apply-Guarded s p kind now armed_at early (limit, guard) =
      let changes = diff s.state (updated s.state p now) in
      let Announced =
        λ (r : Session F × Option (Published F)). Guarded (announce r.0 armed_at r.1) in
      if-elim Announced (empty p) _ _ (λ nothing. (limit, guard))
        (λ something.
          if-elim Announced (empty changes) _ _
            (λ same. (limit, λ on. guard (sym (next_state-same_ptt s.state p now same) ∙ on)))
            (λ differs.
              watch_ptt-Guarded s.state.ptt (apply s.state p).ptt
                (record s { state = next_state s.state p now }) armed_at early limit
                (next_state-ptt s.state p now) guard))

  refresh_cw-Guarded :
      (s : Session F) (status : CwStatus) (now : ℕ) → Guarded s → Guarded (refresh_cw s status now)
  unfolding refresh_cw store_cw announce publish_event watch_ptt
  refresh_cw-Guarded s status now guarded =
      let Announced = λ (r : Session F × Option (Published F)). Guarded (announce r.0 now r.1) in
      if-elim Announced (not s.sender) _ _ (λ none_there. guarded)
        (λ there.
          if-elim Announced (cw_equal s.state.cw status) _ _ (λ unchanged. guarded)
            (λ new_status. guarded))

  take_input-Guarded :
      (s : Session F) (i : Input F) → Clocked i → Guarded s → Guarded (take_input s i)
  unfolding take_input
  take_input-Guarded s (patched p kind now armed_at) early h =
      cache_apply-Guarded s p kind now armed_at early h
  take_input-Guarded s (sender_status status now) early h = refresh_cw-Guarded s status now h

  -- Whatever changes and statuses reach the cache one after the other, each handled before the next, a radio that is known to transmit has its timer
  -- armed, due at most the transmit time-out behind the clock reading of some input, if that held
  -- before; ForceRX is not among the inputs.
  pub take_inputs-Guarded :
      (s : Session F) (is : List (Input F))
      → All Clocked is
      → Guarded s
      → Guarded (take_inputs s is)
  unfolding take_inputs
  take_inputs-Guarded s [] early h = h
  take_inputs-Guarded s (i ∷ is) (at_i, early) h =
      take_inputs-Guarded (take_input s i) is early (take_input-Guarded s i at_i h)
