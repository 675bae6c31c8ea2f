-- ===== src/Rig/Setters/Refusals.antt =====
-- A call of a setter, and what the setters send, and when Morse is let through.
use remoses.Prelude.{
  ℕ, String, ◌≡◌, refl, ◌⊎◌, inl, inr, Bool, true, false, not, ◌&&◌, ◌||◌, Option, none, some, List,
  [], arith, ltb, if-elim, All,
}
use remoses.Prelude.Int.{ℤ}
use remoses.Rig.Patch.{Fault, PowerSet, Station, allows_frequency}
use remoses.Rig.Patch.Apply.{
  Action, act, Command, set_vfo_frequency, set_frequency, set_power, start_tune, sent, polled_slow,
  polled_fast, World, Part, go_on, ◌then◌, refuse_or, clamped, send, arm, read_tier,
}
use remoses.Rig.Patch.Check.{require_connected}
use remoses.Rig.Patch.Limited.{FloatLaws, PctWithin, WattsWithin, PowerWithin, clamp_power-Within}
use remoses.Rig.Patch.Permits.{not-false}
use remoses.Rig.Setters.{
  write_part, both_tiers, session_set_frequency, session_set_mode, send_power, session_set_power,
  session_set_ptt, session_set_filter_width, session_set_filter_slot, session_set_break_in,
  session_set_tuner, session_start_tune, session_select_vfo_mode, session_set_vfo_frequency,
  session_set_vfo_mode, session_set_split, session_set_dual_watch,
}

-- A call of one of the setters. `there` of the source's controllers is the flag in front.
pub data Setting {ℓ} (F : Type ℓ) : Type ℓ where
  tune_to vfo_tune_to : ℕ → ℕ → Setting F
  mode_to : ℕ → Bool → Setting F
  vfo_mode_to : ℕ → ℕ → Bool → ℤ → Setting F
  power_to : PowerSet F → Setting F
  ptt_to split_to dual_watch_to : Bool → Setting F
  width_to slot_to : ℤ → Setting F
  break_in_to : Bool → String → Setting F
  tuner_to : Bool → Bool → Setting F
  tuning : Bool → Setting F
  vfo_operation : ℕ → Setting F

module _ {ℓ} {F : Type ℓ} (w : World F) (st : Station F) where
  abbrev pub perform : Setting F → Option Fault × List (Action F)
  perform (tune_to vfo hz) = session_set_frequency w st vfo hz
  perform (vfo_tune_to vfo hz) = session_set_vfo_frequency w st vfo hz
  perform (mode_to m digital) = session_set_mode w st m digital
  perform (vfo_mode_to vfo m digital slot) = session_set_vfo_mode w st vfo m digital slot
  perform (power_to p) = session_set_power w st p
  perform (ptt_to on) = session_set_ptt w st on
  perform (split_to on) = session_set_split w st on
  perform (dual_watch_to on) = session_set_dual_watch w st on
  perform (width_to hz) = session_set_filter_width w st hz
  perform (slot_to n) = session_set_filter_slot w st n
  perform (break_in_to there b) = session_set_break_in w st there b
  perform (tuner_to there on) = session_set_tuner w st there on
  perform (tuning there) = session_start_tune w st there
  perform (vfo_operation vfo) = session_select_vfo_mode w st vfo

module _ {ℓ} {F : Type ℓ} (st : Station F) where
  -- A frequency in the bands of the station, a power within its limits, and a tuning cycle by a radio
  -- that has them on a frequency, if it is known, in the bands.
  abbrev pub Bounded : Action F → Type 0
  Bounded (sent (set_frequency v hz)) = allows_frequency st.limits.bands hz ≡ true
  Bounded (sent (set_vfo_frequency v hz)) = allows_frequency st.limits.bands hz ≡ true
  Bounded (sent start_tune) =
      (st.caps.tuner_tune ≡ true)
      × (ltb 0 st.frequency ≡ true → allows_frequency st.limits.bands st.frequency ≡ true)
  Bounded (sent (set_power p)) = PctWithin st p.pct × WattsWithin st p.watts
  Bounded _ = Unit

  -- Nothing was sent, or the radio is connected and not in standby, and all that was sent is bounded.
  abbrev pub Sent : Option Fault × List (Action F) → Type ℓ
  Sent p = (p.1 ≡ []) ⊎ ((require_connected st ≡ none) × All Bounded p.1)

  module _ (w : World F) where
    refuse-Sent :
        (o : Option Fault) (rest : Option Fault × List (Action F))
        → Sent rest
        → Sent (refuse_or o rest)
    refuse-Sent (some e) rest h = inl refl
    refuse-Sent none rest h = h

    connected-Sent :
        (o : Option Fault) (rest : Option Fault × List (Action F))
        → require_connected st ≡ o
        → All Bounded rest.1
        → Sent (refuse_or o rest)
    connected-Sent (some e) rest same h = inl refl
    connected-Sent none rest same h = inr (same, h)

    -- What a tier of the read-back adds is bounded, as is what a part adds that goes on behind another.
    abbrev Bounds : Part F → Type ℓ
    Bounds m = (log : List (Action F)) → All Bounded log → All Bounded (m log).1

    then-Bounds : (m k : Part F) → Bounds m → Bounds k → Bounds (m then k)
    then-Bounds m k h h' log b = go_on-Bounds (m log) (h log b)
      where
        go_on-Bounds :
            (p : Option Fault × List (Action F)) → All Bounded p.1 → All Bounded (go_on k p).1
        go_on-Bounds (none, l) c = h' l c
        go_on-Bounds (some e, l) c = c

    tier-Bounds : (tier : Action F) → Bounded tier → Bounds (read_tier w tier)
    unfolding read_tier
    tier-Bounds tier b log h = (b, h)

    send-Bounds : (c : Command F) → Bounded (sent c) → Bounds (send w c)
    unfolding act
    send-Bounds c b log h = (b, h)

    arm-Bounds : Bounds (arm w)
    unfolding arm
    arm-Bounds log h = (tt, h)

    both_tiers-Bounds : Bounds (both_tiers w st)
    unfolding both_tiers
    both_tiers-Bounds =
        then-Bounds (read_tier w polled_slow) (read_tier w polled_fast) (tier-Bounds polled_slow tt)
          (tier-Bounds polled_fast tt)

    write_part-Sent :
        (refusal : Bool) (c : Command F) (behind : Part F)
        → Bounded (sent c)
        → Bounds behind
        → Sent (write_part w st refusal c behind)
    unfolding write_part
    write_part-Sent refusal c behind b k = refuse-Sent _ _ (
        connected-Sent (require_connected st) ((send w c then behind) []) refl
          (then-Bounds (send w c) behind (send-Bounds c b) k [] tt))

    send_power-Sent :
        (o : PowerSet F ⊎ Fault) → PowerWithin st (clamped o) → Sent (send_power w st o)
    unfolding send_power clamped
    send_power-Sent (inr e) within = inl refl
    send_power-Sent (inl p) within =
        write_part-Sent false (set_power p) (both_tiers w st) within both_tiers-Bounds

    tunable :
        (there : Bool) → (not there || not st.caps.tuner_tune) ≡ false → st.caps.tuner_tune ≡ true
    tunable there h = ground arith

    inside_bands :
        (ltb 0 st.frequency && not (allows_frequency st.limits.bands st.frequency)) ≡ false
        → ltb 0 st.frequency ≡ true
        → allows_frequency st.limits.bands st.frequency ≡ true
    inside_bands h known = ground arith

    session_start_tune-Sent : (there : Bool) → Sent (session_start_tune w st there)
    unfolding session_start_tune
    session_start_tune-Sent there =
        if-elim Sent (not there || not st.caps.tuner_tune) _ _ (λ cannot. inl refl)
          (λ can. connected-Sent (require_connected st) _ refl (
            if-elim (λ (p : Option Fault × List (Action F)). All Bounded p.1)
              (ltb 0 st.frequency && not (allows_frequency st.limits.bands st.frequency)) _ _
              (λ out. tt)
              (λ inside.
                then-Bounds (send w start_tune) (arm w then both_tiers w st)
                  (send-Bounds start_tune (tunable there can, inside_bands inside))
                  (then-Bounds (arm w) (both_tiers w st) arm-Bounds both_tiers-Bounds) [] tt)))

    -- The setters send only to a radio that is connected and not in standby, a frequency only in the bands
    -- of the station, a power only within its limit on percentages and that on watts, converted where the
    -- full power is known, and a tuning cycle only to a radio that has them and whose frequency, where
    -- it is known, lies in the bands.
    pub perform-Sent : FloatLaws st.floats → (x : Setting F) → Sent (perform w st x)
    unfolding session_set_frequency session_set_vfo_frequency session_set_mode session_set_vfo_mode
        session_set_power session_set_ptt session_set_split session_set_dual_watch
        session_set_filter_width session_set_filter_slot session_set_break_in session_set_tuner
        session_select_vfo_mode
    perform-Sent laws (tune_to vfo hz) =
        if-elim Sent (not (allows_frequency st.limits.bands hz)) _ _ (λ out. inl refl)
          (λ inside. write_part-Sent _ _ _ (not-false inside) (tier-Bounds polled_fast tt))
    perform-Sent laws (vfo_tune_to vfo hz) =
        if-elim Sent (not (allows_frequency st.limits.bands hz)) _ _ (λ out. inl refl)
          (λ inside. write_part-Sent _ _ _ (not-false inside) both_tiers-Bounds)
    perform-Sent laws (mode_to m digital) = refuse-Sent _ _ (
        write_part-Sent _ _ _ tt (
          then-Bounds (read_tier w polled_fast) (read_tier w polled_slow)
            (tier-Bounds polled_fast tt) (tier-Bounds polled_slow tt)))
    perform-Sent laws (vfo_mode_to vfo m digital slot) = write_part-Sent _ _ _ tt both_tiers-Bounds
    perform-Sent laws (power_to p) =
        refuse-Sent _ _ (send_power-Sent _ (clamp_power-Within st laws p.watts p.pct))
    perform-Sent laws (ptt_to on) = write_part-Sent _ _ _ tt (tier-Bounds polled_fast tt)
    perform-Sent laws (split_to on) = write_part-Sent _ _ _ tt both_tiers-Bounds
    perform-Sent laws (dual_watch_to on) = write_part-Sent _ _ _ tt both_tiers-Bounds
    perform-Sent laws (width_to hz) = refuse-Sent _ _ (write_part-Sent _ _ _ tt both_tiers-Bounds)
    perform-Sent laws (slot_to n) = refuse-Sent _ _ (write_part-Sent _ _ _ tt both_tiers-Bounds)
    perform-Sent laws (break_in_to there b) = write_part-Sent _ _ _ tt both_tiers-Bounds
    perform-Sent laws (tuner_to there on) = write_part-Sent _ _ _ tt both_tiers-Bounds
    perform-Sent laws (tuning there) = session_start_tune-Sent there
    perform-Sent laws (vfo_operation vfo) = write_part-Sent _ _ _ tt both_tiers-Bounds
