-- ===== src/Rig/Patch/Limited.antt =====
-- What may be sent, and that `clampPower` keeps to the limits on power.
use remoses.Prelude.{
  ◌≡◌, ◌⊎◌, inl, inr, Bool, true, false, not, ◌&&◌, Option, none, some, arith, ltb, if◌then◌else◌,
  if-elim,
}
use remoses.Rig.Patch.{Fault, Floats, PowerSet, Station, allows_frequency}
use remoses.Rig.Patch.Apply.{
  Command, set_ptt, set_vfo_frequency, set_frequency, set_power, start_tune, ◌then◌, clamped,
  requested_power,
}
use remoses.Rig.Patch.Check.{clamp_pct, clamp_watts, clamp_power}

-- What the theorems on limits use of the order on floating-point numbers; NaN is not among them.
pub record FloatLaws {ℓ} {F : Type ℓ} (f : Floats F) : Type ℓ where
  pub smaller_left : (a b : F) → f.less a (f.smaller a b) ≡ false
  pub smaller_right : (a b : F) → f.less b (f.smaller a b) ≡ false
  pub below : (a b c : F) → f.less a b ≡ false → f.less b c ≡ false → f.less a c ≡ false

module _ {ℓ} {F : Type ℓ} (st : Station F) where
  -- The limit in watts as a percentage of the full power, and the limit in percent as watts.
  abbrev pct_of_watts : F
  pct_of_watts =
      st.floats.times (st.floats.over st.limits.max_power_w st.caps.max_power_w) st.floats.hundred

  abbrev watts_of_pct : F
  watts_of_pct =
      st.floats.times (st.floats.over st.limits.max_power_pct st.floats.hundred) st.caps.max_power_w

  -- A percentage and a power in watts keep to the limits of the station: to the one in the same unit, if
  -- there is one, and to the one in the other unit, if there is one and the full power is known.
  abbrev pub PctWithin : Option F → Type 0
  PctWithin none = Unit
  PctWithin (some v) =
      (st.floats.less st.floats.nought st.limits.max_power_pct ≡ true
        → st.floats.less st.limits.max_power_pct v ≡ false)
      × (st.floats.less st.floats.nought st.limits.max_power_w ≡ true
          → st.floats.less st.floats.nought st.caps.max_power_w ≡ true
          → st.floats.less pct_of_watts v ≡ false)

  abbrev pub WattsWithin : Option F → Type 0
  WattsWithin none = Unit
  WattsWithin (some v) =
      (st.floats.less st.floats.nought st.limits.max_power_w ≡ true
        → st.floats.less st.limits.max_power_w v ≡ false)
      × (st.floats.less st.floats.nought st.limits.max_power_pct ≡ true
          → st.floats.less st.floats.nought st.caps.max_power_w ≡ true
          → st.floats.less watts_of_pct v ≡ false)

  -- What may be sent: a frequency in the bands of the station, a power within its limits on a radio with
  -- a power command, PTT to a radio with a transmitter command, and a tuning cycle to one that has them
  -- and whose known frequency, if there is one, is in the bands; the rest is free.
  abbrev pub Allowed : Command F → Type 0
  Allowed (set_frequency v hz) = allows_frequency st.limits.bands hz ≡ true
  Allowed (set_vfo_frequency v hz) = allows_frequency st.limits.bands hz ≡ true
  Allowed (set_power p) = (st.caps.power_control ≡ true) × PctWithin p.pct × WattsWithin p.watts
  Allowed (set_ptt on) = st.caps.ptt_control ≡ true
  Allowed start_tune =
      (st.caps.tuner_tune ≡ true)
      × (ltb 0 st.frequency ≡ true → allows_frequency st.limits.bands st.frequency ≡ true)
  Allowed _ = Unit

  -- A power that `clampPower` gives keeps to both limits.
  abbrev pub PowerWithin : Option (PowerSet F) ⊎ Fault → Type 0
  PowerWithin (inl none) = Unit
  PowerWithin (inl (some p)) = PctWithin p.pct × WattsWithin p.watts
  PowerWithin (inr e) = Unit

  module _ (laws : FloatLaws st.floats) where
    -- The smaller of a value and a limit that holds where a flag is set keeps to that limit, and to
    -- each limit that the value kept to.
    limited_by :
        (set : Bool) (limit v : F)
        → set ≡ true
        → st.floats.less limit (if set then st.floats.smaller v limit else v) ≡ false
    limited_by true limit v h = laws.smaller_right v limit
    limited_by false limit v h = absurd (cc h)

    stays_limited :
        (set : Bool) (limit other v : F)
        → st.floats.less other v ≡ false
        → st.floats.less other (if set then st.floats.smaller v limit else v) ≡ false
    stays_limited true limit other v h = laws.below _ _ _ h (laws.smaller_left v limit)
    stays_limited false limit other v h = h

    clamp_pct-Within : (v : F) → PctWithin (some (clamp_pct st v))
    unfolding clamp_pct
    clamp_pct-Within v =
        let f = st.floats in
        let lim = st.limits in
        let first = f.smaller (f.larger v f.nought) f.hundred in
        let own = f.less f.nought lim.max_power_pct in
        let scaled = f.less f.nought lim.max_power_w && f.less f.nought st.caps.max_power_w in
        (
          λ on.
              stays_limited scaled pct_of_watts lim.max_power_pct _
                (limited_by own lim.max_power_pct first on),
          λ on known. limited_by scaled pct_of_watts _ (ground arith),
        )

    clamp_watts-Within : (v : F) → WattsWithin (some (clamp_watts st v))
    unfolding clamp_watts
    clamp_watts-Within v =
        let f = st.floats in
        let lim = st.limits in
        let first = f.larger v f.nought in
        let own = f.less f.nought lim.max_power_w in
        let scaled = f.less f.nought lim.max_power_pct && f.less f.nought st.caps.max_power_w in
        (
          λ on.
              stays_limited scaled watts_of_pct lim.max_power_w _
                (limited_by own lim.max_power_w first on),
          λ on known. limited_by scaled watts_of_pct _ (ground arith),
        )

    pub clamp_power-Within : (w p : Option F) → PowerWithin (clamped (clamp_power st w p))
    unfolding clamp_power clamped
    clamp_power-Within none none = tt
    clamp_power-Within (some w) (some p) = tt
    clamp_power-Within none (some p) = (clamp_pct-Within p, tt)
    clamp_power-Within (some w) none =
        if-elim (λ (o : PowerSet F ⊎ Fault). PowerWithin (clamped o))
          (not st.caps.power_watt_accurate
            && not (st.floats.less st.floats.nought st.caps.max_power_w))
          _ _ (λ no_watts. tt) (λ watts. (tt, clamp_watts-Within w))

    pub requested_power-Within : (o : Option (PowerSet F)) → PowerWithin (requested_power st o)
    unfolding requested_power
    requested_power-Within none = tt
    requested_power-Within (some p) = clamp_power-Within p.watts p.pct
