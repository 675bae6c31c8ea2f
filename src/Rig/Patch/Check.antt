-- ===== src/Rig/Patch/Check.antt =====
-- What `ApplyPatch` checks before it sends anything, as early returns in the order of the code, and the
-- limits on power (`validateFrontEnd`, `validateNoise`, `validateTXAudio`, `clampPower` and
-- `requireConnected`).
use remoses.Prelude.{
  ℕ, String, ◌⊎◌, inl, inr, Bool, true, false, not, ◌&&◌, ◌||◌, Option, none, some, List, [], ◌∷◌,
  ◌++◌, ltb, ◌==◌, if◌then◌else◌,
}
use remoses.Prelude.Compare.{
  Comparable, equal, nat_comparable, int_comparable, bool_comparable, string_comparable,
}
use remoses.Prelude.Int.{ℤ, pos, negsuc}
use remoses.Radio.Compared.{meter_comparable, power_comparable, cw_comparable, vfo_comparable}
use remoses.Rig.Backoff.{err_disconnected}
use remoses.Rig.Patch.{
  Fault, PowerSet, PatchRequest, unsupported, out_of_band, bad_power, standby, link, Station,
  allows_frequency, has, names_a_vfo, noise_requested, tx_audio_requested,
}

-- The first condition that is true decides.
unfoldable pub refused : List (Bool × Fault) → Option Fault
refused [] = none
refused ((bad, fault) ∷ l) = let rest = refused l in if bad then some fault else rest

-- `o != nil` and a condition on what it points at.
abbrev pub given {ℓ} : {A : Type ℓ} → Option A → (A → Bool) → Bool
given none p = false
given (some v) p = p v

unfoldable pub contains {ℓ} : {A : Type ℓ} ⦃c : Comparable A⦄ → List A → A → Bool
contains [] v = false
contains (x ∷ xs) v = equal x v || contains xs v

abbrev pub is_nil {ℓ} : {A : Type ℓ} → List A → Bool
is_nil [] = true
is_nil (x ∷ xs) = false

-- `a < b`
unfoldable pub int_less : ℤ → ℤ → Bool
int_less (pos a) (pos b) = ltb a b
int_less (pos a) (negsuc b) = false
int_less (negsuc a) (pos b) = true
int_less (negsuc a) (negsuc b) = ltb b a

unfoldable pub supports_attenuation : List ℤ → ℤ → Bool
supports_attenuation l db = not (is_nil l) && (equal db (pos 0) || contains l db)

unfoldable pub tuner_valid : String → Bool
tuner_valid t = equal t "off" || equal t "on"

unfoldable pub agc_settable : String → Bool
agc_settable a = contains ("off" ∷ "fast" ∷ "mid" ∷ "slow" ∷ "auto" ∷ []) a

module _ {ℓ} {F : Type ℓ} (st : Station F) where
  -- `percentInRange`, where it fails.
  unfoldable pub out_of_range : F → Bool
  out_of_range pct = st.floats.less pct st.floats.nought || st.floats.less st.floats.hundred pct

  unfoldable pub supports_vfo : ℕ → Bool
  supports_vfo v = v == 0 || contains st.caps.vfos v

  unfoldable pub front_end_checks : PatchRequest F → List (Bool × Fault)
  front_end_checks r =
      (
        (has r.preamp || has r.attenuator_db || has r.rf_gain || has r.agc)
            && not st.backend.front_end,
        unsupported,
      )
      ∷ (
        (has r.ip_plus || has r.digi_sel || has r.digi_sel_shift) && not st.backend.preselect,
        unsupported,
      )
      ∷ (has r.preamp && equal st.caps.preamp_levels (pos 0), unsupported)
      ∷ (given r.preamp (λ n. int_less n (pos 0) || int_less st.caps.preamp_levels n), unsupported)
      ∷ (has r.attenuator_db && is_nil st.caps.attenuator_db, unsupported)
      ∷ (
        given r.attenuator_db (λ db. not (supports_attenuation st.caps.attenuator_db db)),
        unsupported,
      )
      ∷ (has r.rf_gain && not st.caps.rf_gain_control, unsupported)
      ∷ (given r.rf_gain out_of_range, unsupported)
      ∷ (has r.agc && is_nil st.caps.agc_settings, unsupported)
      ∷ (given r.agc (λ a. not (agc_settable a)), unsupported)
      ∷ (given r.agc (λ a. not (contains st.caps.agc_settings a)), unsupported)
      ∷ (has r.ip_plus && not st.caps.ip_plus_control, unsupported)
      ∷ (has r.digi_sel && not st.caps.digi_sel_control, unsupported)
      ∷ (has r.digi_sel_shift && not st.caps.digi_sel_shift_control, unsupported)
      ∷ (given r.digi_sel_shift out_of_range, unsupported)
      ∷ []

  -- `validateLevelPair`
  unfoldable pub level_pair_checks : Option ℤ → Option F → ℤ → Bool → List (Bool × Fault)
  level_pair_checks sel level levels has_level =
      (has sel && equal levels (pos 0), unsupported)
      ∷ (given sel (λ n. int_less n (pos 0) || int_less levels n), unsupported)
      ∷ (has level && not has_level, unsupported)
      ∷ (given level out_of_range, unsupported)
      ∷ []

  unfoldable pub notch_checks : PatchRequest F → List (Bool × Fault)
  notch_checks r =
      (has r.notch && not st.caps.notch_control, unsupported)
      ∷ (has r.auto_notch && not st.caps.auto_notch_control, unsupported)
      ∷ (
        st.caps.notch_exclusive && given r.notch (λ b. b) && given r.auto_notch (λ b. b),
        unsupported,
      )
      ∷ (has r.notch_freq && not st.caps.notch_freq_control, unsupported)
      ∷ (given r.notch_freq out_of_range, unsupported)
      ∷ (has r.notch_width && is_nil st.caps.notch_widths, unsupported)
      ∷ (given r.notch_width (λ w. not (contains st.caps.notch_widths w)), unsupported)
      ∷ ((has r.antenna || has r.rx_antenna) && not st.backend.antenna, unsupported)
      ∷ (has r.antenna && equal st.caps.antennas (pos 0), unsupported)
      ∷ (given r.antenna (λ n. int_less n (pos 1) || int_less st.caps.antennas n), unsupported)
      ∷ (has r.rx_antenna && not st.caps.rx_antenna_control, unsupported)
      ∷ []

  unfoldable pub noise_checks : PatchRequest F → List (Bool × Fault)
  noise_checks r =
      (noise_requested r && not st.backend.noise, unsupported)
        ∷ level_pair_checks r.noise_blanker r.nb_level st.caps.noise_blanker_levels
            st.caps.nb_level_control
      ++ level_pair_checks r.noise_reduction r.nr_level st.caps.noise_reduction_levels
          st.caps.nr_level_control
      ++ notch_checks r

  unfoldable pub tx_audio_checks : PatchRequest F → List (Bool × Fault)
  tx_audio_checks r =
      (tx_audio_requested r && not st.backend.tx_audio, unsupported)
      ∷ (has r.tx_audio_gain && not st.caps.tx_audio_gain_control, unsupported)
      ∷ (given r.tx_audio_gain out_of_range, unsupported)
      ∷ (has r.proc && not st.caps.proc_control, unsupported)
      ∷ (has r.proc_level && not st.caps.proc_level_control, unsupported)
      ∷ (given r.proc_level out_of_range, unsupported)
      ∷ []

  -- The checks in `ApplyPatch` itself, up to the ones above.
  unfoldable pub own_checks : PatchRequest F → List (Bool × Fault)
  own_checks r =
      (
        given r.mode (λ m. not (is_nil st.caps.modes) && not (contains st.caps.modes m)),
        unsupported,
      )
      ∷ (given r.frequency (λ hz. not (allows_frequency st.limits.bands hz)), out_of_band)
      ∷ (has r.filter_width_hz && not st.caps.filter_width, unsupported)
      ∷ (
        given r.filter_slot (λ n.
            int_less st.caps.filter_slots (pos 1)
            || int_less n (pos 1)
            || int_less st.caps.filter_slots n),
        unsupported,
      )
      ∷ (has r.break_in && not st.caps.break_in_control, unsupported)
      ∷ (has r.ptt && not st.caps.ptt_control, unsupported)
      ∷ (has r.power && not st.caps.power_control, unsupported)
      ∷ (given r.tuner (λ t. not (tuner_valid t)), unsupported)
      ∷ (has r.tuner && not st.caps.tuner_control, unsupported)
      ∷ (given r.tuner_tune not, unsupported)
      ∷ (has r.tuner_tune && not st.caps.tuner_tune, unsupported)
      ∷ (
        has r.tuner_tune
            && ltb 0 st.frequency
            && not (allows_frequency st.limits.bands st.frequency),
        out_of_band,
      )
      ∷ (given r.vfo_mode not, unsupported)
      ∷ (has r.vfo_mode && not st.backend.vfo_mode, unsupported)
      ∷ (given r.exchange_bands not, unsupported)
      ∷ (
        has r.exchange_bands && (not st.caps.band_exchange || not st.backend.band_exchanger),
        unsupported,
      )
      ∷ (has r.split && not st.caps.split, unsupported)
      ∷ (has r.dual_watch && not st.caps.dual_watch, unsupported)
      ∷ []

  -- All of them, in order.
  unfoldable pub checks : PatchRequest F → List (Bool × Fault)
  checks r = own_checks r ++ front_end_checks r ++ noise_checks r ++ tx_audio_checks r

  -- The check of the VFO, in front of everything.
  unfoldable pub bad_vfo : PatchRequest F → Bool
  bad_vfo r = not (supports_vfo r.vfo) || (names_a_vfo r && not st.backend.dual_vfo)

  -- `clampPower` on a percentage and on watts.
  unfoldable pub clamp_pct : F → F
  clamp_pct pct =
      let f = st.floats in
      let lim = st.limits in
      let v = f.smaller (f.larger pct f.nought) f.hundred in
      let u = if f.less f.nought lim.max_power_pct then f.smaller v lim.max_power_pct else v in
      if f.less f.nought lim.max_power_w && f.less f.nought st.caps.max_power_w
      then f.smaller u (f.times (f.over lim.max_power_w st.caps.max_power_w) f.hundred)
      else u

  unfoldable pub clamp_watts : F → F
  clamp_watts watts =
      let f = st.floats in
      let lim = st.limits in
      let v = f.larger watts f.nought in
      let u = if f.less f.nought lim.max_power_w then f.smaller v lim.max_power_w else v in
      if f.less f.nought lim.max_power_pct && f.less f.nought st.caps.max_power_w
      then f.smaller u (f.times (f.over lim.max_power_pct f.hundred) st.caps.max_power_w)
      else u

  unfoldable pub clamp_power : Option F → Option F → PowerSet F ⊎ Fault
  clamp_power none none = inr bad_power
  clamp_power (some w) (some p) = inr bad_power
  clamp_power none (some p) = inl (record { watts = none; pct = some (clamp_pct p) })
  clamp_power (some w) none =
      if not st.caps.power_watt_accurate
        && not (st.floats.less st.floats.nought st.caps.max_power_w)
      then inr unsupported
      else inl (record { watts = some (clamp_watts w); pct = none })

  unfoldable pub require_connected : Option Fault
  require_connected =
      if not st.connected || not st.conn
      then some (link err_disconnected)
      else if st.standby
      then some standby
      else none
