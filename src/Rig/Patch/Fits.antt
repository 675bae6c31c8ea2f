-- ===== src/Rig/Patch/Fits.antt =====
-- What a request has to fit: what the radio can do and what the station allows.
use remoses.Prelude.{◌≡◌, Bool, true, false, not, ◌&&◌, ◌||◌, Option, none, some, ltb}
use remoses.Prelude.Compare.{
  equal, nat_comparable, int_comparable, bool_comparable, string_comparable,
}
use remoses.Prelude.Int.{ℤ, pos}
use remoses.Radio.Compared.{meter_comparable, power_comparable, cw_comparable, vfo_comparable}
use remoses.Rig.Patch.{
  has, PatchRequest, Station, allows_frequency, names_a_vfo, noise_requested, tx_audio_requested,
}
use remoses.Rig.Patch.Check.{
  given, contains, is_nil, int_less, supports_attenuation, tuner_valid, agc_settable, supports_vfo,
}

-- What is pointed at, if anything is, meets a condition.
abbrev pub When {ℓ} : {A : Type ℓ} → Option A → (A → Type 0) → Type 0
When none P = Unit
When (some v) P = P v

-- From the first to the last.
abbrev pub Between : ℤ → ℤ → ℤ → Type 0
Between first last n = (int_less n first ≡ false) × (int_less last n ≡ false)

module _ {ℓ} {F : Type ℓ} (st : Station F) where
  -- From 0 to 100.
  abbrev pub InPercent : F → Type 0
  InPercent v =
      (st.floats.less v st.floats.nought ≡ false) × (st.floats.less st.floats.hundred v ≡ false)

  -- A number of levels, of which there are some, and a level in percent, where there is one.
  abbrev pub PairFits : Option ℤ → Option F → ℤ → Bool → Type 0
  PairFits sel level levels control =
      When sel (λ n. (equal levels (pos 0) ≡ false) × Between (pos 0) levels n)
      × When level (λ v. (control ≡ true) × InPercent v)

  -- The request is for a radio on line, and for a VFO that it has.
  abbrev pub OnLine : Type 0
  OnLine = (st.connected ≡ true) × (st.conn ≡ true) × (st.standby ≡ false)

  abbrev pub VfoFits : PatchRequest F → Type 0
  VfoFits r = (supports_vfo st r.vfo ≡ true) × (names_a_vfo r ≡ true → st.backend.dual_vfo ≡ true)

  -- A power is in one unit, and in watts only where the radio is accurate in them or its full power is
  -- known.
  abbrev pub PowerFits : PatchRequest F → Type 0
  PowerFits r = When r.power (λ p.
      (has p.watts ≡ not (has p.pct))
      × When p.watts (λ w.
        (st.caps.power_watt_accurate || st.floats.less st.floats.nought st.caps.max_power_w)
        ≡ true))

  abbrev pub OwnFits : PatchRequest F → Type 0
  OwnFits r =
      When r.mode (λ m. (is_nil st.caps.modes || contains st.caps.modes m) ≡ true)
      × When r.frequency (λ hz. allows_frequency st.limits.bands hz ≡ true)
      × When r.filter_width_hz (λ hz. st.caps.filter_width ≡ true)
      × When r.filter_slot (Between (pos 1) st.caps.filter_slots)
      × When r.break_in (λ b. st.caps.break_in_control ≡ true)
      × When r.ptt (λ on. st.caps.ptt_control ≡ true)
      × When r.power (λ p. st.caps.power_control ≡ true)
      × When r.tuner (λ t. (tuner_valid t ≡ true) × (st.caps.tuner_control ≡ true))
      × When r.tuner_tune (λ on. (on ≡ true) × (st.caps.tuner_tune ≡ true))
      × (has r.tuner_tune ≡ true
          → ltb 0 st.frequency ≡ true
          → allows_frequency st.limits.bands st.frequency ≡ true)
      × When r.vfo_mode (λ on. (on ≡ true) × (st.backend.vfo_mode ≡ true))
      × When r.exchange_bands
          (λ on. (on ≡ true) × ((st.caps.band_exchange && st.backend.band_exchanger) ≡ true))
      × When r.split (λ on. st.caps.split ≡ true)
      × When r.dual_watch (λ on. st.caps.dual_watch ≡ true)

  abbrev pub FrontEndFits : PatchRequest F → Type 0
  FrontEndFits r =
      ((has r.preamp || has r.attenuator_db || has r.rf_gain || has r.agc) ≡ true
        → st.backend.front_end ≡ true)
      × ((has r.ip_plus || has r.digi_sel || has r.digi_sel_shift) ≡ true
          → st.backend.preselect ≡ true)
      × When r.preamp (λ n.
        (equal st.caps.preamp_levels (pos 0) ≡ false) × Between (pos 0) st.caps.preamp_levels n)
      × When r.attenuator_db (λ db. supports_attenuation st.caps.attenuator_db db ≡ true)
      × When r.rf_gain (λ v. (st.caps.rf_gain_control ≡ true) × InPercent v)
      × When r.agc (λ a. (agc_settable a ≡ true) × (contains st.caps.agc_settings a ≡ true))
      × When r.ip_plus (λ on. st.caps.ip_plus_control ≡ true)
      × When r.digi_sel (λ on. st.caps.digi_sel_control ≡ true)
      × When r.digi_sel_shift (λ v. (st.caps.digi_sel_shift_control ≡ true) × InPercent v)

  abbrev pub NoiseFits : PatchRequest F → Type 0
  NoiseFits r =
      (noise_requested r ≡ true → st.backend.noise ≡ true)
      × PairFits r.noise_blanker r.nb_level st.caps.noise_blanker_levels st.caps.nb_level_control
      × PairFits r.noise_reduction r.nr_level st.caps.noise_reduction_levels
          st.caps.nr_level_control
      × When r.notch (λ on. st.caps.notch_control ≡ true)
      × When r.auto_notch (λ on. st.caps.auto_notch_control ≡ true)
      × ((st.caps.notch_exclusive && given r.notch (λ b. b) && given r.auto_notch (λ b. b)) ≡ false)
      × When r.notch_freq (λ v. (st.caps.notch_freq_control ≡ true) × InPercent v)
      × When r.notch_width (λ w. contains st.caps.notch_widths w ≡ true)
      × ((has r.antenna || has r.rx_antenna) ≡ true → st.backend.antenna ≡ true)
      × When r.antenna
          (λ n. (equal st.caps.antennas (pos 0) ≡ false) × Between (pos 1) st.caps.antennas n)
      × When r.rx_antenna (λ on. st.caps.rx_antenna_control ≡ true)

  abbrev pub TxAudioFits : PatchRequest F → Type 0
  TxAudioFits r =
      (tx_audio_requested r ≡ true → st.backend.tx_audio ≡ true)
      × When r.tx_audio_gain (λ v. (st.caps.tx_audio_gain_control ≡ true) × InPercent v)
      × When r.proc (λ on. st.caps.proc_control ≡ true)
      × When r.proc_level (λ v. (st.caps.proc_level_control ≡ true) × InPercent v)

  -- All of it.
  abbrev pub Permitted : PatchRequest F → Type 0
  Permitted r =
      VfoFits r × OnLine × PowerFits r × OwnFits r × FrontEndFits r × NoiseFits r × TxAudioFits r
