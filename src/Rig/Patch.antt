-- ===== src/Rig/Patch.antt =====
-- A change of several settings in one request (`PatchRequest` and `ApplyPatch` of
-- internal/rig/session.go): the request, what the radio can do, and the limits of the station. Modes and
-- VFOs are their numbers: 0 is the current VFO, 1 is A, 2 is B, 3 main and 4 sub. A capability's
-- controller is there wherever the code calls it without a check of its own.
pub mod Check
pub mod Apply
pub mod Parts
pub mod Limited
pub mod Orders
pub mod Permits
pub mod Fits
pub mod Readings
pub mod Passing
pub mod Permitted
pub mod Tests
use remoses.Prelude.{
  ℕ, String, Bool, true, false, not, ◌&&◌, ◌||◌, Option, none, some, List, [], ◌∷◌, leb, ◌==◌,
}
use remoses.Prelude.Int.{ℤ}
use remoses.Rig.Backoff.{Failure}

-- Floating-point numbers: their order, their constants and what the power limits compute with.
pub record Floats {ℓ} (F : Type ℓ) : Type ℓ where
  pub less : F → F → Bool
  pub nought : F
  pub hundred : F
  pub smaller : F → F → F
  pub larger : F → F → F
  pub times : F → F → F
  pub over : F → F → F

-- `radio.PowerSet`
pub record PowerSet {ℓ} (F : Type ℓ) : Type ℓ where
  pub watts : Option F
  pub pct : Option F

pub record PatchRequest {ℓ} (F : Type ℓ) : Type ℓ where
  pub mode : Option ℕ
  pub data_mode : Option Bool
  pub vfo : ℕ
  pub frequency : Option ℕ
  pub filter_slot : Option ℤ
  pub filter_width_hz : Option ℤ
  pub power : Option (PowerSet F)
  pub ptt : Option Bool
  pub split : Option Bool
  pub dual_watch : Option Bool
  pub vfo_mode : Option Bool
  pub break_in : Option String
  pub tuner : Option String
  pub tuner_tune : Option Bool
  pub exchange_bands : Option Bool
  pub preamp : Option ℤ
  pub attenuator_db : Option ℤ
  pub rf_gain : Option F
  pub agc : Option String
  pub ip_plus : Option Bool
  pub digi_sel : Option Bool
  pub digi_sel_shift : Option F
  pub noise_blanker : Option ℤ
  pub nb_level : Option F
  pub noise_reduction : Option ℤ
  pub nr_level : Option F
  pub notch : Option Bool
  pub notch_freq : Option F
  pub notch_width : Option String
  pub auto_notch : Option Bool
  pub antenna : Option ℤ
  pub rx_antenna : Option Bool
  pub tx_audio_gain : Option F
  pub proc : Option Bool
  pub proc_level : Option F

-- What of `radio.Caps` is read here.
pub record Caps {ℓ} (F : Type ℓ) : Type ℓ where
  pub modes : List ℕ
  pub vfos : List ℕ
  pub filter_width : Bool
  pub filter_slots : ℤ
  pub break_in_control : Bool
  pub ptt_control : Bool
  pub power_control : Bool
  pub power_watt_accurate : Bool
  pub max_power_w : F
  pub tuner_control : Bool
  pub tuner_tune : Bool
  pub band_exchange : Bool
  pub split : Bool
  pub dual_watch : Bool
  pub preamp_levels : ℤ
  pub attenuator_db : List ℤ
  pub rf_gain_control : Bool
  pub agc_settings : List String
  pub ip_plus_control : Bool
  pub digi_sel_control : Bool
  pub digi_sel_shift_control : Bool
  pub noise_blanker_levels : ℤ
  pub nb_level_control : Bool
  pub noise_reduction_levels : ℤ
  pub nr_level_control : Bool
  pub notch_control : Bool
  pub auto_notch_control : Bool
  pub notch_exclusive : Bool
  pub notch_freq_control : Bool
  pub notch_widths : List String
  pub antennas : ℤ
  pub rx_antenna_control : Bool
  pub tx_audio_gain_control : Bool
  pub proc_control : Bool
  pub proc_level_control : Bool

-- Which optional interfaces the backend has.
pub record Backend : Type 0 where
  pub dual_vfo : Bool
  pub vfo_mode : Bool
  pub band_exchanger : Bool
  pub front_end : Bool
  pub preselect : Bool
  pub noise : Bool
  pub antenna : Bool
  pub tx_audio : Bool

-- `config.Limits`; a band is its two ends.
pub record Limits {ℓ} (F : Type ℓ) : Type ℓ where
  pub max_power_pct : F
  pub max_power_w : F
  pub bands : List (ℕ × ℕ)

-- What a request can end in.
pub data Fault : Type 0 where
  unsupported out_of_band bad_power standby : Fault
  link : Failure → Fault

-- The session as the request finds it.
pub record Station {ℓ} (F : Type ℓ) : Type ℓ where
  pub floats : Floats F
  pub caps : Caps F
  pub backend : Backend
  pub limits : Limits F
  pub frequency : ℕ
  pub connected : Bool
  pub conn : Bool
  pub standby : Bool

-- The loop of `AllowsFrequency`, and that with its guard.
unfoldable pub in_bands : List (ℕ × ℕ) → ℕ → Bool
in_bands [] hz = false
in_bands ((low, high) ∷ bs) hz = (leb low hz && leb hz high) || in_bands bs hz

unfoldable pub allows_frequency : List (ℕ × ℕ) → ℕ → Bool
allows_frequency [] hz = true
allows_frequency (b ∷ bs) hz = in_bands (b ∷ bs) hz

abbrev pub has {ℓ} : {A : Type ℓ} → Option A → Bool
has none = false
has (some v) = true

module _ {ℓ} {F : Type ℓ} where
  unfoldable pub names_a_vfo : PatchRequest F → Bool
  names_a_vfo r = r.vfo == 1 || r.vfo == 2 || r.vfo == 3 || r.vfo == 4

  unfoldable pub front_end_requested : PatchRequest F → Bool
  front_end_requested r =
      has r.preamp
      || has r.attenuator_db
      || has r.rf_gain
      || has r.agc
      || has r.ip_plus
      || has r.digi_sel
      || has r.digi_sel_shift

  unfoldable pub noise_requested : PatchRequest F → Bool
  noise_requested r =
      has r.noise_blanker
      || has r.nb_level
      || has r.noise_reduction
      || has r.nr_level
      || has r.notch
      || has r.notch_freq
      || has r.notch_width
      || has r.auto_notch

  unfoldable pub tx_audio_requested : PatchRequest F → Bool
  tx_audio_requested r = has r.tx_audio_gain || has r.proc || has r.proc_level

  unfoldable pub request_empty : PatchRequest F → Bool
  request_empty r = not (
      has r.mode
      || has r.data_mode
      || has r.frequency
      || has r.filter_slot
      || has r.filter_width_hz
      || has r.power
      || has r.ptt
      || has r.split
      || has r.dual_watch
      || has r.vfo_mode
      || has r.break_in
      || has r.tuner
      || has r.tuner_tune
      || has r.exchange_bands
      || has r.preamp
      || has r.attenuator_db
      || has r.rf_gain
      || has r.agc
      || has r.ip_plus
      || has r.digi_sel
      || has r.digi_sel_shift
      || noise_requested r
      || has r.antenna
      || has r.rx_antenna
      || tx_audio_requested r)
