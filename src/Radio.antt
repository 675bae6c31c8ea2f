-- ===== src/Radio.antt =====
-- The state of a radio and the changes to it (internal/radio/types.go). A pointer that may be nil is an
-- option, since the code copies what it points at or never writes through it. `F` is the type of the
-- floating-point numbers, with their `==`. Modes and VFOs are their numbers, and the settings that Go
-- has as named strings are strings.
pub mod Compared
pub mod Change
pub mod Diffed
pub mod Follow
pub mod Blank
mod Tests
use remoses.Prelude.{ℕ, String, Bool, Option}
use remoses.Prelude.Int.{ℤ}

pub record Power {ℓ} (F : Type ℓ) : Type ℓ where
  pub watts : Option F
  pub pct : F
  pub native : ℤ

pub record Meter {ℓ} (F : Type ℓ) : Type ℓ where
  pub raw : ℤ
  pub scale : ℤ
  pub s_units : Option F

pub record CwStatus : Type 0 where
  pub busy : Bool
  pub queued : ℤ
  pub wpm : ℤ
  pub est_remaining_ms : ℤ

pub record VfoState : Type 0 where
  pub frequency : ℕ
  pub mode : ℕ
  pub data_mode : Bool
  pub passband_hz : ℤ
  pub filter_slot : ℤ

-- `updated_at` and `seq` are the session's own.
pub record State {ℓ} (F : Type ℓ) : Type ℓ where
  pub frequency : ℕ
  pub mode : ℕ
  pub data_mode : Bool
  pub passband_hz : ℤ
  pub filter_slot : ℤ
  pub power : Power F
  pub ptt : Bool
  pub s_meter : Meter F
  pub power_meter : Option (Meter F)
  pub swr : Option (Meter F)
  pub alc : Option (Meter F)
  pub swr_ratio : Option F
  pub tuner : String
  pub standby : Bool
  pub cw : CwStatus
  pub connected : Bool
  pub preamp : Option ℤ
  pub attenuator_db : Option ℤ
  pub rf_gain : Option F
  pub agc : String
  pub ip_plus : Option Bool
  pub digi_sel : Option Bool
  pub digi_sel_shift : Option F
  pub noise_blanker : Option ℤ
  pub nb_level : Option F
  pub noise_reduction : Option ℤ
  pub nr_level : Option F
  pub notch : Option Bool
  pub notch_freq : Option F
  pub notch_width : String
  pub auto_notch : Option Bool
  pub antenna : Option ℤ
  pub rx_antenna : Option Bool
  pub tx_audio_gain : Option F
  pub proc : Option Bool
  pub proc_level : Option F
  pub vfo : ℕ
  pub vfo_a : VfoState
  pub vfo_b : VfoState
  pub split : Bool
  pub dual_watch : Bool
  pub sub_s_meter : Meter F
  pub selected_band : String
  pub break_in : String
  pub updated_at : ℕ
  pub seq : ℕ

-- `none` is a field that the change leaves alone.
pub record Patch {ℓ} (F : Type ℓ) : Type ℓ where
  pub frequency : Option ℕ
  pub mode : Option ℕ
  pub data_mode : Option Bool
  pub passband_hz : Option ℤ
  pub filter_slot : Option ℤ
  pub power : Option (Power F)
  pub ptt : Option Bool
  pub s_meter : Option (Meter F)
  pub power_meter : Option (Meter F)
  pub swr : Option (Meter F)
  pub alc : Option (Meter F)
  pub swr_ratio : Option F
  pub tuner : Option String
  pub standby : Option Bool
  pub cw : Option CwStatus
  pub connected : Option Bool
  pub preamp : Option ℤ
  pub attenuator_db : Option ℤ
  pub rf_gain : Option F
  pub agc : Option String
  pub ip_plus : Option Bool
  pub digi_sel : Option Bool
  pub digi_sel_shift : Option F
  pub noise_blanker : Option ℤ
  pub nb_level : Option F
  pub noise_reduction : Option ℤ
  pub nr_level : Option F
  pub notch : Option Bool
  pub notch_freq : Option F
  pub notch_width : Option String
  pub auto_notch : Option Bool
  pub antenna : Option ℤ
  pub rx_antenna : Option Bool
  pub tx_audio_gain : Option F
  pub proc : Option Bool
  pub proc_level : Option F
  pub vfo : Option ℕ
  pub vfo_a : Option VfoState
  pub vfo_b : Option VfoState
  pub split : Option Bool
  pub dual_watch : Option Bool
  pub sub_s_meter : Option (Meter F)
  pub selected_band : Option String
  pub break_in : Option String
