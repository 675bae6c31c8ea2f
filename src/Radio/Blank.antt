-- ===== src/Radio/Blank.antt =====
-- A state with every field at its zero value, for tests.
use remoses.Prelude.{ℕ, false, none}
use remoses.Prelude.Int.{pos}
use remoses.Radio.{Power, Meter, CwStatus, VfoState, State}

abbrev no_power : Power ℕ
no_power = record { watts = none; pct = 0; native = pos 0 }

abbrev no_meter : Meter ℕ
no_meter = record { raw = pos 0; scale = pos 0; s_units = none }

abbrev idle_status : CwStatus
idle_status = record { busy = false; queued = pos 0; wpm = pos 0; est_remaining_ms = pos 0 }

abbrev no_vfo : VfoState
no_vfo = record {
  frequency = 0;
  mode = 0;
  data_mode = false;
  passband_hz = pos 0;
  filter_slot = pos 0;
}

-- `radio.State{}`
abbrev pub blank : State ℕ
blank = record {
  frequency = 0;
  mode = 0;
  data_mode = false;
  passband_hz = pos 0;
  filter_slot = pos 0;
  power = no_power;
  ptt = false;
  s_meter = no_meter;
  power_meter = none;
  swr = none;
  alc = none;
  swr_ratio = none;
  tuner = "";
  standby = false;
  cw = idle_status;
  connected = false;
  preamp = none;
  attenuator_db = none;
  rf_gain = none;
  agc = "";
  ip_plus = none;
  digi_sel = none;
  digi_sel_shift = none;
  noise_blanker = none;
  nb_level = none;
  noise_reduction = none;
  nr_level = none;
  notch = none;
  notch_freq = none;
  notch_width = "";
  auto_notch = none;
  antenna = none;
  rx_antenna = none;
  tx_audio_gain = none;
  proc = none;
  proc_level = none;
  vfo = 0;
  vfo_a = no_vfo;
  vfo_b = no_vfo;
  split = false;
  dual_watch = false;
  sub_s_meter = no_meter;
  selected_band = "";
  break_in = "";
  updated_at = 0;
  seq = 0;
}
