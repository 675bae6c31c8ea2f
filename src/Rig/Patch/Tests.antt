-- ===== src/Rig/Patch/Tests.antt =====
-- Tests and examples of a request with several settings, with natural numbers for the floating-point
-- ones.
use remoses.Prelude.{
  ℕ, ◌*◌, ◌/◌, min, max, ◌≡◌, refl, true, false, none, some, [], ◌∷◌, arith, ltb, All,
}
use remoses.Prelude.Int.{pos}
use remoses.Rig.Patch.{
  Backend, Floats, PatchRequest, Caps, Station, in_bands, allows_frequency, names_a_vfo,
  front_end_requested, noise_requested, tx_audio_requested, request_empty,
}
use remoses.Rig.Patch.Apply.{
  act, set_ptt, set_mode, set_frequency, set_power, sent, polled_slow, polled_fast, World, clamped,
  requested_power, retried, apply_mode_pair, mode_part, current_part, slot_left, tuning_part,
  apply_front_end, apply_noise, apply_tx_audio, settle_loop, settle_ptt, read_tier, ptt_part,
  tune_part, is_slow, read_back, transaction, with_power, apply_patch,
}
use remoses.Rig.Patch.Check.{
  refused, contains, supports_vfo, front_end_checks, level_pair_checks, notch_checks, noise_checks,
  tx_audio_checks, own_checks, checks, bad_vfo, clamp_pct, clamp_power, require_connected,
}
use remoses.Rig.Patch.Fits.{Permitted}
use remoses.Rig.Patch.Limited.{FloatLaws, Allowed}
use remoses.Rig.Patch.Parts.{Ordered, AllowedAction}
use remoses.Rig.Patch.Permits.{apply_patch-Ordered}

abbrev pub floats : Floats ℕ
floats = record {
  less = ltb;
  nought = 0;
  hundred = 100;
  smaller = min;
  larger = max;
  times = ◌*◌;
  over = ◌/◌;
}

pub floats-laws : FloatLaws floats
floats-laws = record {
  smaller_left = λ a b. ground arith;
  smaller_right = λ a b. ground arith;
  below = λ a b c h k. ground arith;
}

abbrev nothing_asked : PatchRequest ℕ
nothing_asked = record {
  mode = none;
  data_mode = none;
  vfo = 0;
  frequency = none;
  filter_slot = none;
  filter_width_hz = none;
  power = none;
  ptt = none;
  split = none;
  dual_watch = none;
  vfo_mode = none;
  break_in = none;
  tuner = none;
  tuner_tune = none;
  exchange_bands = none;
  preamp = none;
  attenuator_db = none;
  rf_gain = none;
  agc = none;
  ip_plus = none;
  digi_sel = none;
  digi_sel_shift = none;
  noise_blanker = none;
  nb_level = none;
  noise_reduction = none;
  nr_level = none;
  notch = none;
  notch_freq = none;
  notch_width = none;
  auto_notch = none;
  antenna = none;
  rx_antenna = none;
  tx_audio_gain = none;
  proc = none;
  proc_level = none;
}

abbrev pub able : Caps ℕ
able = record {
  modes = 1 ∷ 2 ∷ [];
  vfos = 1 ∷ 2 ∷ [];
  filter_width = true;
  filter_slots = pos 3;
  break_in_control = true;
  ptt_control = true;
  power_control = true;
  power_watt_accurate = true;
  max_power_w = 200;
  tuner_control = true;
  tuner_tune = true;
  band_exchange = true;
  split = true;
  dual_watch = true;
  preamp_levels = pos 3;
  attenuator_db = pos 20 ∷ [];
  rf_gain_control = true;
  agc_settings = "slow" ∷ [];
  ip_plus_control = true;
  digi_sel_control = true;
  digi_sel_shift_control = true;
  noise_blanker_levels = pos 3;
  nb_level_control = true;
  noise_reduction_levels = pos 3;
  nr_level_control = true;
  notch_control = true;
  auto_notch_control = true;
  notch_exclusive = true;
  notch_freq_control = true;
  notch_widths = "slow" ∷ [];
  antennas = pos 3;
  rx_antenna_control = true;
  tx_audio_gain_control = true;
  proc_control = true;
  proc_level_control = true;
}

abbrev pub whole : Backend
whole = record {
  dual_vfo = true;
  vfo_mode = true;
  band_exchanger = true;
  front_end = true;
  preselect = true;
  noise = true;
  antenna = true;
  tx_audio = true;
}

abbrev pub station : Station ℕ
station = record {
  floats = floats;
  caps = able;
  backend = whole;
  limits = record { max_power_pct = 80; max_power_w = 0; bands = (14_000_000, 14_350_000) ∷ [] };
  frequency = 14_025_000;
  connected = true;
  conn = true;
  standby = false;
}

-- Every command is taken, and the cache reads USB with data.
abbrev pub willing : World ℕ
willing = record {
  answer = λ log. none;
  reading = λ log. (1, true);
  keyed = λ log. true;
  gone = λ log. false;
}

abbrev call_cq : PatchRequest ℕ
call_cq = record nothing_asked {
  mode = some 2;
  frequency = some 14_020_000;
  power = some (record { watts = none; pct = some 100 });
  ptt = some true;
}

-- 100 percent becomes 80, and PTT comes last.
call_cq-sent :
    (apply_patch willing station call_cq).1
    ≡ polled_fast
      ∷ polled_slow
      ∷ sent (set_ptt true)
      ∷ sent (set_power (record { watts = none; pct = some 80 }))
      ∷ sent (set_frequency 0 14_020_000)
      ∷ sent (set_mode 2 true)
      ∷ []
unfolding apply_patch bad_vfo supports_vfo names_a_vfo request_empty noise_requested
    tx_audio_requested refused checks own_checks contains allows_frequency in_bands front_end_checks
    noise_checks notch_checks tx_audio_checks level_pair_checks requested_power clamp_power clamped
    clamp_pct with_power require_connected transaction act tuning_part current_part mode_part
    apply_mode_pair retried slot_left apply_front_end apply_noise apply_tx_audio ptt_part settle_ptt
    settle_loop tune_part read_back read_tier is_slow front_end_requested
call_cq-sent = refl

apply_patch-Ordered_example :
    Ordered (apply_patch willing station call_cq).1
    × All (AllowedAction (Allowed station)) (apply_patch willing station call_cq).1
apply_patch-Ordered_example = apply_patch-Ordered station willing call_cq floats-laws
