-- ===== src/Ws/Render.antt =====
-- Rendering the messages (`message`, `changedFields` of internal/ws), and what a reader makes of a
-- delta by a JSON merge (`ApplyDelta` of internal/client/stream.go).
pub mod Merge
use remoses.Prelude.{ℕ, Bool, false, not, ◌||◌, Option, none, some, ◌==◌, if◌then◌else◌}
use remoses.Radio.{Meter, State, Patch}
use remoses.Radio.Change.{set, set_ptr, is_none}
use remoses.Rig.Cache.{EventKind, event_cw}
use remoses.Rig.Patch.{standby}
use remoses.Ws.{DiscreteEvent, Changed, Message, cw_msg, conn_msg}

-- `m[name] = p.X`, for a pointer that goes out as it is.
abbrev pub pointer {ℓ} : {A : Type ℓ} → Option A → Option (Option A)
pointer none = none
pointer (some v) = some (some v)

-- `if !e.TS.IsZero()`, with 0 for the zero time.
abbrev pub stamped : ℕ → ℕ → ℕ
stamped at_time old = if at_time == 0 then old else at_time

-- `p.PTT != nil && !*p.PTT`
abbrev pub drops_ptt : Option Bool → Bool
drops_ptt none = false
drops_ptt (some on) = not on

module _ {ℓ} {F : Type ℓ} where
  -- `message` of a discrete event; the frame of a CW event carries three of the fields of its status.
  unfoldable pub kind_message : EventKind → DiscreteEvent → Message F
  kind_message event_cw d = cw_msg d.radio_id d.seq d.at_time d.cw.busy d.cw.queued d.cw.wpm
  kind_message _ d = conn_msg d.radio_id d.seq d.at_time d.up d.err

  abbrev pub event_message : DiscreteEvent → Message F
  event_message d = kind_message d.kind d

  -- What makes the transmit meters go out, all four.
  abbrev pub meters_change : Patch F → Bool
  meters_change p =
      not (is_none p.power_meter)
      || not (is_none p.swr)
      || not (is_none p.alc)
      || not (is_none p.swr_ratio)
      || drops_ptt p.ptt

  unfoldable pub changed_fields : Patch F → State F → Changed F
  changed_fields p st = record {
    frequency = p.frequency;
    mode = p.mode;
    data_mode = p.data_mode;
    passband_hz = p.passband_hz;
    filter_slot = p.filter_slot;
    power = p.power;
    ptt = p.ptt;
    s_meter = p.s_meter;
    power_meter = if meters_change p then some st.power_meter else none;
    swr = if meters_change p then some st.swr else none;
    alc = if meters_change p then some st.alc else none;
    swr_ratio = if meters_change p then some st.swr_ratio else none;
    tuner = p.tuner;
    standby = p.standby;
    cw = p.cw;
    connected = p.connected;
    preamp = pointer p.preamp;
    attenuator_db = pointer p.attenuator_db;
    rf_gain = pointer p.rf_gain;
    agc = p.agc;
    ip_plus = pointer p.ip_plus;
    digi_sel = pointer p.digi_sel;
    digi_sel_shift = pointer p.digi_sel_shift;
    noise_blanker = pointer p.noise_blanker;
    nb_level = pointer p.nb_level;
    noise_reduction = pointer p.noise_reduction;
    nr_level = pointer p.nr_level;
    notch = pointer p.notch;
    notch_freq = pointer p.notch_freq;
    notch_width = p.notch_width;
    auto_notch = pointer p.auto_notch;
    antenna = pointer p.antenna;
    rx_antenna = pointer p.rx_antenna;
    tx_audio_gain = pointer p.tx_audio_gain;
    proc = pointer p.proc;
    proc_level = pointer p.proc_level;
    vfo = p.vfo;
    vfo_a = p.vfo_a;
    vfo_b = p.vfo_b;
    split = p.split;
    dual_watch = p.dual_watch;
    sub_s_meter = p.sub_s_meter;
    selected_band = p.selected_band;
    break_in = p.break_in;
  }

  -- A meter decoded onto a meter: a reading in S-units that is left out, as it is where there is none,
  -- leaves the one that was there.
  unfoldable pub merge_meter : Option (Meter F) → Meter F → Meter F
  merge_meter none old = old
  merge_meter (some m) old = record m { s_units = set_ptr m.s_units old.s_units }

  -- The members of a delta decoded onto a state; the number and the time are those of the frame. The
  -- transmit meters are of the third-party type `Nullable`, which a member replaces as a whole; the
  -- other members that are objects are written with all of their fields.
  unfoldable pub apply_delta : ℕ → ℕ → Changed F → State F → State F
  apply_delta seq at_time m st = record {
    frequency = set m.frequency st.frequency;
    mode = set m.mode st.mode;
    data_mode = set m.data_mode st.data_mode;
    passband_hz = set m.passband_hz st.passband_hz;
    filter_slot = set m.filter_slot st.filter_slot;
    power = set m.power st.power;
    ptt = set m.ptt st.ptt;
    s_meter = merge_meter m.s_meter st.s_meter;
    power_meter = set m.power_meter st.power_meter;
    swr = set m.swr st.swr;
    alc = set m.alc st.alc;
    swr_ratio = set m.swr_ratio st.swr_ratio;
    tuner = set m.tuner st.tuner;
    standby = set m.standby st.standby;
    cw = set m.cw st.cw;
    connected = set m.connected st.connected;
    preamp = set m.preamp st.preamp;
    attenuator_db = set m.attenuator_db st.attenuator_db;
    rf_gain = set m.rf_gain st.rf_gain;
    agc = set m.agc st.agc;
    ip_plus = set m.ip_plus st.ip_plus;
    digi_sel = set m.digi_sel st.digi_sel;
    digi_sel_shift = set m.digi_sel_shift st.digi_sel_shift;
    noise_blanker = set m.noise_blanker st.noise_blanker;
    nb_level = set m.nb_level st.nb_level;
    noise_reduction = set m.noise_reduction st.noise_reduction;
    nr_level = set m.nr_level st.nr_level;
    notch = set m.notch st.notch;
    notch_freq = set m.notch_freq st.notch_freq;
    notch_width = set m.notch_width st.notch_width;
    auto_notch = set m.auto_notch st.auto_notch;
    antenna = set m.antenna st.antenna;
    rx_antenna = set m.rx_antenna st.rx_antenna;
    tx_audio_gain = set m.tx_audio_gain st.tx_audio_gain;
    proc = set m.proc st.proc;
    proc_level = set m.proc_level st.proc_level;
    vfo = set m.vfo st.vfo;
    vfo_a = set m.vfo_a st.vfo_a;
    vfo_b = set m.vfo_b st.vfo_b;
    split = set m.split st.split;
    dual_watch = set m.dual_watch st.dual_watch;
    sub_s_meter = merge_meter m.sub_s_meter st.sub_s_meter;
    selected_band = set m.selected_band st.selected_band;
    break_in = set m.break_in st.break_in;
    updated_at = stamped at_time st.updated_at;
    seq = seq;
  }
