-- ===== src/Radio/Change.antt =====
-- Applying a change to a state, and the change between two states (`Apply`, `Diff` and `Empty` of
-- internal/radio/types.go).
use remoses.Prelude.{Bool, true, false, ◌&&◌, Option, none, some, if◌then◌else◌}
use remoses.Prelude.Compare.{
  Comparable, equal, same_ptr, nat_comparable, int_comparable, bool_comparable, string_comparable,
}
use remoses.Radio.{State, Patch}
use remoses.Radio.Compared.{meter_comparable, power_comparable, cw_comparable, vfo_comparable}

-- `if p.X != nil { s.X = *p.X }`, for a field and for one that is a pointer itself.
abbrev pub set {ℓ} : {A : Type ℓ} → Option A → A → A
set none old = old
set (some v) old = v

abbrev pub set_ptr {ℓ} : {A : Type ℓ} → Option A → Option A → Option A
set_ptr none old = old
set_ptr (some v) old = some v

-- `if s.X != next.X { p.X = &next.X }`, and the same for pointers by what they point at.
abbrev pub changed {ℓ} : {A : Type ℓ} ⦃c : Comparable A⦄ → A → A → Option A
changed old new = if equal old new then none else some new

abbrev pub changed_ptr {ℓ} : {A : Type ℓ} ⦃c : Comparable A⦄ → Option A → Option A → Option A
changed_ptr old new = if same_ptr old new then none else new

abbrev pub is_none {ℓ} : {A : Type ℓ} → Option A → Bool
is_none none = true
is_none (some v) = false

module _ {ℓ} {F : Type ℓ} where
  -- `Patch{}`
  abbrev pub no_patch : Patch F
  no_patch = record {
    frequency = none;
    mode = none;
    data_mode = none;
    passband_hz = none;
    filter_slot = none;
    power = none;
    ptt = none;
    s_meter = none;
    power_meter = none;
    swr = none;
    alc = none;
    swr_ratio = none;
    tuner = none;
    standby = none;
    cw = none;
    connected = none;
    preamp = none;
    attenuator_db = none;
    rf_gain = none;
    agc = none;
    ip_plus = none;
    digi_sel = none;
    digi_sel_shift = none;
    noise_blanker = none;
    nb_level = none;
    noise_reduction = none;
    nr_level = none;
    notch = none;
    notch_freq = none;
    notch_width = none;
    auto_notch = none;
    antenna = none;
    rx_antenna = none;
    tx_audio_gain = none;
    proc = none;
    proc_level = none;
    vfo = none;
    vfo_a = none;
    vfo_b = none;
    split = none;
    dual_watch = none;
    sub_s_meter = none;
    selected_band = none;
    break_in = none;
  }

  unfoldable pub empty : Patch F → Bool
  empty p =
      is_none p.frequency
      && is_none p.mode
      && is_none p.data_mode
      && is_none p.passband_hz
      && is_none p.filter_slot
      && is_none p.power
      && is_none p.ptt
      && is_none p.s_meter
      && is_none p.power_meter
      && is_none p.swr
      && is_none p.alc
      && is_none p.swr_ratio
      && is_none p.tuner
      && is_none p.standby
      && is_none p.cw
      && is_none p.connected
      && is_none p.preamp
      && is_none p.attenuator_db
      && is_none p.rf_gain
      && is_none p.agc
      && is_none p.ip_plus
      && is_none p.digi_sel
      && is_none p.digi_sel_shift
      && is_none p.noise_blanker
      && is_none p.nb_level
      && is_none p.noise_reduction
      && is_none p.nr_level
      && is_none p.notch
      && is_none p.notch_freq
      && is_none p.notch_width
      && is_none p.auto_notch
      && is_none p.antenna
      && is_none p.rx_antenna
      && is_none p.tx_audio_gain
      && is_none p.proc
      && is_none p.proc_level
      && is_none p.vfo
      && is_none p.vfo_a
      && is_none p.vfo_b
      && is_none p.split
      && is_none p.dual_watch
      && is_none p.sub_s_meter
      && is_none p.selected_band
      && is_none p.break_in

  -- The assignments of `Apply`.
  unfoldable pub merge : State F → Patch F → State F
  merge s p = record {
    frequency = set p.frequency s.frequency;
    mode = set p.mode s.mode;
    data_mode = set p.data_mode s.data_mode;
    passband_hz = set p.passband_hz s.passband_hz;
    filter_slot = set p.filter_slot s.filter_slot;
    power = set p.power s.power;
    ptt = set p.ptt s.ptt;
    s_meter = set p.s_meter s.s_meter;
    power_meter = set_ptr p.power_meter s.power_meter;
    swr = set_ptr p.swr s.swr;
    alc = set_ptr p.alc s.alc;
    swr_ratio = set_ptr p.swr_ratio s.swr_ratio;
    tuner = set p.tuner s.tuner;
    standby = set p.standby s.standby;
    cw = set p.cw s.cw;
    connected = set p.connected s.connected;
    preamp = set_ptr p.preamp s.preamp;
    attenuator_db = set_ptr p.attenuator_db s.attenuator_db;
    rf_gain = set_ptr p.rf_gain s.rf_gain;
    agc = set p.agc s.agc;
    ip_plus = set_ptr p.ip_plus s.ip_plus;
    digi_sel = set_ptr p.digi_sel s.digi_sel;
    digi_sel_shift = set_ptr p.digi_sel_shift s.digi_sel_shift;
    noise_blanker = set_ptr p.noise_blanker s.noise_blanker;
    nb_level = set_ptr p.nb_level s.nb_level;
    noise_reduction = set_ptr p.noise_reduction s.noise_reduction;
    nr_level = set_ptr p.nr_level s.nr_level;
    notch = set_ptr p.notch s.notch;
    notch_freq = set_ptr p.notch_freq s.notch_freq;
    notch_width = set p.notch_width s.notch_width;
    auto_notch = set_ptr p.auto_notch s.auto_notch;
    antenna = set_ptr p.antenna s.antenna;
    rx_antenna = set_ptr p.rx_antenna s.rx_antenna;
    tx_audio_gain = set_ptr p.tx_audio_gain s.tx_audio_gain;
    proc = set_ptr p.proc s.proc;
    proc_level = set_ptr p.proc_level s.proc_level;
    vfo = set p.vfo s.vfo;
    vfo_a = set p.vfo_a s.vfo_a;
    vfo_b = set p.vfo_b s.vfo_b;
    split = set p.split s.split;
    dual_watch = set p.dual_watch s.dual_watch;
    sub_s_meter = set p.sub_s_meter s.sub_s_meter;
    selected_band = set p.selected_band s.selected_band;
    break_in = set p.break_in s.break_in;
    updated_at = s.updated_at;
    seq = s.seq;
  }

  -- The transmit meters go with the transmission.
  unfoldable pub clear_meters : State F → State F
  clear_meters s =
      if s.ptt then s else record s { power_meter = none; swr = none; alc = none; swr_ratio = none }

  unfoldable pub apply : State F → Patch F → State F
  unfolding merge
  apply s p = clear_meters (merge s p)

-- `Diff` has no line for the three transmit audio fields.
module _ {ℓ} {F : Type ℓ} ⦃float : Comparable F⦄ where
  unfoldable pub diff : State F → State F → Patch F
  diff s next = record {
    frequency = changed s.frequency next.frequency;
    mode = changed s.mode next.mode;
    data_mode = changed s.data_mode next.data_mode;
    passband_hz = changed s.passband_hz next.passband_hz;
    filter_slot = changed s.filter_slot next.filter_slot;
    power = changed s.power next.power;
    ptt = changed s.ptt next.ptt;
    s_meter = changed s.s_meter next.s_meter;
    power_meter = changed_ptr s.power_meter next.power_meter;
    swr = changed_ptr s.swr next.swr;
    alc = changed_ptr s.alc next.alc;
    swr_ratio = changed_ptr s.swr_ratio next.swr_ratio;
    tuner = changed s.tuner next.tuner;
    standby = changed s.standby next.standby;
    cw = changed s.cw next.cw;
    connected = changed s.connected next.connected;
    preamp = changed_ptr s.preamp next.preamp;
    attenuator_db = changed_ptr s.attenuator_db next.attenuator_db;
    rf_gain = changed_ptr s.rf_gain next.rf_gain;
    agc = changed s.agc next.agc;
    ip_plus = changed_ptr s.ip_plus next.ip_plus;
    digi_sel = changed_ptr s.digi_sel next.digi_sel;
    digi_sel_shift = changed_ptr s.digi_sel_shift next.digi_sel_shift;
    noise_blanker = changed_ptr s.noise_blanker next.noise_blanker;
    nb_level = changed_ptr s.nb_level next.nb_level;
    noise_reduction = changed_ptr s.noise_reduction next.noise_reduction;
    nr_level = changed_ptr s.nr_level next.nr_level;
    notch = changed_ptr s.notch next.notch;
    notch_freq = changed_ptr s.notch_freq next.notch_freq;
    notch_width = changed s.notch_width next.notch_width;
    auto_notch = changed_ptr s.auto_notch next.auto_notch;
    antenna = changed_ptr s.antenna next.antenna;
    rx_antenna = changed_ptr s.rx_antenna next.rx_antenna;
    tx_audio_gain = none;
    proc = none;
    proc_level = none;
    vfo = changed s.vfo next.vfo;
    vfo_a = changed s.vfo_a next.vfo_a;
    vfo_b = changed s.vfo_b next.vfo_b;
    split = changed s.split next.split;
    dual_watch = changed s.dual_watch next.dual_watch;
    sub_s_meter = changed s.sub_s_meter next.sub_s_meter;
    selected_band = changed s.selected_band next.selected_band;
    break_in = changed s.break_in next.break_in;
  }
