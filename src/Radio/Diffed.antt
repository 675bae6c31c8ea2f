-- ===== src/Radio/Diffed.antt =====
-- What the change between two states tells of them.
use remoses.Prelude.{
  ◌≡◌, refl, sym, ap, ◌∙◌, inl, inr, true, false, Option, none, some, Bool-cases, if-false,
}
use remoses.Prelude.Compare.{
  Comparable, equal, nat_comparable, int_comparable, bool_comparable, string_comparable,
}
use remoses.Radio.{State, Patch}
use remoses.Radio.Change.{set, set_ptr, changed, changed_ptr, merge, clear_meters, apply, diff}
use remoses.Radio.Compared.{meter_comparable, power_comparable, cw_comparable, vfo_comparable}

set-changed {ℓ} : {A : Type ℓ} ⦃c : Comparable A⦄ (old new : A) → set (changed old new) old ≡ new
set-changed ⦃c⦄ old new = elim (Bool-cases (equal old new)) [
  | inl same ↦ rw same (c.equal_sound old new same)
  | inr other ↦ rw other refl
]

-- A pointer that was set is not nil, so its change is told.
set_ptr-changed_ptr {ℓ} :
    {A : Type ℓ} ⦃c : Comparable A⦄ (p old : Option A)
    → set_ptr (changed_ptr old (set_ptr p old)) old ≡ set_ptr p old
set_ptr-changed_ptr none none = refl
set_ptr-changed_ptr ⦃c⦄ none (some b) = elim (Bool-cases (equal b b)) [
  | inl same ↦ rw same refl
  | inr other ↦ rw other refl
]
set_ptr-changed_ptr (some a) none = refl
set_ptr-changed_ptr ⦃c⦄ (some a) (some b) = elim (Bool-cases (equal b a)) [
  | inl same ↦ rw same (ap some (c.equal_sound b a same))
  | inr other ↦ rw other refl
]

-- Told of a pointer that became nil, a reader keeps what it had.
set_ptr-nil {ℓ} :
    {A : Type ℓ} ⦃c : Comparable A⦄ (old : Option A) → set_ptr (changed_ptr old none) old ≡ old
set_ptr-nil none = refl
set_ptr-nil (some a) = refl

module _ {ℓ} {F : Type ℓ} ⦃float : Comparable F⦄ where
  -- A state with the transmit audio settings of another.
  abbrev pub with_audio : State F → State F → State F
  with_audio t s = record t {
    tx_audio_gain = s.tx_audio_gain;
    proc = s.proc;
    proc_level = s.proc_level;
  }

  merge-diff : (s : State F) (p : Patch F) → merge s (diff s (merge s p)) ≡ with_audio (merge s p) s
  unfolding merge diff
  merge-diff s p = λ i. record {
    frequency = set-changed s.frequency (set p.frequency s.frequency) i;
    mode = set-changed s.mode (set p.mode s.mode) i;
    data_mode = set-changed s.data_mode (set p.data_mode s.data_mode) i;
    passband_hz = set-changed s.passband_hz (set p.passband_hz s.passband_hz) i;
    filter_slot = set-changed s.filter_slot (set p.filter_slot s.filter_slot) i;
    power = set-changed s.power (set p.power s.power) i;
    ptt = set-changed s.ptt (set p.ptt s.ptt) i;
    s_meter = set-changed s.s_meter (set p.s_meter s.s_meter) i;
    power_meter = set_ptr-changed_ptr p.power_meter s.power_meter i;
    swr = set_ptr-changed_ptr p.swr s.swr i;
    alc = set_ptr-changed_ptr p.alc s.alc i;
    swr_ratio = set_ptr-changed_ptr p.swr_ratio s.swr_ratio i;
    tuner = set-changed s.tuner (set p.tuner s.tuner) i;
    standby = set-changed s.standby (set p.standby s.standby) i;
    cw = set-changed s.cw (set p.cw s.cw) i;
    connected = set-changed s.connected (set p.connected s.connected) i;
    preamp = set_ptr-changed_ptr p.preamp s.preamp i;
    attenuator_db = set_ptr-changed_ptr p.attenuator_db s.attenuator_db i;
    rf_gain = set_ptr-changed_ptr p.rf_gain s.rf_gain i;
    agc = set-changed s.agc (set p.agc s.agc) i;
    ip_plus = set_ptr-changed_ptr p.ip_plus s.ip_plus i;
    digi_sel = set_ptr-changed_ptr p.digi_sel s.digi_sel i;
    digi_sel_shift = set_ptr-changed_ptr p.digi_sel_shift s.digi_sel_shift i;
    noise_blanker = set_ptr-changed_ptr p.noise_blanker s.noise_blanker i;
    nb_level = set_ptr-changed_ptr p.nb_level s.nb_level i;
    noise_reduction = set_ptr-changed_ptr p.noise_reduction s.noise_reduction i;
    nr_level = set_ptr-changed_ptr p.nr_level s.nr_level i;
    notch = set_ptr-changed_ptr p.notch s.notch i;
    notch_freq = set_ptr-changed_ptr p.notch_freq s.notch_freq i;
    notch_width = set-changed s.notch_width (set p.notch_width s.notch_width) i;
    auto_notch = set_ptr-changed_ptr p.auto_notch s.auto_notch i;
    antenna = set_ptr-changed_ptr p.antenna s.antenna i;
    rx_antenna = set_ptr-changed_ptr p.rx_antenna s.rx_antenna i;
    tx_audio_gain = s.tx_audio_gain;
    proc = s.proc;
    proc_level = s.proc_level;
    vfo = set-changed s.vfo (set p.vfo s.vfo) i;
    vfo_a = set-changed s.vfo_a (set p.vfo_a s.vfo_a) i;
    vfo_b = set-changed s.vfo_b (set p.vfo_b s.vfo_b) i;
    split = set-changed s.split (set p.split s.split) i;
    dual_watch = set-changed s.dual_watch (set p.dual_watch s.dual_watch) i;
    sub_s_meter = set-changed s.sub_s_meter (set p.sub_s_meter s.sub_s_meter) i;
    selected_band = set-changed s.selected_band (set p.selected_band s.selected_band) i;
    break_in = set-changed s.break_in (set p.break_in s.break_in) i;
    updated_at = s.updated_at;
    seq = s.seq;
  }

  -- A state with no transmit meters.
  abbrev pub no_meters : State F → State F
  no_meters t = record t { power_meter = none; swr = none; alc = none; swr_ratio = none }

  pub clear_meters-on : (t : State F) → t.ptt ≡ true → clear_meters t ≡ t
  unfolding clear_meters
  clear_meters-on t on = rw on refl

  pub clear_meters-off : (t : State F) → t.ptt ≡ false → clear_meters t ≡ no_meters t
  unfolding clear_meters
  clear_meters-off t off = if-false t (no_meters t) off

  -- The change to a state without transmit meters leaves these as they were.
  merge-diff_off :
      (s : State F) (p : Patch F)
      → merge s (diff s (no_meters (merge s p))) ≡ record (with_audio (merge s p) s) {
        power_meter = s.power_meter;
        swr = s.swr;
        alc = s.alc;
        swr_ratio = s.swr_ratio;
      }
  unfolding merge diff
  merge-diff_off s p = λ i. record {
    frequency = set-changed s.frequency (set p.frequency s.frequency) i;
    mode = set-changed s.mode (set p.mode s.mode) i;
    data_mode = set-changed s.data_mode (set p.data_mode s.data_mode) i;
    passband_hz = set-changed s.passband_hz (set p.passband_hz s.passband_hz) i;
    filter_slot = set-changed s.filter_slot (set p.filter_slot s.filter_slot) i;
    power = set-changed s.power (set p.power s.power) i;
    ptt = set-changed s.ptt (set p.ptt s.ptt) i;
    s_meter = set-changed s.s_meter (set p.s_meter s.s_meter) i;
    power_meter = set_ptr-nil s.power_meter i;
    swr = set_ptr-nil s.swr i;
    alc = set_ptr-nil s.alc i;
    swr_ratio = set_ptr-nil s.swr_ratio i;
    tuner = set-changed s.tuner (set p.tuner s.tuner) i;
    standby = set-changed s.standby (set p.standby s.standby) i;
    cw = set-changed s.cw (set p.cw s.cw) i;
    connected = set-changed s.connected (set p.connected s.connected) i;
    preamp = set_ptr-changed_ptr p.preamp s.preamp i;
    attenuator_db = set_ptr-changed_ptr p.attenuator_db s.attenuator_db i;
    rf_gain = set_ptr-changed_ptr p.rf_gain s.rf_gain i;
    agc = set-changed s.agc (set p.agc s.agc) i;
    ip_plus = set_ptr-changed_ptr p.ip_plus s.ip_plus i;
    digi_sel = set_ptr-changed_ptr p.digi_sel s.digi_sel i;
    digi_sel_shift = set_ptr-changed_ptr p.digi_sel_shift s.digi_sel_shift i;
    noise_blanker = set_ptr-changed_ptr p.noise_blanker s.noise_blanker i;
    nb_level = set_ptr-changed_ptr p.nb_level s.nb_level i;
    noise_reduction = set_ptr-changed_ptr p.noise_reduction s.noise_reduction i;
    nr_level = set_ptr-changed_ptr p.nr_level s.nr_level i;
    notch = set_ptr-changed_ptr p.notch s.notch i;
    notch_freq = set_ptr-changed_ptr p.notch_freq s.notch_freq i;
    notch_width = set-changed s.notch_width (set p.notch_width s.notch_width) i;
    auto_notch = set_ptr-changed_ptr p.auto_notch s.auto_notch i;
    antenna = set_ptr-changed_ptr p.antenna s.antenna i;
    rx_antenna = set_ptr-changed_ptr p.rx_antenna s.rx_antenna i;
    tx_audio_gain = s.tx_audio_gain;
    proc = s.proc;
    proc_level = s.proc_level;
    vfo = set-changed s.vfo (set p.vfo s.vfo) i;
    vfo_a = set-changed s.vfo_a (set p.vfo_a s.vfo_a) i;
    vfo_b = set-changed s.vfo_b (set p.vfo_b s.vfo_b) i;
    split = set-changed s.split (set p.split s.split) i;
    dual_watch = set-changed s.dual_watch (set p.dual_watch s.dual_watch) i;
    sub_s_meter = set-changed s.sub_s_meter (set p.sub_s_meter s.sub_s_meter) i;
    selected_band = set-changed s.selected_band (set p.selected_band s.selected_band) i;
    break_in = set-changed s.break_in (set p.break_in s.break_in) i;
    updated_at = s.updated_at;
    seq = s.seq;
  }

  -- Applying the change between a state and its successor to that state gives the successor, but for
  -- the transmit audio settings, which stay.
  pub apply-diff :
      (s : State F) (p : Patch F) → apply s (diff s (apply s p)) ≡ with_audio (apply s p) s
  unfolding apply merge
  apply-diff s p =
      let m = merge s p in
      elim (Bool-cases (set p.ptt s.ptt)) [
        | inl on ↦
            ap (λ t. clear_meters (merge s (diff s t))) (clear_meters-on m on)
            ∙ ap clear_meters (merge-diff s p)
            ∙ clear_meters-on (with_audio m s) on
            ∙ ap (λ t. with_audio t s) (sym (clear_meters-on m on))
        | inr off ↦
            ap (λ t. clear_meters (merge s (diff s t))) (clear_meters-off m off)
            ∙ ap clear_meters (merge-diff_off s p)
            ∙ clear_meters-off _ off
            ∙ ap (λ t. with_audio t s) (sym (clear_meters-off m off))
      ]
