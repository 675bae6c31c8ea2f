-- ===== src/Radio/Follow.antt =====
-- A reader who applies the published changes keeps up with the state.
use remoses.Prelude.{
  ℕ, ◌≡◌, refl, sym, ap, ◌∙◌, inl, inr, true, false, Option, none, some, Bool-cases, if-elim,
}
use remoses.Prelude.Compare.{
  Comparable, nat_comparable, int_comparable, bool_comparable, string_comparable,
}
use remoses.Radio.{State, Patch}
use remoses.Radio.Change.{set, changed, is_none, no_patch, empty, merge, clear_meters, apply, diff}
use remoses.Radio.Compared.{both, meter_comparable, power_comparable, cw_comparable, vfo_comparable}
use remoses.Radio.Diffed.{no_meters, clear_meters-on, clear_meters-off, apply-diff}

is_none-none {ℓ} : {A : Type ℓ} (o : Option A) → is_none o ≡ true → o ≡ none
is_none-none none h = refl
is_none-none (some v) h = absurd (cc h)

module _ {ℓ} {F : Type ℓ} ⦃float : Comparable F⦄ where
  -- Where the transmitter is off a state has no transmit meters.
  abbrev pub Quiet : State F → Type ℓ
  Quiet s =
      s.ptt ≡ false
      → (s.power_meter ≡ none) × (s.swr ≡ none) × (s.alc ≡ none) × (s.swr_ratio ≡ none)

  -- What every reader can see of a state: not the transmit audio settings, which no change tells, nor
  -- what the session adds.
  abbrev pub visible : State F → State F
  visible s = record s {
    tx_audio_gain = none;
    proc = none;
    proc_level = none;
    updated_at = 0;
    seq = 0;
  }

  visible-apply_self :
      (s : State F) (p : Patch F) → visible (apply s p) ≡ visible (apply (visible s) p)
  unfolding apply merge
  visible-apply_self s p = elim (Bool-cases (set p.ptt s.ptt)) [
    | inl on ↦
        ap visible (clear_meters-on (merge s p) on)
        ∙ ap visible (sym (clear_meters-on (merge (visible s) p) on))
    | inr off ↦
        ap visible (clear_meters-off (merge s p) off)
        ∙ ap visible (sym (clear_meters-off (merge (visible s) p) off))
  ]

  -- A change does the same to two states that look the same.
  pub visible-apply :
      (s t : State F) (p : Patch F)
      → visible s ≡ visible t
      → visible (apply s p) ≡ visible (apply t p)
  visible-apply s t p same =
      visible-apply_self s p ∙ ap (λ u. visible (apply u p)) same ∙ sym (visible-apply_self t p)

  -- The same as `apply-diff`, of what can be seen.
  pub visible-diff :
      (s : State F) (p : Patch F) → visible (apply s (diff s (apply s p))) ≡ visible (apply s p)
  visible-diff s p = ap visible (apply-diff s p)

  empty-none : (p : Patch F) → empty p ≡ true → p ≡ no_patch
  unfolding empty
  empty-none p h0 =
      let (h1, e43) = both h0 in
      let (h2, e42) = both h1 in
      let (h3, e41) = both h2 in
      let (h4, e40) = both h3 in
      let (h5, e39) = both h4 in
      let (h6, e38) = both h5 in
      let (h7, e37) = both h6 in
      let (h8, e36) = both h7 in
      let (h9, e35) = both h8 in
      let (h10, e34) = both h9 in
      let (h11, e33) = both h10 in
      let (h12, e32) = both h11 in
      let (h13, e31) = both h12 in
      let (h14, e30) = both h13 in
      let (h15, e29) = both h14 in
      let (h16, e28) = both h15 in
      let (h17, e27) = both h16 in
      let (h18, e26) = both h17 in
      let (h19, e25) = both h18 in
      let (h20, e24) = both h19 in
      let (h21, e23) = both h20 in
      let (h22, e22) = both h21 in
      let (h23, e21) = both h22 in
      let (h24, e20) = both h23 in
      let (h25, e19) = both h24 in
      let (h26, e18) = both h25 in
      let (h27, e17) = both h26 in
      let (h28, e16) = both h27 in
      let (h29, e15) = both h28 in
      let (h30, e14) = both h29 in
      let (h31, e13) = both h30 in
      let (h32, e12) = both h31 in
      let (h33, e11) = both h32 in
      let (h34, e10) = both h33 in
      let (h35, e9) = both h34 in
      let (h36, e8) = both h35 in
      let (h37, e7) = both h36 in
      let (h38, e6) = both h37 in
      let (h39, e5) = both h38 in
      let (h40, e4) = both h39 in
      let (h41, e3) = both h40 in
      let (h42, e2) = both h41 in
      let (h43, e1) = both h42 in
      λ i. record {
        frequency = is_none-none p.frequency h43 i;
        mode = is_none-none p.mode e1 i;
        data_mode = is_none-none p.data_mode e2 i;
        passband_hz = is_none-none p.passband_hz e3 i;
        filter_slot = is_none-none p.filter_slot e4 i;
        power = is_none-none p.power e5 i;
        ptt = is_none-none p.ptt e6 i;
        s_meter = is_none-none p.s_meter e7 i;
        power_meter = is_none-none p.power_meter e8 i;
        swr = is_none-none p.swr e9 i;
        alc = is_none-none p.alc e10 i;
        swr_ratio = is_none-none p.swr_ratio e11 i;
        tuner = is_none-none p.tuner e12 i;
        standby = is_none-none p.standby e13 i;
        cw = is_none-none p.cw e14 i;
        connected = is_none-none p.connected e15 i;
        preamp = is_none-none p.preamp e16 i;
        attenuator_db = is_none-none p.attenuator_db e17 i;
        rf_gain = is_none-none p.rf_gain e18 i;
        agc = is_none-none p.agc e19 i;
        ip_plus = is_none-none p.ip_plus e20 i;
        digi_sel = is_none-none p.digi_sel e21 i;
        digi_sel_shift = is_none-none p.digi_sel_shift e22 i;
        noise_blanker = is_none-none p.noise_blanker e23 i;
        nb_level = is_none-none p.nb_level e24 i;
        noise_reduction = is_none-none p.noise_reduction e25 i;
        nr_level = is_none-none p.nr_level e26 i;
        notch = is_none-none p.notch e27 i;
        notch_freq = is_none-none p.notch_freq e28 i;
        notch_width = is_none-none p.notch_width e29 i;
        auto_notch = is_none-none p.auto_notch e30 i;
        antenna = is_none-none p.antenna e31 i;
        rx_antenna = is_none-none p.rx_antenna e32 i;
        tx_audio_gain = is_none-none p.tx_audio_gain e33 i;
        proc = is_none-none p.proc e34 i;
        proc_level = is_none-none p.proc_level e35 i;
        vfo = is_none-none p.vfo e36 i;
        vfo_a = is_none-none p.vfo_a e37 i;
        vfo_b = is_none-none p.vfo_b e38 i;
        split = is_none-none p.split e39 i;
        dual_watch = is_none-none p.dual_watch e40 i;
        sub_s_meter = is_none-none p.sub_s_meter e41 i;
        selected_band = is_none-none p.selected_band e42 i;
        break_in = is_none-none p.break_in e43 i;
      }

  pub clear_meters-Quiet : (s : State F) → Quiet s → clear_meters s ≡ s
  clear_meters-Quiet s quiet = elim (Bool-cases s.ptt) [
    | inl on ↦ clear_meters-on s on
    | inr off ↦
        let (power, swr, alc, ratio) = quiet off in
        clear_meters-off s off ∙ (λ i. record s {
          power_meter = sym power i;
          swr = sym swr i;
          alc = sym alc i;
          swr_ratio = sym ratio i;
        })
  ]

  -- A change that is empty is no change of a state that has transmit meters only while transmitting.
  pub apply-empty : (s : State F) (p : Patch F) → Quiet s → empty p ≡ true → apply s p ≡ s
  unfolding apply merge
  apply-empty s p quiet nothing = ap (apply s) (empty-none p nothing) ∙ clear_meters-Quiet s quiet

  pub apply-Quiet : (s : State F) (p : Patch F) → Quiet (apply s p)
  unfolding apply merge
  apply-Quiet s p = elim (Bool-cases (set p.ptt s.ptt)) [
    | inl on ↦ λ off. absurd (cc (on, ap (λ t. t.ptt) (clear_meters-on (merge s p) on), off))
    | inr off ↦ rw (clear_meters-off (merge s p) off) (λ e. (refl, refl, refl, refl))
  ]

  -- The clock of a change is not among the differences.
  pub visible-updated :
      (s : State F) (p : Patch F) (now : ℕ)
      → visible (apply s (diff s (record (apply s p) { updated_at = now }))) ≡ visible (apply s p)
  unfolding diff
  visible-updated s p now = visible-diff s p

  pub apply-seq : (s : State F) (p : Patch F) → (apply s p).seq ≡ s.seq
  unfolding apply clear_meters merge
  apply-seq s p =
      if-elim (λ t. t.seq ≡ s.seq) (set p.ptt s.ptt) (merge s p) (no_meters (merge s p))
        (λ on. refl) (λ off. refl)

  -- No change in anything is no change of PTT.
  pub empty-ptt : (s next : State F) → empty (diff s next) ≡ true → changed s.ptt next.ptt ≡ none
  unfolding diff
  empty-ptt s next nothing = ap (λ p. p.ptt) (empty-none (diff s next) nothing)
