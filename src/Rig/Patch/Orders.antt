-- ===== src/Rig/Patch/Orders.antt =====
-- What each part of a transaction sends is in order and allowed.
use remoses.Prelude.{
  ℕ, zero, suc, ◌≡◌, refl, Bool, true, false, not, ◌&&◌, ◌||◌, Option, none, some, List, ◌∷◌, arith,
  if-elim,
}
use remoses.Prelude.Compare.{
  equal, nat_comparable, int_comparable, bool_comparable, string_comparable,
}
use remoses.Prelude.Int.{pos}
use remoses.Radio.Change.{set}
use remoses.Radio.Compared.{meter_comparable, power_comparable, cw_comparable, vfo_comparable}
use remoses.Rig.Patch.{Fault, PatchRequest, Station, allows_frequency, has, names_a_vfo}
use remoses.Rig.Patch.Apply.{
  Action, Command, set_vfo_mode, set_mode, set_vfo_frequency, set_frequency, set_attenuator,
  set_preamp, set_noise_blanker, set_noise_reduction, set_antenna, set_ip_plus, set_digi_sel,
  set_auto_notch, set_notch, set_rx_antenna, set_proc, set_digi_sel_shift, set_rf_gain,
  set_nb_level, set_nr_level, set_notch_freq, set_tx_audio_gain, set_proc_level, set_agc,
  set_notch_width, polled_slow, polled_fast, World, is_unsupported, ◌then◌, for_set, only_if,
  set_or, send, arm, retried, apply_mode_pair, mode_part, named_part, current_part, tuning_part,
  apply_front_end, apply_noise, apply_tx_audio, settle_loop, settle_ptt, read_back,
}
use remoses.Rig.Patch.Limited.{Allowed}
use remoses.Rig.Patch.Parts.{
  rank, Fine, Moves, then-Moves, only_if-Moves, placed-Moves, field-Moves, field_then-Moves,
  read_tier-Moves,
}

module _ {ℓ} {F : Type ℓ} (st : Station F) (w : World F) (r : PatchRequest F) where
  abbrev A : Command F → Type 0
  A = Allowed st

  pub front_end-Moves : Moves A 7 14 (apply_front_end w r)
  unfolding apply_front_end
  front_end-Moves =
      (field_then-Moves A w 7 8 14 r.attenuator_db set_attenuator _ (omega arith) (omega arith)
        (λ v. refl) (λ v e. tt)
        (field_then-Moves A w 8 9 14 r.preamp set_preamp _ (omega arith) (omega arith) (λ v. refl)
          (λ v e. tt)
          (field_then-Moves A w 9 10 14 r.ip_plus set_ip_plus _ (omega arith) (omega arith)
            (λ v. refl) (λ v e. tt)
            (field_then-Moves A w 10 11 14 r.digi_sel set_digi_sel _ (omega arith) (omega arith)
              (λ v. refl) (λ v e. tt)
              (field_then-Moves A w 11 12 14 r.digi_sel_shift set_digi_sel_shift _ (omega arith)
                (omega arith) (λ v. refl) (λ v e. tt)
                (field_then-Moves A w 12 13 14 r.agc set_agc _ (omega arith) (omega arith)
                  (λ v. refl) (λ v e. tt)
                  (field-Moves A w 13 14 r.rf_gain set_rf_gain (omega arith) (λ v. refl)
                    (λ v e. tt))))))))

  pub noise-Moves : Moves A 14 24 (apply_noise w r)
  unfolding apply_noise
  noise-Moves =
      (field_then-Moves A w 14 15 24 r.noise_blanker set_noise_blanker _ (omega arith) (omega arith)
        (λ v. refl) (λ v e. tt)
        (field_then-Moves A w 15 16 24 r.nb_level set_nb_level _ (omega arith) (omega arith)
          (λ v. refl) (λ v e. tt)
          (field_then-Moves A w 16 17 24 r.noise_reduction set_noise_reduction _ (omega arith)
            (omega arith) (λ v. refl) (λ v e. tt)
            (field_then-Moves A w 17 18 24 r.nr_level set_nr_level _ (omega arith) (omega arith)
              (λ v. refl) (λ v e. tt)
              (field_then-Moves A w 18 19 24 r.auto_notch set_auto_notch _ (omega arith)
                (omega arith) (λ v. refl) (λ v e. tt)
                (field_then-Moves A w 19 20 24 r.notch set_notch _ (omega arith) (omega arith)
                  (λ v. refl) (λ v e. tt)
                  (field_then-Moves A w 20 21 24 r.notch_width set_notch_width _ (omega arith)
                    (omega arith) (λ v. refl) (λ v e. tt)
                    (field_then-Moves A w 21 22 24 r.notch_freq set_notch_freq _ (omega arith)
                      (omega arith) (λ v. refl) (λ v e. tt)
                      (field_then-Moves A w 22 23 24 r.antenna set_antenna _ (omega arith)
                        (omega arith) (λ v. refl) (λ v e. tt)
                        (field-Moves A w 23 24 r.rx_antenna set_rx_antenna (omega arith) (λ v. refl)
                          (λ v e. tt)))))))))))

  pub tx_audio-Moves : Moves A 24 27 (apply_tx_audio w r)
  unfolding apply_tx_audio
  tx_audio-Moves =
      (field_then-Moves A w 24 25 27 r.tx_audio_gain set_tx_audio_gain _ (omega arith) (omega arith)
        (λ v. refl) (λ v e. tt)
        (field_then-Moves A w 25 26 27 r.proc set_proc _ (omega arith) (omega arith) (λ v. refl)
          (λ v e. tt)
          (field-Moves A w 26 27 r.proc_level set_proc_level (omega arith) (λ v. refl)
            (λ v e. tt))))

  -- Both tries of a mode have one place.
  retried-Fine :
      (set : Bool → Command F) (digital explicit : Bool) (tried : Option Fault × List (Action F))
      → ((d : Bool) → rank (set d) ≡ 3)
      → ((d : Bool) → A (set d))
      → Fine A 3 tried.1
      → Fine A 3 (retried w set digital explicit tried).1
  unfolding retried
  retried-Fine set digital explicit (none, log) place ok h = h
  retried-Fine set digital explicit (some e, log) place ok h =
      if-elim (λ (p : Option Fault × List (Action F)). Fine A 3 p.1)
        (not explicit && digital && is_unsupported e) _ _
        (λ again. placed-Moves A w 3 3 (set false) (omega arith) (place false) (ok false) log h)
        (λ over. h)

  mode_part-Moves :
      (set : ℕ → Bool → Command F)
      → ((m : ℕ) (d : Bool) → rank (set m d) ≡ 3)
      → ((m : ℕ) (d : Bool) → A (set m d))
      → Moves A 2 3 (mode_part w r set)
  unfolding mode_part apply_mode_pair
  mode_part-Moves set place ok log h =
      let m = set_or r.mode (w.reading log).0 in
      let d = set_or r.data_mode (w.reading log).1 in
      retried-Fine (set m) d (has r.data_mode) (send w (set m d) log) (place m) (ok m)
        (placed-Moves A w 2 3 (set m d) (omega arith) (place m d) (ok m d) log h)

  -- A mode and a frequency, where the frequency of the request is allowed.
  mode_frequency-Moves :
      (set : ℕ → Bool → Command F) (tune : ℕ → Command F)
      → ((m : ℕ) (d : Bool) → rank (set m d) ≡ 3)
      → ((m : ℕ) (d : Bool) → A (set m d))
      → ((hz : ℕ) → rank (tune hz) ≡ 4)
      → ((hz : ℕ) → r.frequency ≡ some hz → A (tune hz))
      → Moves A 2 4 (
          only_if (has r.mode || has r.data_mode) (mode_part w r set)
          then for_set r.frequency (λ hz. send w (tune hz)))
  mode_frequency-Moves set tune place ok place' ok' =
      let asks = has r.mode || has r.data_mode in
      then-Moves A 2 3 4 (only_if asks (mode_part w r set))
        (for_set r.frequency (λ hz. send w (tune hz))) (omega arith)
        (only_if-Moves A 2 3 asks (mode_part w r set) (omega arith) (mode_part-Moves set place ok))
        (field-Moves A w 3 4 r.frequency tune (omega arith) place' ok')

  pub tuning-Moves :
      ((hz : ℕ) → r.frequency ≡ some hz → allows_frequency st.limits.bands hz ≡ true)
      → Moves A 2 4 (tuning_part w r)
  unfolding tuning_part named_part current_part
  tuning-Moves bands =
      if-elim (Moves A 2 4) (names_a_vfo r) _ _
        (λ named.
          mode_frequency-Moves
            (λ m digital. set_vfo_mode r.vfo m digital (set_or r.filter_slot (pos 0)))
            (set_vfo_frequency r.vfo) (λ m d. refl) (λ m d. tt) (λ hz. refl) bands)
        (λ current.
          mode_frequency-Moves set_mode (set_frequency r.vfo) (λ m d. refl) (λ m d. tt) (λ hz. refl)
            bands)

  -- Polls have no place of their own.
  polled_fast-Fine : (n : ℕ) (log : List (Action F)) → Fine A n log → Fine A n (polled_fast ∷ log)
  polled_fast-Fine n log (order, upto, allowed) = (order, (tt, upto), (tt, allowed))

  settle_loop-Fine :
      (n turns : ℕ) (want : Bool) (log : List (Action F))
      → Fine A n log
      → Fine A n (settle_loop w turns want log)
  unfolding settle_loop
  settle_loop-Fine n zero want log h = h
  settle_loop-Fine n (suc turns) want log h =
      let asked = polled_fast-Fine n log h in
      if-elim (Fine A n) (equal (w.keyed log) want || w.gone log) _ _ (λ over. h)
        (λ on.
          if-elim (Fine A n) (has (w.answer (polled_fast ∷ log))) _ _ (λ failed. asked)
            (λ read. settle_loop-Fine n turns want (polled_fast ∷ log) asked))

  pub settle_ptt-Moves : (n : ℕ) (control want : Bool) → Moves A n n (settle_ptt w control want)
  unfolding settle_ptt
  settle_ptt-Moves n true want log h = settle_loop-Fine n 6 want log h
  settle_ptt-Moves n false want log h = h

  pub arm-Moves : (n : ℕ) → Moves A n n (arm w)
  unfolding arm
  arm-Moves n log (order, upto, allowed) = (order, (tt, upto), (tt, allowed))

  pub read_back-Moves : (n : ℕ) (slow : Bool) → Moves A n n (read_back w slow)
  unfolding read_back
  read_back-Moves n slow =
      then-Moves A n n n _ _ (omega arith)
        (only_if-Moves A n n slow _ (omega arith)
          (read_tier-Moves A w n polled_slow tt tt (λ log h. h)))
        (read_tier-Moves A w n polled_fast tt tt (λ log h. h))
