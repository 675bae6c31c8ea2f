-- ===== src/Rig/Patch/Passing.antt =====
-- A request that no check refuses fits, part by part.
use remoses.Prelude.Int.{pos}
use remoses.Rig.Patch.{has, PatchRequest, Station}
use remoses.Rig.Patch.Check.{
  tuner_valid, agc_settable, front_end_checks, level_pair_checks, notch_checks, noise_checks,
  tx_audio_checks, own_checks,
}
use remoses.Rig.Patch.Fits.{OwnFits, FrontEndFits, NoiseFits, TxAudioFits}
use remoses.Rig.Patch.Permits.{asked-ready, tunes_inside}
use remoses.Rig.Patch.Readings.{
  when_ready, when_passes, when_both, Passed, selected, modes_fit, slots_fit, neither_missing,
  controlled,
}

module _ {ℓ} {F : Type ℓ} (st : Station F) where
  pub own_checks-OwnFits : (r : PatchRequest F) → Passed (own_checks st r) → OwnFits st r
  unfolding own_checks
  own_checks-OwnFits r
        (
          mode,
          (
            band,
            (
              width,
              (
                slot,
                (
                  keying,
                  (
                    ptt,
                    (
                      power,
                      (
                        tuner,
                        (
                          tuner_there,
                          (
                            tune,
                            (
                              tune_there,
                              (
                                inside,
                                (
                                  vfo,
                                  (vfo_there, (exchange, (exchange_there, (split, (dual, _))))),
                                ),
                              ),
                            ),
                          ),
                        ),
                      ),
                    ),
                  ),
                ),
              ),
            ),
          ),
        ) =
      (
        modes_fit r.mode st.caps.modes mode,
        when_passes r.frequency _ band,
        when_ready r.filter_width_hz _ width,
        slots_fit r.filter_slot st.caps.filter_slots slot,
        when_ready r.break_in _ keying,
        when_ready r.ptt _ ptt,
        when_ready r.power _ power,
        when_both _ _ r.tuner (when_passes r.tuner tuner_valid tuner)
            (when_ready r.tuner _ tuner_there),
        when_both _ _ r.tuner_tune (when_passes r.tuner_tune (λ on. on) tune)
            (when_ready r.tuner_tune _ tune_there),
        λ asked known. tunes_inside (has r.tuner_tune) _ _ inside asked known,
        when_both _ _ r.vfo_mode (when_passes r.vfo_mode (λ on. on) vfo)
            (when_ready r.vfo_mode _ vfo_there),
        when_both _ _ r.exchange_bands (when_passes r.exchange_bands (λ on. on) exchange) (
            when_ready r.exchange_bands _
              (neither_missing _ _ (has r.exchange_bands) exchange_there)),
        when_ready r.split _ split,
        when_ready r.dual_watch _ dual,
      )

  pub front_end_checks-FrontEndFits :
      (r : PatchRequest F) → Passed (front_end_checks st r) → FrontEndFits st r
  unfolding front_end_checks
  front_end_checks-FrontEndFits r
        (
          there,
          (
            preselect,
            (
              preamps,
              (
                preamp,
                (
                  attenuators,
                  (
                    attenuator,
                    (
                      rf_there,
                      (
                        rf,
                        (
                          agcs,
                          (agc, (agc_there, (ip_plus, (digi_sel, (shift_there, (shift, _)))))),
                        ),
                      ),
                    ),
                  ),
                ),
              ),
            ),
          ),
        ) =
      (
        λ asked. asked-ready _ _ there asked,
        λ asked. asked-ready _ _ preselect asked,
        selected r.preamp st.caps.preamp_levels (pos 0) preamps preamp,
        when_passes r.attenuator_db _ attenuator,
        controlled st r.rf_gain _ rf_there rf,
        when_both _ _ r.agc (when_passes r.agc agc_settable agc) (when_passes r.agc _ agc_there),
        when_ready r.ip_plus _ ip_plus,
        when_ready r.digi_sel _ digi_sel,
        controlled st r.digi_sel_shift _ shift_there shift,
      )

  pub noise_checks-NoiseFits : (r : PatchRequest F) → Passed (noise_checks st r) → NoiseFits st r
  unfolding noise_checks level_pair_checks notch_checks
  noise_checks-NoiseFits r
        (
          there,
          (
            blankers,
            (
              blanker,
              (
                nb_there,
                (
                  nb,
                  (
                    reductions,
                    (
                      reduction,
                      (
                        nr_there,
                        (
                          nr,
                          (
                            notch,
                            (
                              auto_notch,
                              (
                                exclusive,
                                (
                                  freq_there,
                                  (
                                    freq,
                                    (
                                      widths,
                                      (
                                        width,
                                        (antenna_there, (antennas, (antenna, (rx_antenna, _)))),
                                      ),
                                    ),
                                  ),
                                ),
                              ),
                            ),
                          ),
                        ),
                      ),
                    ),
                  ),
                ),
              ),
            ),
          ),
        ) =
      (
        λ asked. asked-ready _ _ there asked,
        (
          selected r.noise_blanker _ (pos 0) blankers blanker,
          controlled st r.nb_level _ nb_there nb,
        ),
        (
          selected r.noise_reduction _ (pos 0) reductions reduction,
          controlled st r.nr_level _ nr_there nr,
        ),
        when_ready r.notch _ notch,
        when_ready r.auto_notch _ auto_notch,
        exclusive,
        controlled st r.notch_freq _ freq_there freq,
        when_passes r.notch_width _ width,
        λ asked. asked-ready _ _ antenna_there asked,
        selected r.antenna st.caps.antennas (pos 1) antennas antenna,
        when_ready r.rx_antenna _ rx_antenna,
      )

  pub tx_audio_checks-TxAudioFits :
      (r : PatchRequest F) → Passed (tx_audio_checks st r) → TxAudioFits st r
  unfolding tx_audio_checks
  tx_audio_checks-TxAudioFits r (there, (gain_there, (gain, (proc, (level_there, (level, _)))))) = (
    λ asked. asked-ready _ _ there asked,
    controlled st r.tx_audio_gain _ gain_there gain,
    when_ready r.proc _ proc,
    controlled st r.proc_level _ level_there level,
  )
