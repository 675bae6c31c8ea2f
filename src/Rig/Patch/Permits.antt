-- ===== src/Rig/Patch/Permits.antt =====
-- The whole transaction: its order, and that it sends only what may be sent.
use mathlib.Core.Path.{subst}
use remoses.Prelude.{
  ℕ, ◌≡◌, refl, sym, ap, ◌∙◌, ◌⊎◌, inl, inr, Bool, true, false, not, ◌&&◌, Option, none, some, List,
  [], ◌∷◌, arith, ltb, if-elim, All,
}
use remoses.Prelude.Compare.{
  equal, nat_comparable, int_comparable, bool_comparable, string_comparable,
}
use remoses.Radio.Compared.{meter_comparable, power_comparable, cw_comparable, vfo_comparable}
use remoses.Rig.Patch.{Fault, has, PowerSet, PatchRequest, Station, allows_frequency, request_empty}
use remoses.Rig.Patch.Apply.{
  Action, Command, set_ptt, exchange_bands, select_vfo_mode, set_filter_slot, set_filter_width,
  set_power, set_break_in, set_split, set_dual_watch, set_tuner, start_tune, World, ◌then◌,
  refuse_or, requested_power, send, arm, slot_left, tuning_part, apply_front_end, apply_noise,
  apply_tx_audio, settle_ptt, ptt_part, tune_part, is_slow, transaction, with_power, apply_patch,
}
use remoses.Rig.Patch.Check.{refused, given, own_checks, checks, bad_vfo, require_connected}
use remoses.Rig.Patch.Limited.{FloatLaws, Allowed, PowerWithin, requested_power-Within}
use remoses.Rig.Patch.Orders.{
  front_end-Moves, noise-Moves, tx_audio-Moves, tuning-Moves, settle_ptt-Moves, arm-Moves,
  read_back-Moves,
}
use remoses.Rig.Patch.Parts.{
  Ordered, AllowedAction, Fine, Moves, then-Moves, for_set-Moves, placed-Moves, field_then-Moves,
}

pub not-false : {b : Bool} → not b ≡ false → b ≡ true
not-false {b = true} h = refl
not-false {b = false} h = absurd (cc h)

-- What a check that passed says of a field.
has-ready {κ} :
    {B : Type κ} (o : Option B) (b : Bool)
    → (has o && not b) ≡ false
    → (v : B) → o ≡ some v
    → b ≡ true
has-ready o b h v e = not-false (sym (ap (λ u. has u && not b) e) ∙ h)

pub asked-ready : (a b : Bool) → (a && not b) ≡ false → a ≡ true → b ≡ true
asked-ready a b h asked = not-false (sym (ap (λ u. u && not b) asked) ∙ h)

pub tunes_inside :
    (asked known inside : Bool)
    → (asked && known && not inside) ≡ false
    → asked ≡ true
    → known ≡ true
    → inside ≡ true
tunes_inside asked known inside h a k = ground arith

given-false {κ} :
    {B : Type κ} (o : Option B) (p : B → Bool)
    → given o p ≡ false
    → (v : B) → o ≡ some v
    → p v ≡ false
given-false o p h v e = sym (ap (λ u. given u p) e) ∙ h

pub refused-none :
    (l : List (Bool × Fault)) → refused l ≡ none → All (λ (c : Bool × Fault). c.0 ≡ false) l
unfolding refused
refused-none [] h = tt
refused-none ((true, fault) ∷ l) h = absurd (cc h)
refused-none ((false, fault) ∷ l) h = (refl, refused-none l h)

requested-has {ℓ} :
    {F : Type ℓ} (st : Station F) (o : Option (PowerSet F)) (p : PowerSet F)
    → requested_power st o ≡ inl (some p)
    → has o ≡ true
unfolding requested_power
requested-has st none p e = absurd (cc e)
requested-has st (some q) p e = refl

module _ {ℓ} {F : Type ℓ} (st : Station F) (w : World F) (r : PatchRequest F) where
  abbrev A : Command F → Type 0
  A = Allowed st

  ptt-Moves :
      ((on : Bool) → r.ptt ≡ some on → st.caps.ptt_control ≡ true) → Moves A 31 32 (ptt_part w st r)
  unfolding ptt_part
  ptt-Moves ok =
      for_set-Moves A 31 32 r.ptt
        (λ on. send w (set_ptt on) then settle_ptt w st.caps.ptt_control on) (omega arith)
        (λ on e.
          then-Moves A 31 32 32 (send w (set_ptt on)) (settle_ptt w st.caps.ptt_control on)
            (omega arith) (placed-Moves A w 31 32 (set_ptt on) (omega arith) refl (ok on e))
            (settle_ptt-Moves st w r 32 st.caps.ptt_control on))

  tune-Moves :
      ((on : Bool) → r.tuner_tune ≡ some on → Allowed st start_tune) → Moves A 32 33 (tune_part w r)
  unfolding tune_part
  tune-Moves ok =
      for_set-Moves A 32 33 r.tuner_tune (λ on. send w start_tune then arm w) (omega arith)
        (λ on e.
          then-Moves A 32 33 33 (send w start_tune) (arm w) (omega arith)
            (placed-Moves A w 32 33 start_tune (omega arith) refl (ok on e)) (arm-Moves st w r 33))

  transaction-Moves :
      (power : Option (PowerSet F))
      → ((hz : ℕ) → r.frequency ≡ some hz → allows_frequency st.limits.bands hz ≡ true)
      → ((on : Bool) → r.ptt ≡ some on → st.caps.ptt_control ≡ true)
      → ((on : Bool) → r.tuner_tune ≡ some on → Allowed st start_tune)
      → ((p : PowerSet F) → power ≡ some p → Allowed st (set_power p))
      → Moves A 0 33 (transaction w st r power)
  unfolding transaction
  transaction-Moves power bands ptt_ok tune_ok power_ok =
      (field_then-Moves A w 0 1 33 r.exchange_bands (λ on. exchange_bands) _ (omega arith)
        (omega arith) (λ v. refl) (λ v e. tt)
        (field_then-Moves A w 1 2 33 r.vfo_mode (λ on. select_vfo_mode r.vfo) _ (omega arith)
          (omega arith) (λ v. refl) (λ v e. tt)
          (then-Moves A 2 4 33 (tuning_part w r) _ (omega arith) (tuning-Moves st w r bands) (
            field_then-Moves A w 4 5 33 (slot_left w r) set_filter_slot _ (omega arith)
              (omega arith) (λ v. refl) (λ v e. tt)
              (field_then-Moves A w 5 6 33 r.filter_width_hz set_filter_width _ (omega arith)
                (omega arith) (λ v. refl) (λ v e. tt)
                (field_then-Moves A w 6 7 33 power set_power _ (omega arith) (omega arith)
                  (λ v. refl) power_ok
                  (then-Moves A 7 14 33 (apply_front_end w r) _ (omega arith)
                    (front_end-Moves st w r)
                    (then-Moves A 14 24 33 (apply_noise w r) _ (omega arith) (noise-Moves st w r) (
                      then-Moves A 24 27 33 (apply_tx_audio w r) _ (omega arith)
                        (tx_audio-Moves st w r)
                        (field_then-Moves A w 27 28 33 r.break_in set_break_in _ (omega arith)
                          (omega arith) (λ v. refl) (λ v e. tt)
                          (field_then-Moves A w 28 29 33 r.split set_split _ (omega arith)
                            (omega arith) (λ v. refl) (λ v e. tt)
                            (field_then-Moves A w 29 30 33 r.dual_watch set_dual_watch _
                              (omega arith) (omega arith) (λ v. refl) (λ v e. tt)
                              (field_then-Moves A w 30 31 33 r.tuner (λ t. set_tuner (equal t "on"))
                                _ (omega arith) (omega arith) (λ v. refl) (λ v e. tt)
                                (then-Moves A 31 32 33 (ptt_part w st r) _ (omega arith)
                                  (ptt-Moves ptt_ok)
                                  (then-Moves A 32 33 33 (tune_part w r) _ (omega arith)
                                    (tune-Moves tune_ok)
                                    (read_back-Moves st w r 33 (is_slow w r)))))))))))))))))

  -- Where a part is refused nothing is done.
  Clean : Option Fault × List (Action F) → Type 0
  Clean p = Fine A 33 p.1

  refuse_or-Clean :
      (o : Option Fault) (rest : Option Fault × List (Action F))
      → (o ≡ none → Clean rest)
      → Clean (refuse_or o rest)
  unfolding Clean
  refuse_or-Clean (some e) rest h = (tt, tt, tt)
  refuse_or-Clean none rest h = h refl

  with_power-Clean :
      (power : Option (PowerSet F) ⊎ Fault)
      → refused (checks st r) ≡ none
      → PowerWithin st power
      → ((p : PowerSet F) → power ≡ inl (some p) → has r.power ≡ true)
      → Clean (with_power w st r power)
  unfolding Clean with_power checks own_checks
  with_power-Clean (inr e) passed within asked = (tt, tt, tt)
  with_power-Clean (inl power) passed within asked =
      let h = refused-none (checks st r) passed in
      refuse_or-Clean (require_connected st) (transaction w st r power []) (λ on_line.
        transaction-Moves power (λ hz e. not-false (given-false r.frequency _ h.1.0 hz e))
          (λ on e. has-ready r.ptt st.caps.ptt_control h.1.1.1.1.1.0 on e)
          (λ on e. (
            has-ready r.tuner_tune st.caps.tuner_tune h.1.1.1.1.1.1.1.1.1.1.0 on e,
            tunes_inside (has r.tuner_tune) (ltb 0 st.frequency) _ h.1.1.1.1.1.1.1.1.1.1.1.0
                (ap has e),
          ))
          (λ p e.
            let (pct, watts) = subst (λ o. PowerWithin st (inl o)) e within in
            (
              asked-ready (has r.power) st.caps.power_control h.1.1.1.1.1.1.0 (asked p (ap inl e)),
              pct,
              watts,
            ))
          [] (tt, tt, tt))

  apply_patch-Clean : FloatLaws st.floats → Clean (apply_patch w st r)
  unfolding Clean apply_patch
  apply_patch-Clean laws =
      if-elim Clean (bad_vfo st r) _ _ (λ bad. (tt, tt, tt))
        (λ vfo.
          if-elim Clean (request_empty r) _ _ (λ nothing. (tt, tt, tt))
            (λ something.
              refuse_or-Clean (refused (checks st r))
                (with_power w st r (requested_power st r.power))
                (λ passed.
                  with_power-Clean (requested_power st r.power) passed
                    (requested_power-Within st laws r.power)
                    (λ p e. requested-has st r.power p e))))

  -- Whatever the radio answers, the commands of a request go out in a fixed order, in which the exchange
  -- of bands and leaving memory mode come first, a mode before a frequency, and both before the filter,
  -- power, the receive and the transmit settings, then PTT, and last a tuning cycle; and each of them is
  -- allowed: a frequency lies in the bands of the station, a power keeps to its limit on percentages and to
  -- that on watts, converted where the full power is known, PTT, power and tuning go to a radio that
  -- has a command for them, and tuning only where its known frequency lies in the bands.
  pub apply_patch-Ordered :
      FloatLaws st.floats
      → Ordered (apply_patch w st r).1 × All (AllowedAction (Allowed st)) (apply_patch w st r).1
  unfolding Clean
  apply_patch-Ordered laws = let (order, upto, allowed) = apply_patch-Clean laws in (order, allowed)
