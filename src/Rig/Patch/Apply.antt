-- ===== src/Rig/Patch/Apply.antt =====
-- The transaction of `ApplyPatch`: the commands that it sends, in order. The backend, the cache and the
-- context are functions of what was done so far, the newest first, so that they may do anything.
use remoses.Prelude.{
  ℕ, zero, suc, String, ◌⊎◌, inl, inr, Bool, true, false, not, ◌&&◌, ◌||◌, Option, none, some, List,
  [], ◌∷◌, if◌then◌else◌,
}
use remoses.Prelude.Compare.{
  equal, nat_comparable, int_comparable, bool_comparable, string_comparable,
}
use remoses.Prelude.Int.{ℤ, pos}
use remoses.Radio.Change.{set}
use remoses.Radio.Compared.{meter_comparable, power_comparable, cw_comparable, vfo_comparable}
use remoses.Rig.Backoff.{is_fatal_poll_err}
use remoses.Rig.Patch.{
  Fault, PowerSet, PatchRequest, unsupported, standby, link, Station, has, names_a_vfo,
  front_end_requested, noise_requested, tx_audio_requested, request_empty,
}
use remoses.Rig.Patch.Check.{refused, given, checks, bad_vfo, clamp_power, require_connected}

pub data Command {ℓ} (F : Type ℓ) : Type ℓ where
  exchange_bands : Command F
  select_vfo_mode : ℕ → Command F
  set_vfo_mode : ℕ → ℕ → Bool → ℤ → Command F
  set_mode : ℕ → Bool → Command F
  set_vfo_frequency set_frequency : ℕ → ℕ → Command F
  set_filter_slot set_filter_width : ℤ → Command F
  set_power : PowerSet F → Command F
  set_attenuator set_preamp set_noise_blanker set_noise_reduction set_antenna : ℤ → Command F
  set_ip_plus set_digi_sel set_auto_notch set_notch set_rx_antenna set_proc : Bool → Command F
  set_digi_sel_shift set_rf_gain set_nb_level set_nr_level set_notch_freq : F → Command F
  set_tx_audio_gain set_proc_level : F → Command F
  set_agc set_notch_width set_break_in : String → Command F
  set_split set_dual_watch set_tuner set_ptt : Bool → Command F
  start_tune : Command F

-- What a transaction does: a command to the radio, a poll of a tier, or arming the transmit time-out.
pub data Action {ℓ} (F : Type ℓ) : Type ℓ where
  sent : Command F → Action F
  polled_slow polled_fast armed : Action F

-- What the last action came to, what the cache then has as mode and data mode of the VFO that is
-- addressed, whether it has PTT on, and whether the context is done.
pub record World {ℓ} (F : Type ℓ) : Type ℓ where
  pub answer : List (Action F) → Option Fault
  pub reading : List (Action F) → ℕ × Bool
  pub keyed : List (Action F) → Bool
  pub gone : List (Action F) → Bool

unfoldable pub is_unsupported : Fault → Bool
is_unsupported unsupported = true
is_unsupported _ = false

-- `isFatalPollErr`, for what a backend may give.
unfoldable pub is_fatal : Fault → Bool
is_fatal (link e) = is_fatal_poll_err (some e)
is_fatal standby = true
is_fatal _ = false

-- A part of the transaction: what was done, and the error that ended it.
abbrev pub Part {ℓ} : Type ℓ → Type ℓ
Part F = List (Action F) → Option Fault × List (Action F)

module _ {ℓ} {F : Type ℓ} where
  abbrev pub skip : Part F
  skip log = (none, log)

  -- `if err != nil { return err }`
  abbrev pub go_on : Part F → Option Fault × List (Action F) → Option Fault × List (Action F)
  go_on k (none, log) = k log
  go_on k (some e, log) = (some e, log)

  infixr 2 ◌then◌
  abbrev pub ◌then◌ : Part F → Part F → Part F
  (m then k) log = go_on k (m log)

  abbrev pub for_set {κ} : {A : Type κ} → Option A → (A → Part F) → Part F
  for_set none f = skip
  for_set (some v) f = f v

  abbrev pub only_if : Bool → Part F → Part F
  only_if b m = if b then m else skip

-- A value of the request, or else another.
abbrev pub set_or {ℓ} : {A : Type ℓ} → Option A → A → A
set_or none old = old
set_or (some v) old = v

module _ {ℓ} {F : Type ℓ} where
  -- An early return before anything is sent.
  abbrev pub refuse_or :
      Option Fault → Option Fault × List (Action F) → Option Fault × List (Action F)
  refuse_or (some e) rest = (some e, [])
  refuse_or none rest = rest

  unfoldable pub clamped : PowerSet F ⊎ Fault → Option (PowerSet F) ⊎ Fault
  clamped (inl p) = inl (some p)
  clamped (inr e) = inr e

  -- The power that is sent, if any is asked for.
  unfoldable pub requested_power : Station F → Option (PowerSet F) → Option (PowerSet F) ⊎ Fault
  requested_power st none = inl none
  requested_power st (some p) = clamped (clamp_power st p.watts p.pct)

module _ {ℓ} {F : Type ℓ} (w : World F) where
  unfoldable pub act : Action F → Part F
  act a log = (w.answer (a ∷ log), a ∷ log)

  abbrev pub send : Command F → Part F
  send c = act (sent c)

  -- Arming the timer cannot fail.
  unfoldable pub arm : Part F
  arm log = (none, armed ∷ log)

  -- What is behind the first try of `applyModePair`.
  unfoldable pub retried :
      (Bool → Command F)
      → Bool
      → Bool
      → Option Fault × List (Action F)
      → Option Fault × List (Action F)
  retried set digital explicit (none, log) = (none, log)
  retried set digital explicit (some e, log) =
      let again = send (set false) log in
      if not explicit && digital && is_unsupported e then again else (some e, log)

  unfoldable pub apply_mode_pair : (Bool → Command F) → Bool → Bool → Part F
  apply_mode_pair set digital explicit log = retried set digital explicit (send (set digital) log)

  -- The pair that is sent: what the request leaves out is as the cache has it.
  unfoldable pub mode_part : PatchRequest F → (ℕ → Bool → Command F) → Part F
  mode_part r set log =
      apply_mode_pair (set (set_or r.mode (w.reading log).0)) (set_or r.data_mode (w.reading log).1)
        (has r.data_mode) log

  -- The path of a request that names a VFO.
  unfoldable pub named_part : PatchRequest F → Part F
  named_part r =
      only_if (has r.mode || has r.data_mode)
        (mode_part r (λ m digital. set_vfo_mode r.vfo m digital (set_or r.filter_slot (pos 0))))
      then for_set r.frequency (λ hz. send (set_vfo_frequency r.vfo hz))

  -- The other path.
  unfoldable pub current_part : PatchRequest F → Part F
  current_part r =
      only_if (has r.mode || has r.data_mode) (mode_part r set_mode)
      then for_set r.frequency (λ hz. send (set_frequency r.vfo hz))

  -- `FilterSlot` is gone behind a mode that took it along.
  unfoldable pub slot_left : PatchRequest F → Option ℤ
  slot_left r = if names_a_vfo r && (has r.mode || has r.data_mode) then none else r.filter_slot

  unfoldable pub tuning_part : PatchRequest F → Part F
  tuning_part r = if names_a_vfo r then named_part r else current_part r

  unfoldable pub apply_front_end : PatchRequest F → Part F
  apply_front_end r =
      for_set r.attenuator_db (λ db. send (set_attenuator db))
      then for_set r.preamp (λ n. send (set_preamp n))
      then for_set r.ip_plus (λ on. send (set_ip_plus on))
      then for_set r.digi_sel (λ on. send (set_digi_sel on))
      then for_set r.digi_sel_shift (λ pct. send (set_digi_sel_shift pct))
      then for_set r.agc (λ a. send (set_agc a))
      then for_set r.rf_gain (λ pct. send (set_rf_gain pct))

  unfoldable pub apply_noise : PatchRequest F → Part F
  apply_noise r =
      for_set r.noise_blanker (λ n. send (set_noise_blanker n))
      then for_set r.nb_level (λ pct. send (set_nb_level pct))
      then for_set r.noise_reduction (λ n. send (set_noise_reduction n))
      then for_set r.nr_level (λ pct. send (set_nr_level pct))
      then for_set r.auto_notch (λ on. send (set_auto_notch on))
      then for_set r.notch (λ on. send (set_notch on))
      then for_set r.notch_width (λ width. send (set_notch_width width))
      then for_set r.notch_freq (λ pct. send (set_notch_freq pct))
      then for_set r.antenna (λ n. send (set_antenna n))
      then for_set r.rx_antenna (λ on. send (set_rx_antenna on))

  unfoldable pub apply_tx_audio : PatchRequest F → Part F
  apply_tx_audio r =
      for_set r.tx_audio_gain (λ pct. send (set_tx_audio_gain pct))
      then for_set r.proc (λ on. send (set_proc on))
      then for_set r.proc_level (λ pct. send (set_proc_level pct))

  -- The loop of `settlePTT`, with the turns that are left; its error is dropped.
  unfoldable pub settle_loop : ℕ → Bool → List (Action F) → List (Action F)
  settle_loop zero want log = log
  settle_loop (suc n) want log =
      let rest = settle_loop n want (polled_fast ∷ log) in
      if equal (w.keyed log) want || w.gone log
      then log
      else if has (w.answer (polled_fast ∷ log))
      then polled_fast ∷ log
      else rest

  unfoldable pub settle_ptt : Bool → Bool → Part F
  settle_ptt control want log = (none, if control then settle_loop 6 want log else log)

  -- One tier of `readback`: an error that is not fatal is passed over.
  unfoldable pub read_tier : Action F → Part F
  read_tier tier log =
      (if given (w.answer (tier ∷ log)) is_fatal then w.answer (tier ∷ log) else none, tier ∷ log)

  unfoldable pub ptt_part : Station F → PatchRequest F → Part F
  ptt_part st r = for_set r.ptt (λ on. send (set_ptt on) then settle_ptt st.caps.ptt_control on)

  unfoldable pub tune_part : PatchRequest F → Part F
  tune_part r = for_set r.tuner_tune (λ on. send start_tune then arm)

  unfoldable pub is_slow : PatchRequest F → Bool
  is_slow r =
      has r.power
      || has r.filter_slot
      || has r.filter_width_hz
      || has r.split
      || has r.dual_watch
      || names_a_vfo r
      || has r.vfo_mode
      || has r.break_in
      || has r.exchange_bands
      || has r.tuner
      || has r.tuner_tune
      || front_end_requested r
      || noise_requested r
      || has r.antenna
      || has r.rx_antenna
      || tx_audio_requested r
      || has r.mode
      || has r.data_mode

  unfoldable pub read_back : Bool → Part F
  read_back slow = only_if slow (read_tier polled_slow) then read_tier polled_fast

  -- From the first command to the read-back, for the power that `clampPower` gave.
  unfoldable pub transaction : Station F → PatchRequest F → Option (PowerSet F) → Part F
  transaction st r power =
      for_set r.exchange_bands (λ on. send exchange_bands)
      then for_set r.vfo_mode (λ on. send (select_vfo_mode r.vfo))
      then tuning_part r
      then for_set (slot_left r) (λ n. send (set_filter_slot n))
      then for_set r.filter_width_hz (λ hz. send (set_filter_width hz))
      then for_set power (λ p. send (set_power p))
      then apply_front_end r
      then apply_noise r
      then apply_tx_audio r
      then for_set r.break_in (λ b. send (set_break_in b))
      then for_set r.split (λ on. send (set_split on))
      then for_set r.dual_watch (λ on. send (set_dual_watch on))
      then for_set r.tuner (λ t. send (set_tuner (equal t "on")))
      then ptt_part st r
      then tune_part r
      then read_back (is_slow r)

  -- What is behind `clampPower`.
  unfoldable pub with_power :
      Station F → PatchRequest F → Option (PowerSet F) ⊎ Fault → Option Fault × List (Action F)
  with_power st r (inr e) = (some e, [])
  with_power st r (inl power) = refuse_or (require_connected st) (transaction st r power [])

  unfoldable pub apply_patch : Station F → PatchRequest F → Option Fault × List (Action F)
  apply_patch st r =
      if bad_vfo st r
      then (some unsupported, [])
      else if request_empty r
      then (none, [])
      else refuse_or (refused (checks st r)) (with_power st r (requested_power st r.power))
