-- ===== src/Rig/Setters.antt =====
-- The setters of a session for one field, and what makes sure that Morse will reach the air
-- (internal/rig/session.go). The state that they return is left out; the transaction of ApplyPatch is in
-- Rig/Patch.antt, with the commands, the answers of the radio and the read-back that these share.
pub mod Refusals
pub mod Heard
mod Tests
use remoses.Prelude.{
  ℕ, String, ◌⊎◌, inl, inr, Bool, true, false, not, ◌&&◌, ◌||◌, Option, none, some, List, [], ltb,
  if◌then◌else◌,
}
use remoses.Prelude.Compare.{
  equal, nat_comparable, int_comparable, bool_comparable, string_comparable,
}
use remoses.Prelude.Int.{ℤ, pos}
use remoses.Radio.Compared.{meter_comparable, power_comparable, cw_comparable, vfo_comparable}
use remoses.Rig.Patch.{Fault, PowerSet, unsupported, out_of_band, Station, allows_frequency}
use remoses.Rig.Patch.Apply.{
  Action, Command, set_ptt, select_vfo_mode, set_vfo_mode, set_mode, set_vfo_frequency,
  set_frequency, set_filter_slot, set_filter_width, set_power, set_break_in, set_split,
  set_dual_watch, set_tuner, start_tune, polled_slow, polled_fast, World, Part, ◌then◌, refuse_or,
  send, arm, read_tier,
}
use remoses.Rig.Patch.Check.{contains, is_nil, int_less, clamp_power, require_connected}

-- `BreakIn.Transmits`
unfoldable pub transmits : String → Bool
transmits b = equal b "semi" || equal b "full" || equal b "on"

-- `configuredBreakIn`
unfoldable pub configured_break_in : String → String × Bool
configured_break_in s =
    if equal s "full"
    then ("full", true)
    else if equal s "manual"
    then ("", false)
    else ("semi", true)

module _ {ℓ} {F : Type ℓ} (w : World F) (st : Station F) where
  -- A refusal, or the connection check, the command and the read-back.
  unfoldable pub write_part : Bool → Command F → Part F → Option Fault × List (Action F)
  write_part refusal c behind =
      refuse_or (if refusal then some unsupported else none)
        (refuse_or (require_connected st) ((send w c then behind) []))

  unfoldable pub both_tiers : Part F
  both_tiers = read_tier w polled_slow then read_tier w polled_fast

  unfoldable pub session_set_frequency : ℕ → ℕ → Option Fault × List (Action F)
  session_set_frequency vfo hz =
      if not (allows_frequency st.limits.bands hz)
      then (some out_of_band, [])
      else write_part false (set_frequency vfo hz) (read_tier w polled_fast)

  unfoldable pub unknown_mode : ℕ → Bool
  unknown_mode m = not (is_nil st.caps.modes) && not (contains st.caps.modes m)

  -- `SetMode` asks for the connection before it looks at the mode.
  unfoldable pub session_set_mode : ℕ → Bool → Option Fault × List (Action F)
  session_set_mode m digital = refuse_or (require_connected st) (
      write_part (unknown_mode m) (set_mode m digital)
        (read_tier w polled_fast then read_tier w polled_slow))

  -- What is behind `clampPower` in `SetPower`.
  unfoldable pub send_power : PowerSet F ⊎ Fault → Option Fault × List (Action F)
  send_power (inr e) = (some e, [])
  send_power (inl p) = write_part false (set_power p) both_tiers

  unfoldable pub session_set_power : PowerSet F → Option Fault × List (Action F)
  session_set_power p = refuse_or (require_connected st) (send_power (clamp_power st p.watts p.pct))

  unfoldable pub session_set_ptt : Bool → Option Fault × List (Action F)
  session_set_ptt on = write_part false (set_ptt on) (read_tier w polled_fast)

  unfoldable pub session_set_filter_width : ℤ → Option Fault × List (Action F)
  session_set_filter_width hz =
      refuse_or (require_connected st)
        (write_part (not st.caps.filter_width) (set_filter_width hz) both_tiers)

  unfoldable pub session_set_filter_slot : ℤ → Option Fault × List (Action F)
  session_set_filter_slot n = refuse_or (require_connected st) (
      write_part
        (int_less st.caps.filter_slots (pos 1)
          || int_less n (pos 1)
          || int_less st.caps.filter_slots n)
        (set_filter_slot n) both_tiers)

  -- `there` tells whether the backend has the interface.
  unfoldable pub session_set_break_in : Bool → String → Option Fault × List (Action F)
  session_set_break_in there b =
      write_part (not there || not st.caps.break_in_control) (set_break_in b) both_tiers

  unfoldable pub session_set_tuner : Bool → Bool → Option Fault × List (Action F)
  session_set_tuner there on =
      write_part (not there || not st.caps.tuner_control) (set_tuner on) both_tiers

  unfoldable pub session_start_tune : Bool → Option Fault × List (Action F)
  session_start_tune there =
      if not there || not st.caps.tuner_tune
      then (some unsupported, [])
      else refuse_or (require_connected st) (
          if ltb 0 st.frequency && not (allows_frequency st.limits.bands st.frequency)
          then (some out_of_band, [])
          else (send w start_tune then arm w then both_tiers) [])

  unfoldable pub session_select_vfo_mode : ℕ → Option Fault × List (Action F)
  session_select_vfo_mode vfo =
      write_part (not st.backend.vfo_mode) (select_vfo_mode vfo) both_tiers

  unfoldable pub session_set_vfo_frequency : ℕ → ℕ → Option Fault × List (Action F)
  session_set_vfo_frequency vfo hz =
      if not (allows_frequency st.limits.bands hz)
      then (some out_of_band, [])
      else write_part (not st.backend.dual_vfo) (set_vfo_frequency vfo hz) both_tiers

  unfoldable pub session_set_vfo_mode : ℕ → ℕ → Bool → ℤ → Option Fault × List (Action F)
  session_set_vfo_mode vfo m digital slot =
      write_part (unknown_mode m || not st.backend.dual_vfo) (set_vfo_mode vfo m digital slot)
        both_tiers

  unfoldable pub session_set_split : Bool → Option Fault × List (Action F)
  session_set_split on =
      write_part (not st.backend.dual_vfo || not st.caps.split) (set_split on) both_tiers

  unfoldable pub session_set_dual_watch : Bool → Option Fault × List (Action F)
  session_set_dual_watch on =
      write_part (not st.backend.dual_vfo || not st.caps.dual_watch) (set_dual_watch on) both_tiers

  -- What the error of setting break-in means, for the break-in `v` that was read.
  unfoldable pub set_failed :
      String → Option Fault × List (Action F) → Option Fault × List (Action F)
  set_failed v (none, log) = (none, log)
  set_failed v (some e, log) = if equal v "" then (none, log) else (some e, log)

  -- `EnsureCWWillTransmit`: `there` tells whether the backend has break-in, `v` what it is, `ptt` whether
  -- the radio transmits, and `setting` what is configured.
  unfoldable pub ensure_cw_will_transmit :
      Bool → String → Bool → String → Option Fault × List (Action F)
  ensure_cw_will_transmit there v ptt setting =
      if not there
      then (none, [])
      else if transmits v || ptt
      then (none, [])
      else if not (configured_break_in setting).1
      then (if equal v "" then none else some unsupported, [])
      else set_failed v (send w (set_break_in (configured_break_in setting).0) [])
