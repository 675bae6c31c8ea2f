-- ===== src/Rig/Setters/Tests.antt =====
-- Tests and examples of the setters, with natural numbers for the floating-point ones.
use remoses.Prelude.{◌≡◌, refl, true, false, none, some, [], ◌∷◌}
use remoses.Rig.Patch.Apply.{act, set_power, sent, polled_slow, polled_fast, read_tier}
use remoses.Rig.Patch.Check.{clamp_pct, clamp_power, require_connected}
use remoses.Rig.Patch.Tests.{floats-laws, station, willing}
use remoses.Rig.Setters.{
  write_part, both_tiers, send_power, session_set_power, ensure_cw_will_transmit,
}
use remoses.Rig.Setters.Heard.{Verdict, ensure_cw-Verdict}
use remoses.Rig.Setters.Refusals.{perform, power_to, Sent, perform-Sent}

-- 100 percent is sent as the 80 of the limit.
power-clamped :
    (perform willing station (power_to (record { watts = none; pct = some 100 }))).1
    ≡ polled_fast ∷ polled_slow ∷ sent (set_power (record { watts = none; pct = some 80 })) ∷ []
unfolding session_set_power send_power write_part require_connected clamp_power clamp_pct both_tiers
    act read_tier
power-clamped = refl

perform-Sent_example :
    Sent station (perform willing station (power_to (record { watts = none; pct = some 100 })))
perform-Sent_example =
    perform-Sent station willing floats-laws (power_to (record { watts = none; pct = some 100 }))

ensure_cw-Verdict_example :
    Verdict willing station true "off" false
      (ensure_cw_will_transmit willing station true "off" false "full")
ensure_cw-Verdict_example = ensure_cw-Verdict willing station true "off" false "full"
