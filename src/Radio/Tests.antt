-- ===== src/Radio/Tests.antt =====
-- Tests and examples of the changes, with natural numbers for the floating-point ones.
use remoses.Prelude.Compare.{nat_comparable}
use remoses.Prelude.{ℕ, ◌≡◌, refl, true, false, none, some}
use remoses.Prelude.Int.{pos}
use remoses.Radio.{Patch}
use remoses.Radio.Blank.{blank}
use remoses.Radio.Change.{no_patch, empty, merge, clear_meters, apply, diff}
use remoses.Radio.Diffed.{with_audio, apply-diff}

abbrev calling : Patch ℕ
calling = record no_patch {
  frequency = some 14_025_000;
  ptt = some true;
  power_meter = some (record { raw = pos 120; scale = pos 255; s_units = none });
  agc = some "fast";
}

-- The meter goes with the transmission, the gain is told to nobody.
abbrev ended : Patch ℕ
ended = record no_patch { ptt = some false; tx_audio_gain = some 50 }

meter-cleared : (apply (apply blank calling) ended).power_meter ≡ none
unfolding apply merge clear_meters
meter-cleared = refl

gain-unseen : empty (diff blank (apply blank (record no_patch { tx_audio_gain = some 50 }))) ≡ true
unfolding apply merge clear_meters diff empty
gain-unseen = refl

apply-diff_example :
    apply (apply blank calling) (diff (apply blank calling) (apply (apply blank calling) ended))
    ≡ with_audio (apply (apply blank calling) ended) (apply blank calling)
apply-diff_example = apply-diff (apply blank calling) ended
