-- ===== src/Rig/Setters/Heard.antt =====
-- Morse is let through where it will be heard, and stopped only where it will not.
use remoses.Prelude.{
  String, ◌≡◌, refl, ◌⊎◌, inl, inr, Bool, true, false, not, ◌||◌, Option, none, some, List, [], ◌∷◌,
  if-elim,
}
use remoses.Prelude.Compare.{
  equal, nat_comparable, int_comparable, bool_comparable, string_comparable,
}
use remoses.Radio.Compared.{meter_comparable, power_comparable, cw_comparable, vfo_comparable}
use remoses.Rig.Patch.{Fault, Station}
use remoses.Rig.Patch.Apply.{Action, act, set_break_in, sent, World}
use remoses.Rig.Patch.Permits.{not-false}
use remoses.Rig.Setters.{transmits, configured_break_in, set_failed, ensure_cw_will_transmit}

configured_break_in-transmits :
    (s : String) → (configured_break_in s).1 ≡ true → transmits (configured_break_in s).0 ≡ true
unfolding configured_break_in transmits
configured_break_in-transmits s =
    let P = λ (p : String × Bool). p.1 ≡ true → transmits p.0 ≡ true in
    if-elim P (equal s "full") _ _ (λ full. λ managed. refl)
      (λ other.
        if-elim P (equal s "manual") _ _ (λ manual. λ managed. absurd (cc managed))
          (λ rest. λ managed. refl))

not-true : (b : Bool) → not b ≡ true → b ≡ false
not-true true h = absurd (cc h)
not-true false h = refl

either : (a b : Bool) → (a || b) ≡ true → (a ≡ true) ⊎ (b ≡ true)
either true b h = inl refl
either false b h = inr h

neither : (a b : Bool) → (a || b) ≡ false → (a ≡ false) × (b ≡ false)
neither true b h = absurd (cc h)
neither false b h = (refl, h)

module _ {ℓ} {F : Type ℓ} (w : World F) (st : Station F) (there : Bool) (v : String)
    (ptt : Bool) where
  -- With no error: the backend has no break-in, or it transmits, or PTT is on, or what it is is unknown,
  -- or a break-in that transmits was set and taken. With an error: break-in is known and does not
  -- transmit, PTT is off, and nothing was sent but the break-in that failed.
  abbrev pub Verdict : Option Fault × List (Action F) → Type ℓ
  Verdict (none, log) =
      (there ≡ false)
      ⊎ (transmits v ≡ true)
      ⊎ (ptt ≡ true)
      ⊎ (equal v "" ≡ true)
      ⊎ ((b : String) × (log ≡ sent (set_break_in b) ∷ [])
          × (transmits b ≡ true)
          × (w.answer log ≡ none))
  Verdict (some e, log) =
      (transmits v ≡ false)
      × (ptt ≡ false)
      × (equal v "" ≡ false)
      × ((log ≡ []) ⊎ ((b : String) × (log ≡ sent (set_break_in b) ∷ [])))

  set_failed-Verdict :
      (b : String) (answer : Option Fault)
      → w.answer (sent (set_break_in b) ∷ []) ≡ answer
      → transmits b ≡ true
      → (transmits v || ptt) ≡ false
      → Verdict (set_failed w st v (answer, sent (set_break_in b) ∷ []))
  unfolding set_failed
  set_failed-Verdict b none reply heard silent = inr (inr (inr (inr (b, refl, heard, reply))))
  set_failed-Verdict b (some e) reply heard silent =
      if-elim Verdict (equal v "") _ _ (λ unknown. inr (inr (inr (inl unknown))))
        (λ known.
          let (off, down) = neither (transmits v) ptt silent in (off, down, known, inr (b, refl)))

  -- `EnsureCWWillTransmit` lets Morse through only where it goes on the air as far as is known, and refuses
  -- it only where break-in is known to be off and PTT is off, never on a break-in that is unknown.
  pub ensure_cw-Verdict :
      (setting : String) → Verdict (ensure_cw_will_transmit w st there v ptt setting)
  unfolding ensure_cw_will_transmit act
  ensure_cw-Verdict setting =
      if-elim Verdict (not there) _ _ (λ without. inl (not-true there without))
        (λ has_it.
          if-elim Verdict (transmits v || ptt) _ _
            (λ heard. elim (either (transmits v) ptt heard) [
              | inl on ↦ inr (inl on)
              | inr up ↦ inr (inr (inl up))
            ])
            (λ silent.
              if-elim Verdict (not (configured_break_in setting).1) _ _
                (λ manual.
                  if-elim (λ (o : Option Fault). Verdict (o, [])) (equal v "") _ _
                    (λ unknown. inr (inr (inr (inl unknown))))
                    (λ known.
                      let (off, down) = neither (transmits v) ptt silent in
                      (off, down, known, inl refl)))
                (λ manage.
                  set_failed-Verdict (configured_break_in setting).0 _ refl
                    (configured_break_in-transmits setting (not-false manage)) silent)))
