-- ===== src/Ws/Render/Merge.antt =====
-- A delta does to a reader what the change did to the session.
use mathlib.Core.Path.{subst}
use remoses.Prelude.{
  ℕ, ◌≡◌, refl, sym, ap, ◌∙◌, inl, inr, Bool, true, false, not, ◌||◌, Option, none, some, arith,
  if◌then◌else◌, Bool-cases,
}
use remoses.Prelude.Compare.{Comparable}
use remoses.Radio.{Meter, State, Patch}
use remoses.Radio.Change.{set, set_ptr, is_none, merge, clear_meters, apply}
use remoses.Radio.Diffed.{clear_meters-on, clear_meters-off}
use remoses.Radio.Follow.{Quiet}
use remoses.Ws.Render.{
  pointer, stamped, drops_ptt, meters_change, changed_fields, merge_meter, apply_delta,
}

set-pointer {ℓ} : {A : Type ℓ} (o old : Option A) → set (pointer o) old ≡ set_ptr o old
set-pointer none old = refl
set-pointer (some v) old = refl

-- A group of members that goes out whenever its trigger says, of values that move with it only.
set-group {ℓ} :
    {A : Type ℓ} (goes : Bool) (new old : A)
    → (goes ≡ false → old ≡ new)
    → set (if goes then some new else none) old ≡ new
set-group true new old unmoved = refl
set-group false new old unmoved = unmoved refl

set_ptr-none {ℓ} : {A : Type ℓ} (o old : Option A) → is_none o ≡ true → set_ptr o old ≡ old
set_ptr-none none old h = refl
set_ptr-none (some v) old h = absurd (cc h)

either : (a b : Bool) → (a || b) ≡ false → (a ≡ false) × (b ≡ false)
either a b h = ground arith

negated : (a : Bool) → not a ≡ false → a ≡ true
negated a h = ground arith

no_drop : (p : Option Bool) (old : Bool) → drops_ptt p ≡ false → set p old ≡ false → old ≡ false
no_drop none old h off = off
no_drop (some true) old h off = absurd (cc off)
no_drop (some false) old h off = absurd (cc h)

module _ {ℓ} {F : Type ℓ} where
  -- A new meter has a reading in S-units where the old one had.
  abbrev pub UnitsStay : Option (Meter F) → Meter F → Type ℓ
  UnitsStay none old = Unit
  UnitsStay (some m) old = m.s_units ≡ none → old.s_units ≡ none

  -- So do both signal meters of a change.
  abbrev pub KeepsUnits : Patch F → State F → Type ℓ
  KeepsUnits p s = UnitsStay p.s_meter s.s_meter × UnitsStay p.sub_s_meter s.sub_s_meter

  stays-units : (new old : Option F) → (new ≡ none → old ≡ none) → set_ptr new old ≡ new
  stays-units none old h = h refl
  stays-units (some v) old h = refl

  merge_meter-set :
      (o : Option (Meter F)) (old : Meter F) → UnitsStay o old → merge_meter o old ≡ set o old
  unfolding merge_meter
  merge_meter-set none old h = refl
  merge_meter-set (some m) old h = λ i. record m { s_units = stays-units m.s_units old.s_units h i }

  abbrev SameMeters : State F → State F → Type ℓ
  SameMeters s t =
      (s.power_meter ≡ t.power_meter)
      × (s.swr ≡ t.swr)
      × (s.alc ≡ t.alc)
      × (s.swr_ratio ≡ t.swr_ratio)

module _ {ℓ} {F : Type ℓ} ⦃float : Comparable F⦄ where
  -- Meters that do not go out have not moved.
  meters-stay :
      (s : State F) (p : Patch F) → Quiet s → meters_change p ≡ false → SameMeters s (apply s p)
  unfolding apply merge
  meters-stay s p quiet still =
      let (h1, ptt) = either _ _ still in
      let (h2, ratio) = either _ _ h1 in
      let (h3, alc) = either _ _ h2 in
      let (power, swr) = either _ _ h3 in
      elim (Bool-cases (set p.ptt s.ptt)) [
        | inl on ↦ subst (SameMeters s) (sym (clear_meters-on (merge s p) on)) (
          sym (set_ptr-none p.power_meter s.power_meter (negated _ power)),
          sym (set_ptr-none p.swr s.swr (negated _ swr)),
          sym (set_ptr-none p.alc s.alc (negated _ alc)),
          sym (set_ptr-none p.swr_ratio s.swr_ratio (negated _ ratio)),
        )
        | inr off ↦
            subst (SameMeters s) (sym (clear_meters-off (merge s p) off))
              (quiet (no_drop p.ptt s.ptt ptt off))
      ]

  abbrev at_version : ℕ → ℕ → State F → State F
  at_version seq at_time s = record s { updated_at = at_time; seq = seq }

  -- The parts of a state that `clear_meters` leaves alone.
  clear_meters-parts :
      (s : State F)
      → record s {
        power_meter = (clear_meters s).power_meter;
        swr = (clear_meters s).swr;
        alc = (clear_meters s).alc;
        swr_ratio = (clear_meters s).swr_ratio;
      }
        ≡ clear_meters s
  clear_meters-parts s = elim (Bool-cases s.ptt) [
    | inl on ↦ rw (clear_meters-on s on) refl
    | inr off ↦ rw (clear_meters-off s off) refl
  ]

  -- A reader that decodes the delta rendered for a change and for the state behind it onto the state in
  -- front of it gets the state behind it, with the number and the time of the frame, if a state that
  -- is not transmitting has no transmit meters and the change takes the reading in S-units from no
  -- signal meter that had one.
  pub apply_delta-changed_fields :
      (s : State F) (p : Patch F) (seq at_time : ℕ)
      → Quiet s
      → KeepsUnits p s
      → apply_delta seq at_time (changed_fields p (apply s p)) s
        ≡ record (apply s p) { updated_at = stamped at_time s.updated_at; seq = seq }
  unfolding apply_delta changed_fields apply merge
  apply_delta-changed_fields s p seq at_time quiet (main, sub) =
      (λ i. record (merge s p) {
        s_meter = merge_meter-set p.s_meter s.s_meter main i;
        sub_s_meter = merge_meter-set p.sub_s_meter s.sub_s_meter sub i;
        preamp = set-pointer p.preamp s.preamp i;
        attenuator_db = set-pointer p.attenuator_db s.attenuator_db i;
        rf_gain = set-pointer p.rf_gain s.rf_gain i;
        ip_plus = set-pointer p.ip_plus s.ip_plus i;
        digi_sel = set-pointer p.digi_sel s.digi_sel i;
        digi_sel_shift = set-pointer p.digi_sel_shift s.digi_sel_shift i;
        noise_blanker = set-pointer p.noise_blanker s.noise_blanker i;
        nb_level = set-pointer p.nb_level s.nb_level i;
        noise_reduction = set-pointer p.noise_reduction s.noise_reduction i;
        nr_level = set-pointer p.nr_level s.nr_level i;
        notch = set-pointer p.notch s.notch i;
        notch_freq = set-pointer p.notch_freq s.notch_freq i;
        auto_notch = set-pointer p.auto_notch s.auto_notch i;
        antenna = set-pointer p.antenna s.antenna i;
        rx_antenna = set-pointer p.rx_antenna s.rx_antenna i;
        tx_audio_gain = set-pointer p.tx_audio_gain s.tx_audio_gain i;
        proc = set-pointer p.proc s.proc i;
        proc_level = set-pointer p.proc_level s.proc_level i;
        power_meter =
            set-group (meters_change p) (apply s p).power_meter s.power_meter
              (λ still. (meters-stay s p quiet still).0) i;
        swr =
            set-group (meters_change p) (apply s p).swr s.swr
              (λ still. (meters-stay s p quiet still).1) i;
        alc =
            set-group (meters_change p) (apply s p).alc s.alc
              (λ still. (meters-stay s p quiet still).2) i;
        swr_ratio =
            set-group (meters_change p) (apply s p).swr_ratio s.swr_ratio
              (λ still. (meters-stay s p quiet still).3) i;
        updated_at = stamped at_time s.updated_at;
        seq = seq;
      })
      ∙ ap (at_version seq (stamped at_time s.updated_at)) (clear_meters-parts (merge s p))
