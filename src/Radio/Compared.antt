-- ===== src/Radio/Compared.antt =====
-- The comparisons of the structs inside a state: `Equal` of meters and powers, `==` of the others.
use remoses.Prelude.{◌≡◌, Bool, true, ◌&&◌, arith}
use remoses.Prelude.Compare.{
  Comparable, equal, bool_sound, int_sound, same_ptr, same_ptr_sound, nat_comparable,
  int_comparable, bool_comparable, string_comparable,
}
use remoses.Radio.{Power, Meter, CwStatus, VfoState}

pub both : {a b : Bool} → (a && b) ≡ true → (a ≡ true) × (b ≡ true)
both {a} {b} h = ground arith

module _ {ℓ} {F : Type ℓ} ⦃float : Comparable F⦄ where
  abbrev pub meter_equal : Meter F → Meter F → Bool
  meter_equal m other =
      equal m.raw other.raw && (equal m.scale other.scale && same_ptr m.s_units other.s_units)

  abbrev pub power_equal : Power F → Power F → Bool
  power_equal p other =
      equal p.pct other.pct && (equal p.native other.native && same_ptr p.watts other.watts)

  pub meter_sound : (a b : Meter F) → meter_equal a b ≡ true → a ≡ b
  meter_sound a b h =
      let (r, h1) = both h in
      let (c, s) = both h1 in
      λ i. record {
        raw = int_sound a.raw b.raw r i;
        scale = int_sound a.scale b.scale c i;
        s_units = same_ptr_sound a.s_units b.s_units s i;
      }

  pub power_sound : (a b : Power F) → power_equal a b ≡ true → a ≡ b
  power_sound a b h =
      let (p, h1) = both h in
      let (n, w) = both h1 in
      λ i. record {
        watts = same_ptr_sound a.watts b.watts w i;
        pct = float.equal_sound a.pct b.pct p i;
        native = int_sound a.native b.native n i;
      }

  instance abbrev pub meter_comparable : Comparable (Meter F)
  meter_comparable = record { equal_values = meter_equal; equal_sound = meter_sound }

  instance abbrev pub power_comparable : Comparable (Power F)
  power_comparable = record { equal_values = power_equal; equal_sound = power_sound }

abbrev pub cw_equal : CwStatus → CwStatus → Bool
cw_equal a b =
    equal a.busy b.busy
    && (equal a.queued b.queued
        && (equal a.wpm b.wpm && equal a.est_remaining_ms b.est_remaining_ms))

pub cw_sound : (a b : CwStatus) → cw_equal a b ≡ true → a ≡ b
cw_sound a b h =
    let (u, h1) = both h in
    let (q, h2) = both h1 in
    let (w, e) = both h2 in
    λ i. record {
      busy = bool_sound a.busy b.busy u i;
      queued = int_sound a.queued b.queued q i;
      wpm = int_sound a.wpm b.wpm w i;
      est_remaining_ms = int_sound a.est_remaining_ms b.est_remaining_ms e i;
    }

instance abbrev pub cw_comparable : Comparable CwStatus
cw_comparable = record { equal_values = cw_equal; equal_sound = cw_sound }

abbrev pub vfo_equal : VfoState → VfoState → Bool
vfo_equal a b =
    equal a.frequency b.frequency
    && (equal a.mode b.mode
        && (equal a.data_mode b.data_mode
            && (equal a.passband_hz b.passband_hz && equal a.filter_slot b.filter_slot)))

pub vfo_sound : (a b : VfoState) → vfo_equal a b ≡ true → a ≡ b
vfo_sound a b h =
    let (f, h1) = both h in
    let (m, h2) = both h1 in
    let (d, h3) = both h2 in
    let (p, s) = both h3 in
    λ i. record {
      frequency = nat_comparable.equal_sound a.frequency b.frequency f i;
      mode = nat_comparable.equal_sound a.mode b.mode m i;
      data_mode = bool_sound a.data_mode b.data_mode d i;
      passband_hz = int_sound a.passband_hz b.passband_hz p i;
      filter_slot = int_sound a.filter_slot b.filter_slot s i;
    }

instance abbrev pub vfo_comparable : Comparable VfoState
vfo_comparable = record { equal_values = vfo_equal; equal_sound = vfo_sound }
