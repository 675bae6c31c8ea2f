-- ===== src/Ws/Stream/Reader.antt =====
-- A reader of the stream who keeps a radio's state the way api/openapi.yaml describes it, and frames
-- that tell the history of the radio. `history` gives the state of each number.
use mathlib.Core.Path.{subst}
use text.Mathlib.Text.{◌==◌ as str_eq}
use remoses.Prelude.{
  ℕ, ◌+◌, String, ◌≡◌, sym, ap, ◌∙◌, inl, inr, Option, none, some, List, [], ◌∷◌, eq_iff, leb,
  if◌then◌else◌, Bool-cases, if-elim, All,
}
use remoses.Prelude.Compare.{
  Comparable, nat_comparable, int_comparable, bool_comparable, string_comparable,
}
use remoses.Radio.{State}
use remoses.Radio.Change.{changed, empty, apply}
use remoses.Radio.Compared.{meter_comparable, power_comparable, cw_comparable, vfo_comparable}
use remoses.Radio.Follow.{Quiet, visible}
use remoses.Ws.{Event, Message, hello_msg, state_msg, delta_msg, cw_msg, conn_msg, resync_msg}
use remoses.Ws.Drain.{or_zero, state_message}
use remoses.Ws.Render.{changed_fields, apply_delta}
use remoses.Ws.Render.Merge.{KeepsUnits, apply_delta-changed_fields}
use remoses.Ws.Stream.Ordered.{some_inj, last_told, told}

module _ {ℓ} {F : Type ℓ} where
  -- A state replaces what a reader has, a delta is decoded onto it.
  unfoldable pub read_frame : String → Option (State F) → Message F → Option (State F)
  read_frame id r (state_msg radio seq ts st) = if str_eq radio id then some st else r
  read_frame id (some r) (delta_msg radio seq ts changed) =
      if str_eq radio id then some (apply_delta seq ts changed r) else some r
  read_frame id r _ = r

  abbrev pub read_frames : String → Option (State F) → List (Message F) → Option (State F)
  read_frames id r [] = r
  read_frames id r (f ∷ fs) = read_frames id (read_frame id r f) fs

  -- Each delta about the radio is the one behind the frame before it.
  unfoldable pub NextOne : String → ℕ → Message F → Type 0
  NextOne id low (delta_msg radio seq ts changed) = radio ≡ id → seq ≡ low + 1
  NextOne id low _ = Unit

  abbrev pub NoGap : String → ℕ → List (Message F) → Type 0
  NoGap id low [] = Unit
  NoGap id low (f ∷ fs) = NextOne id low f × NoGap id (last_told id low f) fs

module _ {ℓ} {F : Type ℓ} ⦃float : Comparable F⦄ (history : ℕ → State F) where
  -- A state is the one of its number, and a delta leads from the one before to the one of its number.
  unfoldable pub Tells : String → Message F → Type ℓ
  Tells id (state_msg radio seq ts st) = radio ≡ id → visible st ≡ visible (history seq)
  Tells id (delta_msg radio seq ts changed) =
      radio ≡ id
      → (n : ℕ) (r : State F) → seq ≡ n + 1
      → visible r ≡ visible (history n)
      → visible (apply_delta seq ts changed r) ≡ visible (history seq)
  Tells id _ = Unit

  -- What a reader has is the state of the number.
  abbrev pub Holds : ℕ → Option (State F) → Type ℓ
  Holds low none = Unit
  Holds low (some r) = visible r ≡ visible (history low)

  -- An event of the history, whose change keeps the readings in S-units that there are.
  abbrev pub Genuine : Event F → Type ℓ
  Genuine ev =
      (visible ev.state ≡ visible (history ev.seq))
      × ((n : ℕ)
          → ev.seq ≡ n + 1
          → (visible (apply (history n) ev.patch) ≡ visible (history ev.seq))
            × KeepsUnits ev.patch (history n))

  changed_fields-Tells :
      (ev : Event F) (n : ℕ) (r : State F)
      → Quiet (history n)
      → Genuine ev
      → ev.seq ≡ n + 1
      → visible r ≡ visible (history n)
      → visible (apply_delta ev.seq ev.at_time (changed_fields ev.patch ev.state) r)
        ≡ visible (history ev.seq)
  unfolding changed_fields apply_delta
  changed_fields-Tells ev n r quiet (at_state, leads) next same =
      let (reached, units) = leads n next in
      ap (λ st. visible (apply_delta ev.seq ev.at_time (changed_fields ev.patch st) r))
        (at_state ∙ sym reached)
      ∙ ap
          (λ u. visible (
            apply_delta ev.seq ev.at_time (changed_fields ev.patch (apply (history n) ev.patch)) u))
          same
      ∙ ap visible (apply_delta-changed_fields (history n) ev.patch ev.seq ev.at_time quiet units)
      ∙ reached

  pub state_message-Tells :
      (id : String) (ev : Event F) (last : Option ℕ) (msg : Message F)
      → ((n : ℕ) → Quiet (history n))
      → (ev.radio_id ≡ id → Genuine ev)
      → state_message ev last ≡ some msg
      → Tells id msg
  unfolding state_message Tells
  state_message-Tells id ev last msg quiet genuine =
      if-elim (λ (r : Option (Message F)). r ≡ some msg → Tells id msg) (leb ev.seq (or_zero last))
        _ _ (λ stale h. absurd (cc h))
        (λ fresh.
          if-elim (λ (r : Option (Message F)). r ≡ some msg → Tells id msg) (empty ev.patch) _ _
            (λ whole h. subst (Tells id) (some_inj h) (λ ours. (genuine ours).0))
            (λ part h. subst (Tells id) (some_inj h) (λ ours n r next same.
              changed_fields-Tells ev n r (quiet n) (genuine ours) next same)))

  read_frame-Holds :
      (id : String) (low : ℕ) (r : Option (State F)) (f : Message F)
      → Tells id f
      → NextOne id low f
      → Holds low r
      → Holds (last_told id low f) (read_frame id r f)
  unfolding Tells NextOne last_told read_frame
  read_frame-Holds id low r (state_msg radio seq ts st) tells next h =
      elim (Bool-cases (str_eq radio id)) [
        | inl ours ↦ rw ours (tells ((eq_iff radio id).0 ours))
        | inr other ↦ rw other h
      ]
  read_frame-Holds id low none (delta_msg radio seq ts changed) tells next h = tt
  read_frame-Holds id low (some r) (delta_msg radio seq ts changed) tells next h =
      elim (Bool-cases (str_eq radio id)) [
        | inl ours ↦ let same = (eq_iff radio id).0 ours in rw ours (tells same low r (next same) h)
        | inr other ↦ rw other h
      ]
  read_frame-Holds id low r (hello_msg version radios at) tells next h = h
  read_frame-Holds id low r (cw_msg radio seq ts busy queued wpm) tells next h = h
  read_frame-Holds id low r (conn_msg radio seq ts connected err) tells next h = h
  read_frame-Holds id low r (resync_msg radio seq ts) tells next h = h

  -- Frames that tell the history without a gap keep a reader at the state of the last number.
  pub read_frames-Holds :
      (id : String) (low : ℕ) (r : Option (State F)) (fs : List (Message F))
      → All (Tells id) fs
      → NoGap id low fs
      → Holds low r
      → Holds (told id low fs) (read_frames id r fs)
  read_frames-Holds id low r [] tells next h = h
  read_frames-Holds id low r (f ∷ fs) (one, tells) (next, more) h =
      read_frames-Holds id (last_told id low f) (read_frame id r f) fs tells more
        (read_frame-Holds id low r f one next h)
