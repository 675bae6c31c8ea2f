-- ===== src/Ws/Stream/Follows.antt =====
-- The frames of a connection tell the history of a radio.
use mathlib.Core.Path.{subst}
use text.Mathlib.Text.{◌==◌ as str_eq}
use remoses.Prelude.{
  ℕ, String, ◌≡◌, sym, ap, ◌∙◌, ◌⊎◌, inl, inr, false, Option, some, List, [], ◌∷◌, arith,
  Bool-cases, if-true, if-false, if-elim, All, All-append,
}
use remoses.Prelude.Compare.{Comparable}
use remoses.Prelude.Maps.{lookup, insert, lookup-insert}
use remoses.Prelude.Sets.{lookup-retain_keys}
use remoses.Radio.{State}
use remoses.Ws.{Event}
use remoses.Ws.Client.{
  stop, Client, push_discrete, push_by, keep_newest, note_dropped, enqueue, set_radios,
}
use remoses.Ws.Drain.{drain}
use remoses.Ws.Stream.{
  Happening, offered, resubscribed, wrote, stopped, happen, written_by, batches,
}
use remoses.Ws.Stream.Ordered.{some_inj, told}
use remoses.Ws.Stream.Reader.{read_frames, NoGap, Tells, Holds, Genuine, read_frames-Holds}
use remoses.Ws.Stream.Rising.{frames_of}
use remoses.Ws.Stream.Telling.{Telling, Current, QuietHistory, drain-Telling}

insert-from {ℓ} :
    {V : Type ℓ} (key other : String) (v found : V) (m : List (String × V))
    → lookup other (insert key v m) ≡ some found
    → (found ≡ v) ⊎ (lookup other m ≡ some found)
insert-from key other v found m h = elim (Bool-cases (str_eq key other)) [
  | inl same ↦
      inl (some_inj (sym h ∙ lookup-insert key other v m ∙ if-true (some v) (lookup other m) same))
  | inr differ ↦
      inr (sym (if-false (some v) (lookup other m) differ) ∙ sym (lookup-insert key other v m) ∙ h)
]

enqueue-pending {ℓ} :
    {F : Type ℓ} (ev : Event F) (c : Client F)
    → ((enqueue ev c).pending ≡ c.pending)
      ⊎ ((enqueue ev c).pending ≡ insert ev.radio_id ev c.pending)
unfolding enqueue keep_newest push_by push_discrete note_dropped
enqueue-pending ev c = ground arith

module _ {ℓ} {F : Type ℓ} ⦃float : Comparable F⦄ (history : ℕ → State F) (id : String) where
  -- What is offered and what the hub has at the turns is of the history.
  abbrev pub GenuineRun : List (Happening F) → Type ℓ
  GenuineRun [] = Unit
  GenuineRun (offered ev ∷ hs) = (ev.radio_id ≡ id → Genuine history ev) × GenuineRun hs
  GenuineRun (wrote now states ∷ hs) = Current history id states × GenuineRun hs
  GenuineRun (resubscribed resolved ∷ hs) = GenuineRun hs
  GenuineRun (stopped ∷ hs) = GenuineRun hs

  enqueue-waits :
      (ev : Event F) (c : Client F) (key : String) (found : Event F)
      → lookup key (enqueue ev c).pending ≡ some found
      → (found ≡ ev) ⊎ (lookup key c.pending ≡ some found)
  enqueue-waits ev c key found h = elim (enqueue-pending ev c) [
    | inl same ↦ inr (ap (lookup key) (sym same) ∙ h)
    | inr new ↦ insert-from ev.radio_id key ev found c.pending (ap (lookup key) (sym new) ∙ h)
  ]

  enqueue-Telling :
      (ev : Event F) (c : Client F)
      → (ev.radio_id ≡ id → Genuine history ev)
      → Telling history id [] c
      → Telling history id [] (enqueue ev c)
  enqueue-Telling ev c genuine (told, waits) = (
    tt,
    λ key found h ours. elim (enqueue-waits ev c key found h) [
      | inl new ↦
          subst (Genuine history) (sym new)
            (genuine (ap (λ (e : Event F). e.radio_id) (sym new) ∙ ours))
      | inr old ↦ waits key found old ours
    ],
  )

  set_radios-Telling :
      (resolved : List String) (c : Client F)
      → Telling history id [] c
      → Telling history id [] (set_radios resolved c)
  unfolding set_radios
  set_radios-Telling resolved c (told, waits) =
      if-elim (Telling history id []) c.closed _ _ (λ closed. (told, waits))
        (λ alive. (
          tt,
          λ key ev h. waits key ev (ground (arith, lookup-retain_keys key resolved c.pending)),
        ))

  run-Tells :
      (hs : List (Happening F)) (c : Client F)
      → QuietHistory history id
      → GenuineRun hs
      → Telling history id [] c
      → All (Tells history id) (frames_of (batches hs c))
  unfolding batches happen written_by stop
  run-Tells [] c quiet genuine t = tt
  run-Tells (offered ev ∷ hs) c quiet (one, genuine) t =
      run-Tells hs (enqueue ev c) quiet genuine (enqueue-Telling ev c one t)
  run-Tells (resubscribed resolved ∷ hs) c quiet genuine t =
      run-Tells hs (set_radios resolved c) quiet genuine (set_radios-Telling resolved c t)
  run-Tells (wrote now states ∷ hs) c quiet (current, genuine) t =
      let asleep = record c { woken = false } in
      let after = drain now states asleep in
      let (told, waits) = drain-Telling history id now states asleep quiet current t in
      All-append (Tells history id) after.out _ told
        (run-Tells hs after.client quiet genuine (tt, waits))
  run-Tells (stopped ∷ hs) c quiet genuine t = run-Tells hs (stop c) quiet genuine t

  -- Over any course of offered events, subscribe messages and turns of the writer, a reader that
  -- replaces its state by a state frame and decodes a delta onto it has, whenever it has a state, the
  -- state that the radio had at the number of the last frame, but for the transmit audio settings, if
  -- every delta has the number behind that of the frame before it, the events and the states of the hub
  -- are those of one history without transmit meters while not transmitting, no change takes the reading
  -- in S-units from a signal meter that had one, and what the client and the reader start with is of
  -- that history too.
  pub run-Holds :
      (hs : List (Happening F)) (c : Client F) (low : ℕ) (r : Option (State F))
      → QuietHistory history id
      → GenuineRun hs
      → Telling history id [] c
      → Holds history low r
      → NoGap id low (frames_of (batches hs c))
      → Holds history
          (told id low (frames_of (batches hs c)))
          (read_frames id r (frames_of (batches hs c)))
  run-Holds hs c low r quiet genuine t holds next =
      read_frames-Holds history id low r (frames_of (batches hs c)) (run-Tells hs c quiet genuine t)
        next holds
