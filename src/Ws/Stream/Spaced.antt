-- ===== src/Ws/Stream/Spaced.antt =====
-- The rate limit: how far apart the frames about one radio are.
use mathlib.Core.Path.{subst}
use mathlib.Core.List.{append-nil, append_assoc}
use text.Mathlib.Text.{◌==◌ as str_eq}
use remoses.Prelude.{
  ℕ, ◌+◌, ◌≤◌, String, ◌≡◌, refl, sym, ap, ◌∙◌, Option, none, some, List, [], ◌∷◌, ◌++◌, arith,
  if◌then◌else◌,
}
use remoses.Prelude.Compare.{nat_comparable, int_comparable, bool_comparable, string_comparable}
use remoses.Prelude.Maps.{lookup}
use remoses.Radio.Change.{changed}
use remoses.Radio.Compared.{meter_comparable, power_comparable, cw_comparable, vfo_comparable}
use remoses.Rig.Cache.{EventKind, event_state, event_cw, event_conn}
use remoses.Ws.{DiscreteEvent, Message, state_msg, delta_msg, resync_msg}
use remoses.Ws.Client.{Client}
use remoses.Ws.Drain.{Draining, held_until, event_messages}
use remoses.Ws.Render.{kind_message, event_message}
use remoses.Ws.Stream.{Batch}

-- A time that is over, or none.
abbrev pub Lapsed : ℕ → Option ℕ → Type 0
Lapsed now none = Unit
Lapsed now (some at) = at ≤ now

pub held_until-Lapsed : (now : ℕ) (o : Option ℕ) → held_until now o ≡ none → Lapsed now o
unfolding held_until
held_until-Lapsed now none h = tt
held_until-Lapsed now (some at) h = ground arith

-- From when on a delta and a resync of the radio may go out.
pub record Pace : Type 0 where
  pub due : Option ℕ
  pub resync_from : Option ℕ

module _ {ℓ} {F : Type ℓ} where
  -- A delta and a resync about the radio go out only when their time has come.
  unfoldable pub InTime : String → ℕ → Pace → Message F → Type 0
  InTime id now p (delta_msg radio seq ts changed) = radio ≡ id → Lapsed now p.due
  InTime id now p (resync_msg radio seq ts) = radio ≡ id → Lapsed now p.resync_from
  InTime id now p _ = Unit

  -- A state or a delta holds the deltas back for the interval, a resync the resyncs.
  unfoldable pub pace_after : String → ℕ → ℕ → Pace → Message F → Pace
  pace_after id interval now p (state_msg radio seq ts st) = record p {
    due = if str_eq radio id then some (now + interval) else p.due;
  }
  pace_after id interval now p (delta_msg radio seq ts changed) = record p {
    due = if str_eq radio id then some (now + interval) else p.due;
  }
  pace_after id interval now p (resync_msg radio seq ts) = record p {
    resync_from = if str_eq radio id then some (now + interval) else p.resync_from;
  }
  pace_after id interval now p _ = p

  abbrev pub Spaced : String → ℕ → ℕ → Pace → List (Message F) → Type 0
  Spaced id interval now p [] = Unit
  Spaced id interval now p (f ∷ fs) =
      InTime id now p f × Spaced id interval now (pace_after id interval now p f) fs

  abbrev pub paced : String → ℕ → ℕ → Pace → List (Message F) → Pace
  paced id interval now p [] = p
  paced id interval now p (f ∷ fs) = paced id interval now (pace_after id interval now p f) fs

  -- The same over the batches of a connection, each with its clock.
  abbrev pub SpacedRun : String → ℕ → Pace → List (Batch F) → Type 0
  SpacedRun id interval p [] = Unit
  SpacedRun id interval p (b ∷ bs) =
      Spaced id interval b.clock p b.frames
      × SpacedRun id interval (paced id interval b.clock p b.frames) bs

  Spaced-append :
      (id : String) (interval now : ℕ) (p : Pace) (fs gs : List (Message F))
      → Spaced id interval now p fs
      → Spaced id interval now (paced id interval now p fs) gs
      → Spaced id interval now p (fs ++ gs)
  Spaced-append id interval now p [] gs h k = k
  Spaced-append id interval now p (f ∷ fs) gs (one, h) k =
      (one, Spaced-append id interval now (pace_after id interval now p f) fs gs h k)

  paced-append :
      (id : String) (interval now : ℕ) (p : Pace) (fs gs : List (Message F))
      → paced id interval now p (fs ++ gs) ≡ paced id interval now (paced id interval now p fs) gs
  paced-append id interval now p [] gs = refl
  paced-append id interval now p (f ∷ fs) gs =
      paced-append id interval now (pace_after id interval now p f) fs gs

  -- What a client notes of a radio.
  abbrev pub pace_of : String → Client F → Pace
  pace_of id c = record { due = lookup id c.next_at; resync_from = lookup id c.next_resync }

  pub record Kept (id : String) (interval now : ℕ) (p : Pace) (d : Draining F) : Type ℓ where
    pub spaced_so_far : Spaced id interval now p d.out
    pub pace_noted : paced id interval now p d.out ≡ pace_of id d.client
    pub interval_same : d.client.min_interval ≡ interval

  -- A turn that writes nothing and leaves the notes.
  pub Kept-same :
      (id : String) (interval now : ℕ) (p : Pace) (d e : Draining F)
      → e.out ≡ d.out
      → pace_of id e.client ≡ pace_of id d.client
      → e.client.min_interval ≡ d.client.min_interval
      → Kept id interval now p d
      → Kept id interval now p e
  Kept-same id interval now p d e out pace same k = record {
    spaced_so_far = subst (Spaced id interval now p) (sym out) k.spaced_so_far;
    pace_noted = ap (paced id interval now p) out ∙ k.pace_noted ∙ sym pace;
    interval_same = same ∙ k.interval_same;
  }

  pub Kept-snoc :
      (id : String) (interval now : ℕ) (p : Pace) (d : Draining F) (f : Message F) (c : Client F)
      → Kept id interval now p d
      → InTime id now (pace_of id d.client) f
      → pace_after id interval now (pace_of id d.client) f ≡ pace_of id c
      → c.min_interval ≡ d.client.min_interval
      → Kept id interval now p (record d { out = d.out ++ f ∷ []; client = c })
  Kept-snoc id interval now p d f c k fits moves same = record {
    spaced_so_far =
        Spaced-append id interval now p d.out (f ∷ []) k.spaced_so_far
          (subst (λ x. InTime id now x f) (sym k.pace_noted) fits, tt);
    pace_noted =
        paced-append id interval now p d.out (f ∷ [])
        ∙ ap (λ x. pace_after id interval now x f) k.pace_noted
        ∙ moves;
    interval_same = same ∙ k.interval_same;
  }

  -- A frame that the rate limit does not concern.
  abbrev Free : String → Message F → Type 0
  Free id f =
      (interval now : ℕ) (p : Pace) → InTime id now p f × (pace_after id interval now p f ≡ p)

  kind_message-Free :
      (id : String) (kind : EventKind) (e : DiscreteEvent) (f : Message F)
      → f ≡ kind_message kind e
      → Free id f
  unfolding InTime pace_after kind_message
  kind_message-Free id event_cw e f h = subst (Free id) (sym h) (λ interval now p. (tt, refl))
  kind_message-Free id event_conn e f h = subst (Free id) (sym h) (λ interval now p. (tt, refl))
  kind_message-Free id event_state e f h = subst (Free id) (sym h) (λ interval now p. (tt, refl))

  pub event_messages-Kept :
      (id : String) (interval now : ℕ) (p : Pace) (es : List DiscreteEvent) (d : Draining F)
      → Kept id interval now p d
      → Kept id interval now p (record d { out = d.out ++ event_messages es })
  unfolding event_messages
  event_messages-Kept id interval now p [] d k =
      Kept-same id interval now p d _ (append-nil d.out) refl refl k
  event_messages-Kept id interval now p (e ∷ es) d k =
      let f = event_message e in
      let (fits, stays) = kind_message-Free id e.kind e f refl interval now (pace_of id d.client) in
      let one = Kept-snoc id interval now p d f d.client k fits stays refl in
      let more =
        event_messages-Kept id interval now p es (record d { out = d.out ++ f ∷ [] }) one in
      Kept-same id interval now p _ _ (sym (append_assoc d.out (f ∷ []) (event_messages es))) refl
        refl more
