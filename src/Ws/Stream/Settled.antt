-- ===== src/Ws/Stream/Settled.antt =====
-- Offering an event puts it into the lane or marks the radio for a resync.
use mathlib.Core.List.{append-nil}
use text.Mathlib.Text.{◌==◌ as str_eq}
use remoses.Prelude.{
  String, ◌≡◌, refl, sym, ap, ◌∙◌, ◌⊎◌, inl, inr, Bool, true, false, ◌&&◌, List, [], ◌∷◌, ◌++◌,
  arith, eq_iff, leb, Bool-cases, if-elim, length,
}
use remoses.Prelude.Sets.{has, add_all, has-add_all, has-retain}
use remoses.Rig.Cache.{EventKind, event_state, event_cw, event_conn}
use remoses.Ws.{Event, DiscreteEvent, Message}
use remoses.Ws.Client.{
  Client, push_discrete, cw_event, conn_event, push_by, keep_newest, note_dropped, enqueue,
  set_radios,
}
use remoses.Ws.Drain.{event_messages}
use remoses.Ws.Render.{kind_message, event_message}
use remoses.Ws.Stream.{Happening, offered, resubscribed, wrote, stopped}
use remoses.Ws.Stream.Account.{told_event, told_events, told_events-append}

pub foreign-differs :
    (id radio : String) (subs : List String)
    → has id subs ≡ true
    → has radio subs ≡ false
    → str_eq radio id ≡ false
foreign-differs id radio subs ours foreign = elim (Bool-cases (str_eq radio id)) [
  | inl same ↦ absurd (cc (ours, foreign, ap (λ x. has x subs) ((eq_iff radio id).0 same)))
  | inr differ ↦ differ
]

module _ {ℓ} {F : Type ℓ} where
  -- The discrete frame that an event of the radio should become.
  unfoldable pub due_of : String → EventKind → Event F → List (Message F)
  due_of id event_cw ev = told_event id (event_message (cw_event ev))
  due_of id event_conn ev = told_event id (event_message (conn_event ev))
  due_of id event_state ev = []

  -- The discrete frames about the radio that a course of happenings should produce.
  unfoldable pub due_frames : String → List (Happening F) → List (Message F)
  due_frames id [] = []
  due_frames id (offered ev ∷ hs) = due_of id ev.kind ev ++ due_frames id hs
  due_frames id (resubscribed resolved ∷ hs) = due_frames id hs
  due_frames id (wrote now states ∷ hs) = due_frames id hs
  due_frames id (stopped ∷ hs) = due_frames id hs

  -- Every subscribe message keeps the radio, and the connection stays open.
  unfoldable pub stays : String → List (Happening F) → Bool
  stays id [] = true
  stays id (resubscribed resolved ∷ hs) = has id resolved && stays id hs
  stays id (stopped ∷ hs) = false
  stays id (offered ev ∷ hs) = stays id hs
  stays id (wrote now states ∷ hs) = stays id hs

  abbrev pub lane_of : String → Client F → List (Message F)
  lane_of id c = told_events id (event_messages c.discrete)

  -- The radio is subscribed and the connection open.
  abbrev pub Open : String → Client F → Type 0
  Open id c = (has id c.subs ≡ true) × (c.closed ≡ false)

  -- A client keeps its subscription, and its marks but for what a subscribe message drops.
  pub enqueue-Open :
      (id : String) (ev : Event F) (c : Client F) → Open id c → Open id (enqueue ev c)
  unfolding enqueue keep_newest push_by push_discrete note_dropped
  enqueue-Open id ev c o = ground arith

  pub set_radios-Open :
      (id : String) (resolved : List String) (c : Client F)
      → has id resolved ≡ true
      → Open id c
      → Open id (set_radios resolved c)
  unfolding set_radios
  set_radios-Open id resolved c keeps o = ground arith

  pub enqueue-marked :
      (id : String) (ev : Event F) (c : Client F)
      → has id c.resync ≡ true
      → has id (enqueue ev c).resync ≡ true
  unfolding enqueue keep_newest push_by push_discrete note_dropped
  enqueue-marked id ev c marked =
      ground
        (arith, has-add_all id c.subs c.resync, has-add_all id c.subs (add_all c.subs c.resync))

  pub set_radios-marked :
      (id : String) (resolved : List String) (c : Client F)
      → has id resolved ≡ true
      → has id c.resync ≡ true
      → has id (set_radios resolved c).resync ≡ true
  unfolding set_radios
  set_radios-marked id resolved c keeps marked = ground (arith, has-retain id resolved c.resync)

  abbrev pub told_of : List DiscreteEvent → List (Message F)
  told_of ds = event_messages ds

  event_messages-append :
      (ds es : List DiscreteEvent) → told_of (ds ++ es) ≡ told_of ds ++ told_of es
  unfolding event_messages
  event_messages-append [] es = refl
  event_messages-append (d ∷ ds) es = ap (λ fs. event_message d ∷ fs) (event_messages-append ds es)

  lane-append :
      (id : String) (ds : List DiscreteEvent) (e : DiscreteEvent) (f : Message F)
      → event_message e ≡ f
      → told_events id (event_messages (ds ++ e ∷ []))
        ≡ told_events id (event_messages ds) ++ told_event id f
  unfolding event_messages
  lane-append id ds e f same =
      ap (told_events id) (event_messages-append ds (e ∷ []))
      ∙ told_events-append id (event_messages ds) (event_message e ∷ [])
      ∙ ap (λ es. told_events id (event_messages ds) ++ es)
          (append-nil (told_event id (event_message e)) ∙ ap (told_event id) same)

  -- A client has a discrete event in its lane behind the others, or has marked the radio.
  abbrev pub Settled : String → Client F → List (Message F) → Client F → Type ℓ
  Settled id c due after = (lane_of id after ≡ lane_of id c ++ due) ⊎ (has id after.resync ≡ true)

  push_discrete-Settled :
      (id : String) (d : DiscreteEvent) (f : Message F) (c : Client F)
      → has id c.subs ≡ true
      → event_message d ≡ f
      → Settled id c (told_event id f) (push_discrete d c)
  unfolding push_discrete
  push_discrete-Settled id d f c subscribed same =
      if-elim (Settled id c (told_event id f)) (leb c.queue_cap (length c.discrete)) _ _
        (λ full. inr (ground (arith, has-add_all id c.subs c.resync)))
        (λ room. inl (lane-append id c.discrete d f same))

  push_by-Settled :
      (id : String) (kind : EventKind) (ev : Event F) (c : Client F)
      → has id c.subs ≡ true
      → Settled id c (due_of id kind ev) (push_by kind ev c)
  unfolding push_by due_of
  push_by-Settled id event_cw ev c subscribed =
      push_discrete-Settled id (cw_event ev) _ c subscribed refl
  push_by-Settled id event_conn ev c subscribed =
      push_discrete-Settled id (conn_event ev) _ c subscribed refl
  push_by-Settled id event_state ev c subscribed = inl (sym (append-nil _))

  due_of-foreign :
      (id : String) (kind : EventKind) (ev : Event F)
      → str_eq ev.radio_id id ≡ false
      → due_of id kind ev ≡ []
  unfolding due_of told_event kind_message
  due_of-foreign id event_cw ev foreign = rw foreign refl
  due_of-foreign id event_conn ev foreign = rw foreign refl
  due_of-foreign id event_state ev foreign = refl

  note_dropped-same :
      (ev : Event F) (c : Client F)
      → ((note_dropped ev c).subs ≡ c.subs) × ((note_dropped ev c).discrete ≡ c.discrete)
  unfolding note_dropped
  note_dropped-same ev c = ground arith

  pub enqueue-Settled :
      (id : String) (ev : Event F) (c : Client F)
      → Open id c
      → Settled id c (due_of id ev.kind ev) (enqueue ev c)
  unfolding enqueue keep_newest
  enqueue-Settled id ev c (subscribed, alive) =
      let noted = note_dropped ev c in
      let (subs, same) = note_dropped-same ev c in
      let lane = ap (λ ds. told_events id (event_messages ds)) same in
      if-elim (Settled id c (due_of id ev.kind ev)) c.closed _ _
        (λ closed. absurd (cc (closed, alive)))
        (λ still.
          if-elim (Settled id c (due_of id ev.kind ev)) (has ev.radio_id noted.subs) _ _
            (λ ours. elim (push_by-Settled id ev.kind ev noted (ap (has id) subs ∙ subscribed)) [
              | inl laned ↦ inl (laned ∙ ap (λ fs. fs ++ due_of id ev.kind ev) lane)
              | inr marked ↦ inr marked
            ])
            (λ foreign. inl (
              lane
              ∙ sym (append-nil (lane_of id c))
              ∙ ap (λ fs. lane_of id c ++ fs)
                  (sym (
                    due_of-foreign id ev.kind ev (
                      foreign-differs id ev.radio_id noted.subs (ap (has id) subs ∙ subscribed)
                        foreign))))))
