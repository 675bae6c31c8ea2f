-- ===== src/Ws/Stream/Account.antt =====
-- What a turn does with the discrete events about a radio, and with the mark that some are lost.
use mathlib.Core.List.{append-nil, append_assoc}
use text.Mathlib.Text.{◌==◌ as str_eq}
use remoses.Prelude.{
  ℕ, String, ◌≡◌, refl, sym, ap, ◌∙◌, Bool, true, false, ◌||◌, Option, none, some, List, [], ◌∷◌,
  ◌++◌, arith, leb, if-elim,
}
use remoses.Prelude.Sets.{has, has-remove}
use remoses.Radio.{State}
use remoses.Radio.Change.{empty}
use remoses.Rig.Events.Accounts.{after}
use remoses.Ws.{Event, DiscreteEvent, Message, cw_msg, conn_msg, resync_msg}
use remoses.Ws.Client.{Client}
use remoses.Ws.Drain.{
  Draining, or_zero, write_resync, resync_due, resync_turn, write_snapshot, snapshot_sent,
  snapshot_from, snapshot_turn, state_message, write_event, take_pending, send_message, pending_due,
  pending_event, pending_turn,
}
use remoses.Ws.Stream.Ordered.{some_inj, told}

-- The list of one element if a test passes.
abbrev pub only_if {ℓ} : {A : Type ℓ} → Bool → A → List A
only_if true x = x ∷ []
only_if false x = []

module _ {ℓ} {F : Type ℓ} where
  -- A frame, if it is a discrete event about the radio.
  unfoldable pub told_event : String → Message F → List (Message F)
  told_event id (cw_msg radio seq ts busy queued wpm) =
      only_if (str_eq radio id) (cw_msg radio seq ts busy queued wpm)
  told_event id (conn_msg radio seq ts connected err) =
      only_if (str_eq radio id) (conn_msg radio seq ts connected err)
  told_event id _ = []

  -- Whether a frame is a resync about the radio.
  unfoldable pub tells_resync : String → Message F → Bool
  tells_resync id (resync_msg radio seq ts) = str_eq radio id
  tells_resync id _ = false

  abbrev pub told_events : String → List (Message F) → List (Message F)
  told_events id [] = []
  told_events id (f ∷ fs) = told_event id f ++ told_events id fs

  abbrev pub told_resync : String → List (Message F) → Bool
  told_resync id [] = false
  told_resync id (f ∷ fs) = tells_resync id f || told_resync id fs

  pub told_events-append :
      (id : String) (fs gs : List (Message F))
      → told_events id (fs ++ gs) ≡ told_events id fs ++ told_events id gs
  told_events-append id [] gs = refl
  told_events-append id (f ∷ fs) gs =
      ap (λ es. told_event id f ++ es) (told_events-append id fs gs)
      ∙ sym (append_assoc (told_event id f) (told_events id fs) (told_events id gs))

  pub told_resync-append :
      (id : String) (fs gs : List (Message F))
      → told_resync id (fs ++ gs) ≡ (told_resync id fs || told_resync id gs)
  told_resync-append id [] gs = refl
  told_resync-append id (f ∷ fs) gs = ground (arith, told_resync-append id fs gs)

  -- What a turn keeps: the discrete events `told` so far, those in the lane, the mark of the radio until
  -- it is told, and the subscription.
  pub record Accounted (id : String) (c : Client F) (told : List (Message F))
      (lane : List DiscreteEvent) (d : Draining F) : Type ℓ where
    pub events_told : told_events id d.out ≡ told
    pub lane_left : d.client.discrete ≡ lane
    pub mark_kept : has id c.resync ≡ true → (told_resync id d.out || has id d.client.resync) ≡ true
    pub subs_same : d.client.subs ≡ c.subs
    pub closed_same : d.client.closed ≡ c.closed

  -- A step that touches none of it.
  pub Accounted-same :
      (id : String) (c : Client F) (told : List (Message F)) (lane : List DiscreteEvent)
      (d e : Draining F)
      → e.out ≡ d.out
      → e.client.discrete ≡ d.client.discrete
      → e.client.resync ≡ d.client.resync
      → e.client.subs ≡ d.client.subs
      → e.client.closed ≡ d.client.closed
      → Accounted id c told lane d
      → Accounted id c told lane e
  Accounted-same id c told lane d e out same_lane marks subs closed a = record {
    events_told = ap (told_events id) out ∙ a.events_told;
    lane_left = same_lane ∙ a.lane_left;
    mark_kept = λ marked.
        ap (λ fs. told_resync id fs || has id e.client.resync) out
        ∙ ap (λ m. told_resync id d.out || has id m) marks
        ∙ a.mark_kept marked;
    subs_same = subs ∙ a.subs_same;
    closed_same = closed ∙ a.closed_same;
  }

  -- A frame more that is no discrete event.
  Accounted-snoc :
      (id : String) (c : Client F) (told : List (Message F)) (lane : List DiscreteEvent)
      (d : Draining F) (f : Message F) (after : Client F)
      → told_event id f ≡ []
      → after.discrete ≡ d.client.discrete
      → after.subs ≡ d.client.subs
      → after.closed ≡ d.client.closed
      → (has id d.client.resync ≡ true → (tells_resync id f || has id after.resync) ≡ true)
      → Accounted id c told lane d
      → Accounted id c told lane (record d { out = d.out ++ f ∷ []; client = after })
  Accounted-snoc id c told lane d f after silent same_lane subs closed mark a = record {
    events_told =
        told_events-append id d.out (f ∷ [])
        ∙ ap (λ es. told_events id d.out ++ (es ++ [])) silent
        ∙ append-nil (told_events id d.out)
        ∙ a.events_told;
    lane_left = same_lane ∙ a.lane_left;
    mark_kept =
        λ marked. ground (arith, told_resync-append id d.out (f ∷ []), a.mark_kept marked, mark);
    subs_same = subs ∙ a.subs_same;
    closed_same = closed ∙ a.closed_same;
  }

  resync_due-Accounted :
      (id : String) (c : Client F) (told : List (Message F)) (lane : List DiscreteEvent) (now : ℕ)
      (key : String) (held : Option ℕ) (d : Draining F)
      → Accounted id c told lane d
      → Accounted id c told lane (resync_due now key held d)
  unfolding resync_due write_resync told_event tells_resync
  resync_due-Accounted id c told lane now key (some at) d a =
      Accounted-same id c told lane d _ refl refl refl refl refl a
  resync_due-Accounted id c told lane now key none d a =
      Accounted-snoc id c told lane d _ _ refl refl refl refl
        (λ marked. ground (arith, has-remove key id d.client.resync)) a

  pub resync_turn-Accounted :
      (id : String) (c : Client F) (told : List (Message F)) (lane : List DiscreteEvent) (now : ℕ)
      (key : String) (d : Draining F)
      → Accounted id c told lane d
      → Accounted id c told lane (resync_turn now key d)
  unfolding resync_turn
  resync_turn-Accounted id c told lane now key d a =
      if-elim (Accounted id c told lane) (has key d.client.resync) _ _
        (λ marked. resync_due-Accounted id c told lane now key _ d a) (λ unmarked. a)

  snapshot_from-Accounted :
      (id : String) (c : Client F) (told : List (Message F)) (lane : List DiscreteEvent) (now : ℕ)
      (key : String) (found : Option (State F)) (d : Draining F)
      → Accounted id c told lane d
      → Accounted id c told lane (snapshot_from now key found d)
  unfolding snapshot_from write_snapshot told_event tells_resync
  snapshot_from-Accounted id c told lane now key none d a = a
  snapshot_from-Accounted id c told lane now key (some st) d a =
      Accounted-snoc id c told lane d _ _ refl refl refl refl (λ marked. marked) a

  pub snapshot_turn-Accounted :
      (id : String) (c : Client F) (told : List (Message F)) (lane : List DiscreteEvent) (now : ℕ)
      (states : String → Option (State F)) (key : String) (d : Draining F)
      → Accounted id c told lane d
      → Accounted id c told lane (snapshot_turn now states key d)
  unfolding snapshot_turn
  snapshot_turn-Accounted id c told lane now states key d a =
      if-elim (Accounted id c told lane) (has key d.client.snapshot) _ _
        (λ owed.
          snapshot_from-Accounted id c told lane now key (states key) (snapshot_sent key d)
            (Accounted-same id c told lane d _ refl refl refl refl refl a))
        (λ done. a)

  -- A frame about the state is no discrete event, nor a resync.
  state_message-quiet :
      (id : String) (ev : Event F) (last : Option ℕ) (msg : Message F)
      → state_message ev last ≡ some msg
      → told_event id msg ≡ []
  unfolding state_message told_event
  state_message-quiet id ev last msg =
      if-elim (λ (r : Option (Message F)). r ≡ some msg → told_event id msg ≡ [])
        (leb ev.seq (or_zero last)) _ _ (λ stale h. absurd (cc h))
        (λ fresh.
          if-elim (λ (r : Option (Message F)). r ≡ some msg → told_event id msg ≡ [])
            (empty ev.patch) _ _ (λ whole h. ap (told_event id) (sym (some_inj h)))
            (λ part h. ap (told_event id) (sym (some_inj h))))

  send_message-Accounted :
      (id : String) (c : Client F) (told : List (Message F)) (lane : List DiscreteEvent) (now : ℕ)
      (key : String) (ev : Event F) (last : Option ℕ) (msg : Option (Message F)) (d : Draining F)
      → state_message ev last ≡ msg
      → Accounted id c told lane d
      → Accounted id c told lane (send_message now key ev msg d)
  unfolding send_message write_event
  send_message-Accounted id c told lane now key ev last none d e a = a
  send_message-Accounted id c told lane now key ev last (some msg) d e a =
      Accounted-snoc id c told lane d msg _ (state_message-quiet id ev last msg e) refl refl refl
        (λ marked. ground arith) a

  pending_due-Accounted :
      (id : String) (c : Client F) (told : List (Message F)) (lane : List DiscreteEvent) (now : ℕ)
      (key : String) (ev : Event F) (held : Option ℕ) (d : Draining F)
      → Accounted id c told lane d
      → Accounted id c told lane (pending_due now key ev held d)
  unfolding pending_due
  pending_due-Accounted id c told lane now key ev (some at) d a =
      Accounted-same id c told lane d _ refl refl refl refl refl a
  pending_due-Accounted id c told lane now key ev none d a =
      send_message-Accounted id c told lane now key ev _ _ (take_pending key d) refl
        (Accounted-same id c told lane d _ refl refl refl refl refl a)

  pending_event-Accounted :
      (id : String) (c : Client F) (told : List (Message F)) (lane : List DiscreteEvent) (now : ℕ)
      (key : String) (found : Option (Event F)) (d : Draining F)
      → Accounted id c told lane d
      → Accounted id c told lane (pending_event now key found d)
  unfolding pending_event
  pending_event-Accounted id c told lane now key none d a = a
  pending_event-Accounted id c told lane now key (some ev) d a =
      pending_due-Accounted id c told lane now key ev _ d a

  pub pending_turn-Accounted :
      (id : String) (c : Client F) (told : List (Message F)) (lane : List DiscreteEvent) (now : ℕ)
      (key : String) (d : Draining F)
      → Accounted id c told lane d
      → Accounted id c told lane (pending_turn now key d)
  unfolding pending_turn
  pending_turn-Accounted id c told lane now key d a =
      pending_event-Accounted id c told lane now key _ d a
