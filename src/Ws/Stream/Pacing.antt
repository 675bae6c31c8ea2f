-- ===== src/Ws/Stream/Pacing.antt =====
-- Every turn of a connection keeps the rate limit.
use mathlib.Core.Path.{subst}
use text.Mathlib.Text.{◌==◌ as str_eq}
use remoses.Prelude.{
  ℕ, ◌+◌, String, ◌≡◌, refl, sym, ap, ◌∙◌, Option, none, some, List, arith, leb, if◌then◌else◌,
  if-elim,
}
use remoses.Prelude.Maps.{lookup, insert, lookup-insert}
use remoses.Prelude.Sets.{has}
use remoses.Radio.{State}
use remoses.Radio.Change.{empty}
use remoses.Ws.{Event, Message}
use remoses.Ws.Drain.{
  Draining, held_until, or_zero, write_resync, resync_due, resync_turn, write_snapshot,
  snapshot_sent, snapshot_from, snapshot_turn, state_message, write_event, take_pending,
  send_message, pending_due, pending_event,
}
use remoses.Ws.Stream.Ordered.{some_inj}
use remoses.Ws.Stream.Spaced.{
  Lapsed, held_until-Lapsed, Pace, InTime, pace_after, pace_of, Kept-same, Kept-snoc, Kept,
}

inserted_due :
    (key id : String) (at same : ℕ) (m : List (String × ℕ))
    → at ≡ same
    → (if str_eq key id then some at else lookup id m) ≡ lookup id (insert key same m)
inserted_due key id at same m e = ground (arith, lookup-insert key id same m)

module _ {ℓ} {F : Type ℓ} where
  resync_due-Kept :
      (id : String) (interval now : ℕ) (p : Pace) (key : String) (held : Option ℕ) (d : Draining F)
      → held_until now (lookup key d.client.next_resync) ≡ held
      → Kept id interval now p d
      → Kept id interval now p (resync_due now key held d)
  unfolding resync_due write_resync InTime pace_after
  resync_due-Kept id interval now p key (some at) d e k =
      Kept-same id interval now p d _ refl refl refl k
  resync_due-Kept id interval now p key none d e k =
      Kept-snoc id interval now p d _ _ k
        (λ same.
          subst (λ x. Lapsed now (lookup x d.client.next_resync)) same (held_until-Lapsed now _ e))
        (λ i. record {
          due = lookup id d.client.next_at;
          resync_from =
              inserted_due key id (now + interval) (now + d.client.min_interval)
                d.client.next_resync (ap (λ n. now + n) (sym k.interval_same)) i;
        })
        refl

  pub resync_turn-Kept :
      (id : String) (interval now : ℕ) (p : Pace) (key : String) (d : Draining F)
      → Kept id interval now p d
      → Kept id interval now p (resync_turn now key d)
  unfolding resync_turn
  resync_turn-Kept id interval now p key d k =
      if-elim (Kept id interval now p) (has key d.client.resync) _ _
        (λ marked. resync_due-Kept id interval now p key _ d refl k) (λ unmarked. k)

  snapshot_from-Kept :
      (id : String) (interval now : ℕ) (p : Pace) (key : String) (found : Option (State F))
      (d : Draining F)
      → Kept id interval now p d
      → Kept id interval now p (snapshot_from now key found d)
  unfolding snapshot_from write_snapshot InTime pace_after
  snapshot_from-Kept id interval now p key none d k = k
  snapshot_from-Kept id interval now p key (some st) d k =
      Kept-snoc id interval now p d _ _ k tt
        (λ i. record {
          due =
              inserted_due key id (now + interval) (now + d.client.min_interval) d.client.next_at
                (ap (λ n. now + n) (sym k.interval_same)) i;
          resync_from = lookup id d.client.next_resync;
        })
        refl

  pub snapshot_turn-Kept :
      (id : String) (interval now : ℕ) (p : Pace) (states : String → Option (State F))
      (key : String) (d : Draining F)
      → Kept id interval now p d
      → Kept id interval now p (snapshot_turn now states key d)
  unfolding snapshot_turn
  snapshot_turn-Kept id interval now p states key d k =
      if-elim (Kept id interval now p) (has key d.client.snapshot) _ _
        (λ owed.
          snapshot_from-Kept id interval now p key (states key) (snapshot_sent key d)
            (Kept-same id interval now p d _ refl refl refl k))
        (λ done. k)

  -- A frame about an event that is due.
  abbrev OnTime : String → ℕ → ℕ → Pace → Event F → Message F → Type 0
  OnTime id interval now p ev f =
      InTime id now p f
      × (pace_after id interval now p f
          ≡ record p { due = if str_eq ev.radio_id id then some (now + interval) else p.due })

  state_message-OnTime :
      (id : String) (interval now : ℕ) (p : Pace) (ev : Event F) (last : Option ℕ) (msg : Message F)
      → (ev.radio_id ≡ id → Lapsed now p.due)
      → state_message ev last ≡ some msg
      → OnTime id interval now p ev msg
  unfolding state_message InTime pace_after
  state_message-OnTime id interval now p ev last msg lapsed =
      if-elim (λ (r : Option (Message F)). r ≡ some msg → OnTime id interval now p ev msg)
        (leb ev.seq (or_zero last)) _ _ (λ stale h. absurd (cc h))
        (λ fresh.
          if-elim (λ (r : Option (Message F)). r ≡ some msg → OnTime id interval now p ev msg)
            (empty ev.patch) _ _
            (λ whole h. subst (OnTime id interval now p ev) (some_inj h) (tt, refl))
            (λ part h. subst (OnTime id interval now p ev) (some_inj h) (lapsed, refl)))

  send_message-Kept :
      (id : String) (interval now : ℕ) (p : Pace) (key : String) (ev : Event F) (last : Option ℕ)
      (msg : Option (Message F)) (d : Draining F)
      → state_message ev last ≡ msg
      → ev.radio_id ≡ key
      → Lapsed now (lookup key d.client.next_at)
      → Kept id interval now p d
      → Kept id interval now p (send_message now key ev msg d)
  unfolding send_message write_event
  send_message-Kept id interval now p key ev last none d e own lapsed k = k
  send_message-Kept id interval now p key ev last (some msg) d e own lapsed k =
      let (fits, moves) =
        state_message-OnTime id interval now (pace_of id d.client) ev last msg
          (λ ours. subst (λ x. Lapsed now (lookup x d.client.next_at)) (sym own ∙ ours) lapsed) e in
      Kept-snoc id interval now p d msg _ k fits
        (moves ∙ (λ i. record {
          due =
              (ap (λ x. if str_eq x id then some (now + interval) else lookup id d.client.next_at)
                    own
                  ∙ inserted_due key id (now + interval) (now + d.client.min_interval)
                      d.client.next_at (ap (λ n. now + n) (sym k.interval_same)))
                i;
          resync_from = lookup id d.client.next_resync;
        }))
        refl

  pending_due-Kept :
      (id : String) (interval now : ℕ) (p : Pace) (key : String) (ev : Event F) (held : Option ℕ)
      (d : Draining F)
      → held_until now (lookup key d.client.next_at) ≡ held
      → ev.radio_id ≡ key
      → Kept id interval now p d
      → Kept id interval now p (pending_due now key ev held d)
  unfolding pending_due
  pending_due-Kept id interval now p key ev (some at) d e own k =
      Kept-same id interval now p d _ refl refl refl k
  pending_due-Kept id interval now p key ev none d e own k =
      send_message-Kept id interval now p key ev _ _ (take_pending key d) refl own
        (held_until-Lapsed now _ e) (Kept-same id interval now p d _ refl refl refl k)

  pub pending_event-Kept :
      (id : String) (interval now : ℕ) (p : Pace) (key : String) (found : Option (Event F))
      (d : Draining F)
      → ((ev : Event F) → found ≡ some ev → ev.radio_id ≡ key)
      → Kept id interval now p d
      → Kept id interval now p (pending_event now key found d)
  unfolding pending_event
  pending_event-Kept id interval now p key none d own k = k
  pending_event-Kept id interval now p key (some ev) d own k =
      pending_due-Kept id interval now p key ev _ d refl (own ev refl) k
