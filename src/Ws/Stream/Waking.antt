-- ===== src/Ws/Stream/Waking.antt =====
-- What a turn leaves: the event lane and the snapshots are out, and the rest has its time.
use mathlib.Core.Path.{subst}
use text.Mathlib.Text.{◌==◌ as str_eq}
use remoses.Prelude.{
  ℕ, ◌+◌, String, ◌≡◌, refl, sym, ap, ◌∙◌, inl, inr, true, false, Option, none, some, List, [], ◌∷◌,
  ◌++◌, arith, eq_iff, Bool-cases, if-false, if-elim,
}
use remoses.Prelude.Maps.{lookup, lookup-insert}
use remoses.Prelude.Sets.{Distinct, has, has-append, has-remove}
use remoses.Radio.{State}
use remoses.Rig.Patch.Check.{is_nil}
use remoses.Ws.{Event, Message}
use remoses.Ws.Client.Bounds.{Sound}
use remoses.Ws.Drain.{
  Draining, held_until, flush_discrete, write_snapshot, snapshot_sent, snapshot_from, snapshot_turn,
  write_event, take_pending, send_message, pending_due, pending_event, pending_turn, each,
  drain_snapshots,
}
use remoses.Ws.Drain.Bounds.{each-keeps, Waiting, pending_event-Waiting}
use remoses.Ws.Stream.Timed.{
  Timed, sooner_self, sooner_other, held_until-some, later-has, unmarked, ResyncTimed,
}

kept-differs :
    (key id : String) (s : List String)
    → has id s ≡ true
    → has key s ≡ false
    → str_eq key id ≡ false
kept-differs key id s there absent = elim (Bool-cases (str_eq key id)) [
  | inl same ↦ absurd (cc (there, absent, ap (λ x. has x s) ((eq_iff key id).0 same)))
  | inr other ↦ other
]

Distinct-fresh :
    (xs : List String) (id : String) (ys : List String)
    → Distinct (xs ++ id ∷ ys)
    → has id xs ≡ false
unfolding has
Distinct-fresh [] id ys d = refl
Distinct-fresh (x ∷ xs) id ys (fresh, d) =
    ground (arith, Distinct-fresh xs id ys d, has-append x xs (id ∷ ys), eq_iff x id, eq_iff id x)

module _ {ℓ} {F : Type ℓ} where
  -- Every snapshot is of a radio that is still to come in the loop.
  abbrev pub SnapshotsOwed : List String → Draining F → Type 0
  SnapshotsOwed rest d = (id : String) → has id d.client.snapshot ≡ true → has id rest ≡ true

  -- The event lane is written out, no snapshot is owed, and every mark has its time.
  pub record Ready (d : Draining F) : Type 0 where
    pub lane_out : d.client.discrete ≡ []
    pub marks_timed : ResyncTimed [] d

  snapshot_from-snapshot :
      (now : ℕ) (key : String) (found : Option (State F)) (d : Draining F)
      → (snapshot_from now key found d).client.snapshot ≡ d.client.snapshot
  unfolding snapshot_from write_snapshot
  snapshot_from-snapshot now key none d = refl
  snapshot_from-snapshot now key (some st) d = refl

  snapshot_turn-owed :
      (now : ℕ) (states : String → Option (State F)) (key : String) (rest : List String)
      (d : Draining F)
      → SnapshotsOwed (key ∷ rest) d
      → SnapshotsOwed rest (snapshot_turn now states key d)
  unfolding snapshot_turn has
  snapshot_turn-owed now states key rest d owed =
      if-elim (SnapshotsOwed rest) (has key d.client.snapshot) _ _
        (λ mine id there.
          let still =
            sym (ap (has id) (snapshot_from-snapshot now key (states key) (snapshot_sent key d)))
            ∙ there in
          ground (arith, has-remove key id d.client.snapshot, owed id, still))
        (λ none_here id there.
          later-has key id rest d.client.snapshot (owed id there) there none_here)

  snapshot_from-Ready :
      (now : ℕ) (key : String) (found : Option (State F)) (d : Draining F)
      → Ready d
      → Ready (snapshot_from now key found d)
  unfolding snapshot_from write_snapshot
  snapshot_from-Ready now key none d r = r
  snapshot_from-Ready now key (some st) d r = record {
    lane_out = r.lane_out;
    marks_timed = r.marks_timed;
  }

  snapshot_turn-Ready :
      (now : ℕ) (states : String → Option (State F)) (key : String) (d : Draining F)
      → Ready d
      → Ready (snapshot_turn now states key d)
  unfolding snapshot_turn
  snapshot_turn-Ready now states key d r =
      if-elim Ready (has key d.client.snapshot) _ _
        (λ mine.
          snapshot_from-Ready now key (states key) (snapshot_sent key d)
            (record { lane_out = r.lane_out; marks_timed = r.marks_timed }))
        (λ none_here. r)

  -- The radios kept back have their times.
  abbrev pub KeptTimed : Draining F → Type 0
  KeptTimed d = (id : String) → has id d.kept ≡ true → Timed d.next (lookup id d.client.next_at)

  send_message-Ready :
      (now : ℕ) (key : String) (ev : Event F) (msg : Option (Message F)) (d : Draining F)
      → Ready d
      → Ready (send_message now key ev msg d)
  unfolding send_message write_event
  send_message-Ready now key ev none d r = r
  send_message-Ready now key ev (some msg) d r = record {
    lane_out = r.lane_out;
    marks_timed = r.marks_timed;
  }

  send_message-KeptTimed :
      (now : ℕ) (key : String) (ev : Event F) (msg : Option (Message F)) (d : Draining F)
      → has key d.kept ≡ false
      → KeptTimed d
      → KeptTimed (send_message now key ev msg d)
  unfolding send_message write_event
  send_message-KeptTimed now key ev none d fresh timed = timed
  send_message-KeptTimed now key ev (some msg) d fresh timed = λ id there.
      subst (λ due. Timed d.next due)
        (sym (
          lookup-insert key id (now + d.client.min_interval) d.client.next_at
          ∙ if-false _ _ (kept-differs key id d.kept there fresh)))
        (timed id there)

  pending_due-Ready :
      (now : ℕ) (key : String) (ev : Event F) (held : Option ℕ) (d : Draining F)
      → Ready d
      → Ready (pending_due now key ev held d)
  unfolding pending_due
  pending_due-Ready now key ev (some at_time) d r = record {
    lane_out = r.lane_out;
    marks_timed = λ id marked. elim (r.marks_timed id marked) [
      | inl coming ↦ inl coming
      | inr there ↦ inr (sooner_other at_time d.next _ there)
    ];
  }
  pending_due-Ready now key ev none d r =
      send_message-Ready now key ev _ (take_pending key d)
        (record { lane_out = r.lane_out; marks_timed = r.marks_timed })

  pending_due-KeptTimed :
      (now : ℕ) (key : String) (ev : Event F) (held : Option ℕ) (d : Draining F)
      → held_until now (lookup key d.client.next_at) ≡ held
      → has key d.kept ≡ false
      → KeptTimed d
      → KeptTimed (pending_due now key ev held d)
  unfolding pending_due has
  pending_due-KeptTimed now key ev (some at_time) d e fresh timed = λ id there.
      elim (Bool-cases (str_eq key id)) [
        | inl same ↦ sooner_self at_time d.next _ (
            ap (λ x. lookup x d.client.next_at) (sym ((eq_iff key id).0 same))
            ∙ held_until-some now at_time _ e)
        | inr other ↦
            sooner_other at_time d.next _
              (timed id (ground (arith, has-append id d.kept (key ∷ []))))
      ]
  pending_due-KeptTimed now key ev none d e fresh timed =
      send_message-KeptTimed now key ev _ (take_pending key d) fresh timed

  pending_event-Ready :
      (now : ℕ) (key : String) (found : Option (Event F)) (d : Draining F)
      → Ready d
      → Ready (pending_event now key found d)
  unfolding pending_event
  pending_event-Ready now key none d r = r
  pending_event-Ready now key (some ev) d r = pending_due-Ready now key ev _ d r

  pending_event-KeptTimed :
      (now : ℕ) (key : String) (found : Option (Event F)) (d : Draining F)
      → has key d.kept ≡ false
      → KeptTimed d
      → KeptTimed (pending_event now key found d)
  unfolding pending_event
  pending_event-KeptTimed now key none d fresh timed = timed
  pending_event-KeptTimed now key (some ev) d fresh timed =
      pending_due-KeptTimed now key ev _ d refl fresh timed

  -- What holds in the loop over the state lane.
  abbrev pub Pausing : List String → Draining F → Type ℓ
  Pausing rest d = Waiting d rest × Ready d × KeptTimed d

  pending_event-Pausing :
      (now : ℕ) (key : String) (found : Option (Event F)) (rest : List String) (d : Draining F)
      → lookup key d.client.pending ≡ found
      → Pausing (key ∷ rest) d
      → Pausing rest (pending_event now key found d)
  pending_event-Pausing now key found rest d e (v, r, timed) = (
    pending_event-Waiting now key found rest d e v,
    pending_event-Ready now key found d r,
    pending_event-KeptTimed now key found d (Distinct-fresh d.kept key rest v.distinct) timed,
  )

  pub pending-Pausing :
      (now : ℕ) (ids : List String) (d : Draining F)
      → Pausing ids d
      → Pausing [] (each (pending_turn now) ids d)
  unfolding each pending_turn
  pending-Pausing now [] d h = h
  pending-Pausing now (id ∷ ids) d h =
      pending-Pausing now ids (pending_turn now id d) (pending_event-Pausing now id _ ids d refl h)

  pub snapshots-owed :
      (now : ℕ) (states : String → Option (State F)) (ids : List String) (d : Draining F)
      → SnapshotsOwed ids d
      → SnapshotsOwed [] (each (snapshot_turn now states) ids d)
  unfolding each
  snapshots-owed now states [] d owed = owed
  snapshots-owed now states (id ∷ ids) d owed =
      snapshots-owed now states ids (snapshot_turn now states id d)
        (snapshot_turn-owed now states id ids d owed)

  pub drain_snapshots-owed :
      (now : ℕ) (states : String → Option (State F)) (d : Draining F)
      → Sound d.client
      → SnapshotsOwed [] (drain_snapshots now states d)
  unfolding drain_snapshots has
  drain_snapshots-owed now states d v =
      if-elim (SnapshotsOwed []) (is_nil d.client.snapshot) _ _
        (λ nothing id there. absurd (unmarked id d.client.snapshot nothing there))
        (λ something. snapshots-owed now states d.client.subs d v.owed)

  pub drain_snapshots-Ready :
      (now : ℕ) (states : String → Option (State F)) (d : Draining F)
      → Ready d
      → Ready (drain_snapshots now states d)
  unfolding drain_snapshots
  drain_snapshots-Ready now states d r =
      if-elim Ready (is_nil d.client.snapshot) _ _ (λ nothing. r)
        (λ something.
          each-keeps Ready (snapshot_turn now states) (snapshot_turn-Ready now states) d.client.subs
            d r)

  pub flush_discrete-Ready : (d : Draining F) → ResyncTimed [] d → Ready (flush_discrete d)
  unfolding flush_discrete
  flush_discrete-Ready d timed = record { lane_out = refl; marks_timed = timed }
