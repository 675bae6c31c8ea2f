-- ===== src/Ws/Drain/Bounds.antt =====
-- A client's turn to write keeps its invariant.
use mathlib.Core.Path.{subst}
use mathlib.Core.List.{append-nil, append_assoc}
use text.Mathlib.Text.{◌==◌ as str_eq}
use remoses.Prelude.{
  ℕ, String, ◌≡◌, refl, sym, false, Option, none, some, List, [], ◌∷◌, ◌++◌, arith, eq_iff,
  if◌then◌else◌, if-elim,
}
use remoses.Prelude.Maps.{lookup, lookup-delete}
use remoses.Prelude.Sets.{Distinct, has, has-append, has-remove}
use remoses.Radio.{State}
use remoses.Rig.Patch.Check.{is_nil}
use remoses.Ws.{Event, Message}
use remoses.Ws.Client.{Client}
use remoses.Ws.Client.Bounds.{noted-Sound, Sound}
use remoses.Ws.Drain.{
  start, Draining, write_resync, resync_due, resync_turn, flush_discrete, write_snapshot,
  snapshot_sent, snapshot_from, snapshot_turn, write_event, take_pending, send_message, pending_due,
  pending_event, pending_turn, each, drain_resyncs, drain_snapshots, drain_pending, drain,
}

-- A loop keeps what each of its turns keeps.
pub each-keeps {ℓ κ} :
    {F : Type ℓ} (P : Draining F → Type κ) (turn : String → Draining F → Draining F)
    → ((id : String) (d : Draining F) → P d → P (turn id d))
    → (ids : List String) (d : Draining F) → P d
    → P (each turn ids d)
unfolding each
each-keeps P turn keeps [] d h = h
each-keeps P turn keeps (id ∷ ids) d h = each-keeps P turn keeps ids (turn id d) (keeps id d h)

-- Taking an element out of a list without repetition.
Distinct-out :
    (xs : List String) (id : String) (ys : List String)
    → Distinct (xs ++ id ∷ ys)
    → Distinct (xs ++ ys)
unfolding has
Distinct-out [] id ys (fresh, d) = d
Distinct-out (x ∷ xs) id ys (fresh, d) =
    (ground (arith, has-append x xs (id ∷ ys), has-append x xs ys), Distinct-out xs id ys d)

has-out :
    (other : String) (xs : List String) (id : String) (ys : List String)
    → Distinct (xs ++ id ∷ ys)
    → has other (xs ++ ys) ≡ (if str_eq id other then false else has other (xs ++ id ∷ ys))
unfolding has
has-out other [] id ys (fresh, d) = ground (arith, eq_iff id other)
has-out other (x ∷ xs) id ys (fresh, d) = ground (
  arith,
  has-out other xs id ys d,
  eq_iff id other,
  eq_iff x other,
  eq_iff x id,
  has-append x xs (id ∷ ys),
  has-append id xs (id ∷ ys),
)

module _ {ℓ} {F : Type ℓ} where
  abbrev SoundAt : Draining F → Type ℓ
  SoundAt d = Sound d.client

  write_resync-Sound :
      (now : ℕ) (id : String) (d : Draining F)
      → Sound d.client
      → Sound (write_resync now id d).client
  unfolding write_resync
  write_resync-Sound now id d v = record {
    fits = v.fits;
    distinct = v.distinct;
    matched = v.matched;
    named = v.named;
    watched = v.watched;
    marked = λ other h. ground (arith, has-remove id other d.client.resync, v.marked other);
    owed = v.owed;
  }

  resync_due-Sound :
      (now : ℕ) (id : String) (held : Option ℕ) (d : Draining F)
      → Sound d.client
      → Sound (resync_due now id held d).client
  unfolding resync_due
  resync_due-Sound now id (some at) d v = v
  resync_due-Sound now id none d v = write_resync-Sound now id d v

  pub resync_turn-Sound :
      (now : ℕ) (id : String) (d : Draining F)
      → Sound d.client
      → Sound (resync_turn now id d).client
  unfolding resync_turn
  resync_turn-Sound now id d v =
      if-elim SoundAt (has id d.client.resync) _ _ (λ marked. resync_due-Sound now id _ d v)
        (λ unmarked. v)

  snapshot_sent-Sound :
      (id : String) (d : Draining F) → Sound d.client → Sound (snapshot_sent id d).client
  snapshot_sent-Sound id d v = record {
    fits = v.fits;
    distinct = v.distinct;
    matched = v.matched;
    named = v.named;
    watched = v.watched;
    marked = v.marked;
    owed = λ other h. ground (arith, has-remove id other d.client.snapshot, v.owed other);
  }

  snapshot_from-Sound :
      (now : ℕ) (id : String) (found : Option (State F)) (d : Draining F)
      → Sound d.client
      → Sound (snapshot_from now id found d).client
  unfolding snapshot_from write_snapshot
  snapshot_from-Sound now id none d v = v
  snapshot_from-Sound now id (some st) d v = noted-Sound d.client _ _ _ _ _ v

  snapshot_turn-Sound :
      (now : ℕ) (states : String → Option (State F)) (id : String) (d : Draining F)
      → Sound d.client
      → Sound (snapshot_turn now states id d).client
  unfolding snapshot_turn
  snapshot_turn-Sound now states id d v =
      if-elim SoundAt (has id d.client.snapshot) _ _
        (λ owed.
          snapshot_from-Sound now id (states id) (snapshot_sent id d) (snapshot_sent-Sound id d v))
        (λ done. v)

  -- The invariant in the loop over the state lane: what is kept and what is to come is what waits.
  abbrev pub Waiting : Draining F → List String → Type ℓ
  Waiting d rest = Sound (record d.client { order = d.kept ++ rest })

  taken-Sound :
      (id : String) (rest : List String) (d : Draining F)
      → Waiting d (id ∷ rest)
      → Waiting (take_pending id d) rest
  taken-Sound id rest d v = record {
    fits = v.fits;
    distinct = Distinct-out d.kept id rest v.distinct;
    matched = λ other. ground (
      arith,
      has-out other d.kept id rest v.distinct,
      lookup-delete id other d.client.pending,
      v.matched other,
    );
    named = λ other ev h. ground (arith, lookup-delete id other d.client.pending, v.named other ev);
    watched = λ other h. ground (arith, has-out other d.kept id rest v.distinct, v.watched other);
    marked = v.marked;
    owed = v.owed;
  }

  send_message-Waiting :
      (now : ℕ) (id : String) (ev : Event F) (msg : Option (Message F)) (rest : List String)
      (d : Draining F)
      → Waiting d rest
      → Waiting (send_message now id ev msg d) rest
  unfolding send_message write_event
  send_message-Waiting now id ev none rest d v = v
  send_message-Waiting now id ev (some msg) rest d v =
      noted-Sound (record d.client { order = d.kept ++ rest }) _ _ _ _ _ v

  pending_due-Waiting :
      (now : ℕ) (id : String) (ev : Event F) (held : Option ℕ) (rest : List String) (d : Draining F)
      → Waiting d (id ∷ rest)
      → Waiting (pending_due now id ev held d) rest
  unfolding pending_due
  pending_due-Waiting now id ev (some at) rest d v =
      subst (λ order. Sound (record d.client { order = order }))
        (sym (append_assoc d.kept (id ∷ []) rest)) v
  pending_due-Waiting now id ev none rest d v =
      send_message-Waiting now id ev _ rest (take_pending id d) (taken-Sound id rest d v)

  pub pending_event-Waiting :
      (now : ℕ) (id : String) (found : Option (Event F)) (rest : List String) (d : Draining F)
      → lookup id d.client.pending ≡ found
      → Waiting d (id ∷ rest)
      → Waiting (pending_event now id found d) rest
  unfolding pending_event has
  pending_event-Waiting now id none rest d e v =
      absurd (ground (arith, v.matched id, has-append id d.kept (id ∷ rest), eq_iff id id))
  pending_event-Waiting now id (some ev) rest d e v = pending_due-Waiting now id ev _ rest d v

  pending-Waiting :
      (now : ℕ) (ids : List String) (d : Draining F)
      → Waiting d ids
      → Waiting (each (pending_turn now) ids d) []
  unfolding each pending_turn
  pending-Waiting now [] d v = v
  pending-Waiting now (id ∷ ids) d v =
      pending-Waiting now ids (pending_turn now id d) (pending_event-Waiting now id _ ids d refl v)

  pub drain_resyncs-Sound :
      (now : ℕ) (d : Draining F) → Sound d.client → Sound (drain_resyncs now d).client
  unfolding drain_resyncs
  drain_resyncs-Sound now d v =
      if-elim SoundAt (is_nil d.client.resync) _ _ (λ nothing. v)
        (λ something.
          each-keeps SoundAt (resync_turn now) (resync_turn-Sound now) d.client.subs d v)

  pub drain_snapshots-Sound :
      (now : ℕ) (states : String → Option (State F)) (d : Draining F)
      → Sound d.client
      → Sound (drain_snapshots now states d).client
  unfolding drain_snapshots
  drain_snapshots-Sound now states d v =
      if-elim SoundAt (is_nil d.client.snapshot) _ _ (λ nothing. v)
        (λ something.
          each-keeps SoundAt (snapshot_turn now states) (snapshot_turn-Sound now states)
            d.client.subs d v)

  drain_pending-Sound :
      (now : ℕ) (d : Draining F) → Sound d.client → Sound (drain_pending now d).client
  unfolding drain_pending
  drain_pending-Sound now d v =
      let done = each (pending_turn now) d.client.order (record d { kept = [] }) in
      if-elim SoundAt (is_nil d.client.pending) _ _ (λ nothing. v)
        (λ something.
          subst (λ order. Sound (record done.client { order = order })) (append-nil done.kept)
            (pending-Waiting now d.client.order (record d { kept = [] }) v))

  pub flush_discrete-Sound : (d : Draining F) → Sound d.client → Sound (flush_discrete d).client
  unfolding flush_discrete
  flush_discrete-Sound d v = record {
    fits = omega arith;
    distinct = v.distinct;
    matched = v.matched;
    named = v.named;
    watched = v.watched;
    marked = v.marked;
    owed = v.owed;
  }

  pub drain-Sound :
      (now : ℕ) (states : String → Option (State F)) (c : Client F)
      → Sound c
      → Sound (drain now states c).client
  unfolding drain
  drain-Sound now states c v = drain_pending-Sound now _ (
      drain_snapshots-Sound now states _
        (flush_discrete-Sound _ (drain_resyncs-Sound now (start c) v)))
