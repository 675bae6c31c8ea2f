-- ===== src/Ws/Client/Bounds.antt =====
-- The invariant of a client, and that offering an event and changing the subscription keep it.
use text.Mathlib.Text.{◌==◌ as str_eq}
use remoses.Prelude.{
  ℕ, ◌≤◌, String, ◌≡◌, refl, ap, ◌∙◌, Bool, true, ◌&&◌, some, List, [], ◌∷◌, ◌++◌, arith, eq_iff,
  ltb, leb, if◌then◌else◌, if-elim, length, length-append,
}
use remoses.Prelude.Maps.{lookup, lookup-insert}
use remoses.Prelude.Sets.{
  Distinct, has, retain_keys, has-append, has-add_all, has-retain, lookup-retain_keys,
  Distinct-snoc, Distinct-length,
}
use remoses.Radio.Change.{set}
use remoses.Rig.Cache.{EventKind, event_state, event_cw, event_conn}
use remoses.Ws.{Event, DiscreteEvent}
use remoses.Ws.Client.{
  Client, is_some, live_events, add_new, new_client, mark_resync, push_discrete, cw_event,
  conn_event, push_by, keep_newest, note_dropped, enqueue, still_pending, set_radios,
}

length-live_events :
    (set : List String) (ds : List DiscreteEvent) → length (live_events set ds) ≤ length ds
unfolding live_events
length-live_events set [] = omega arith
length-live_events set (d ∷ ds) = ground (arith, length-live_events set ds)

module _ {ℓ} {F : Type ℓ} where
  -- The event lane is within its limit. The radios that wait in the state lane are those with an event,
  -- once each, and every mark is one of a subscribed radio.
  pub record Sound (c : Client F) : Type ℓ where
    pub fits : length c.discrete ≤ c.queue_cap
    pub distinct : Distinct c.order
    pub matched : (id : String) → has id c.order ≡ is_some (lookup id c.pending)
    pub named : (id : String) (ev : Event F) → lookup id c.pending ≡ some ev → ev.radio_id ≡ id
    pub watched : (id : String) → has id c.order ≡ true → has id c.subs ≡ true
    pub marked : (id : String) → has id c.resync ≡ true → has id c.subs ≡ true
    pub owed : (id : String) → has id c.snapshot ≡ true → has id c.subs ≡ true

  -- The radios that wait are no more than the radios subscribed.
  pub Sound-bound : (c : Client F) → Sound c → length c.order ≤ length c.subs
  Sound-bound c v = Distinct-length c.order c.subs v.distinct v.watched

  pub new_client-Sound :
      (min_interval queue_cap : ℕ) (radios : List String)
      → Sound (new_client {F = F} min_interval queue_cap radios)
  unfolding new_client has lookup
  new_client-Sound min_interval queue_cap radios = record {
    fits = omega arith;
    distinct = tt;
    matched = λ id. refl;
    named = λ id ev h. absurd (cc h);
    watched = λ id h. absurd (cc h);
    marked = λ id h. absurd (cc h);
    owed = λ id h. ground (arith, has-add_all id radios []);
  }

  -- The notes of what was written, and the flags, are free.
  pub noted-Sound :
      (c : Client F) (last at resync_at : List (String × ℕ)) (closed woken : Bool)
      → Sound c
      → Sound (record c {
        last_seq = last;
        next_at = at;
        next_resync = resync_at;
        closed = closed;
        woken = woken;
      })
  noted-Sound c last at resync_at closed woken v = record {
    fits = v.fits;
    distinct = v.distinct;
    matched = v.matched;
    named = v.named;
    watched = v.watched;
    marked = v.marked;
    owed = v.owed;
  }

  pub awake-Sound :
      (c : Client F) (closed woken : Bool)
      → Sound c
      → Sound (record c { closed = closed; woken = woken })
  awake-Sound c closed woken v = noted-Sound c c.last_seq c.next_at c.next_resync closed woken v

  mark_resync-Sound : (c : Client F) → Sound c → Sound (mark_resync c)
  mark_resync-Sound c v = record {
    fits = v.fits;
    distinct = v.distinct;
    matched = v.matched;
    named = v.named;
    watched = v.watched;
    marked = λ id h. ground (arith, has-add_all id c.subs c.resync, v.marked id);
    owed = v.owed;
  }

  lane-Sound :
      (c : Client F) (ds : List DiscreteEvent)
      → length ds ≤ c.queue_cap
      → Sound c
      → Sound (record c { discrete = ds })
  lane-Sound c ds fits v = record {
    fits = fits;
    distinct = v.distinct;
    matched = v.matched;
    named = v.named;
    watched = v.watched;
    marked = v.marked;
    owed = v.owed;
  }

  push_discrete-Sound : (d : DiscreteEvent) (c : Client F) → Sound c → Sound (push_discrete d c)
  unfolding push_discrete
  push_discrete-Sound d c v =
      if-elim Sound (leb c.queue_cap (length c.discrete)) _ _
        (λ full. mark_resync-Sound (record c { discrete = [] }) (lane-Sound c [] (omega arith) v))
        (λ room.
          lane-Sound c (c.discrete ++ d ∷ []) (ground (arith, length-append c.discrete (d ∷ []))) v)

  push_by-Sound :
      (kind : EventKind) (ev : Event F) (c : Client F) → Sound c → Sound (push_by kind ev c)
  unfolding push_by
  push_by-Sound event_cw ev c v = push_discrete-Sound (cw_event ev) c v
  push_by-Sound event_conn ev c v = push_discrete-Sound (conn_event ev) c v
  push_by-Sound event_state ev c v = v

  note_dropped-Sound : (ev : Event F) (c : Client F) → Sound c → Sound (note_dropped ev c)
  unfolding note_dropped
  note_dropped-Sound ev c v =
      if-elim Sound (ltb 0 ev.dropped) _ _
        (λ some_lost. awake-Sound (mark_resync c) c.closed true (mark_resync-Sound c v))
        (λ none_lost. v)

  newest-Distinct :
      (id : String) (c : Client F)
      → Sound c
      → Distinct (if is_some (lookup id c.pending) then c.order else c.order ++ id ∷ [])
  newest-Distinct id c v =
      if-elim Distinct (is_some (lookup id c.pending)) _ _ (λ waits. v.distinct)
        (λ idle. Distinct-snoc id c.order (v.matched id ∙ idle) v.distinct)

  has-newest :
      (id other : String) (c : Client F)
      → Sound c
      → has other (if is_some (lookup id c.pending) then c.order else c.order ++ id ∷ [])
        ≡ (if str_eq id other then true else has other c.order)
  unfolding has
  has-newest id other c v =
      ground (arith, has-append other c.order (id ∷ []), v.matched id, eq_iff id other)

  keep_newest-Sound :
      (ev : Event F) (c : Client F)
      → has ev.radio_id c.subs ≡ true
      → Sound c
      → Sound (keep_newest ev c)
  unfolding keep_newest
  keep_newest-Sound ev c subscribed v = record {
    fits = v.fits;
    distinct = newest-Distinct ev.radio_id c v;
    matched = λ id. ground (
      arith,
      has-newest ev.radio_id id c v,
      v.matched id,
      lookup-insert ev.radio_id id ev c.pending,
    );
    named = λ id e h.
        ground
          (arith, lookup-insert ev.radio_id id ev c.pending, eq_iff ev.radio_id id, v.named id e);
    watched =
        λ id h. ground (arith, has-newest ev.radio_id id c v, v.watched id, eq_iff ev.radio_id id);
    marked = v.marked;
    owed = v.owed;
  }

  push_by-subs :
      (kind : EventKind) (ev : Event F) (c : Client F) → (push_by kind ev c).subs ≡ c.subs
  unfolding push_by push_discrete
  push_by-subs event_cw ev c = ground arith
  push_by-subs event_conn ev c = ground arith
  push_by-subs event_state ev c = refl

  -- Offering an event to a client keeps it well-formed: at most as many discrete events as the queue
  -- holds, and one state event for each radio that waits.
  pub enqueue-Sound : (ev : Event F) (c : Client F) → Sound c → Sound (enqueue ev c)
  unfolding enqueue
  enqueue-Sound ev c v =
      let noted = note_dropped ev c in
      let noted_v = note_dropped-Sound ev c v in
      if-elim Sound c.closed _ _ (λ closed. v)
        (λ alive.
          if-elim Sound (has ev.radio_id noted.subs) _ _
            (λ subscribed. awake-Sound (keep_newest ev (push_by ev.kind ev noted)) _ true (
              keep_newest-Sound ev (push_by ev.kind ev noted)
                (ap (has ev.radio_id) (push_by-subs ev.kind ev noted) ∙ subscribed)
                (push_by-Sound ev.kind ev noted noted_v)))
            (λ foreign. noted_v))

  has-still_pending :
      (other : String) (pending : List (String × Event F)) (ids : List String)
      → has other (still_pending pending ids) ≡ (is_some (lookup other pending) && has other ids)
  unfolding still_pending has
  has-still_pending other pending [] = ground arith
  has-still_pending other pending (id ∷ ids) =
      ground (arith, has-still_pending other pending ids, eq_iff id other)

  still_pending-Distinct :
      (pending : List (String × Event F)) (ids : List String)
      → Distinct ids
      → Distinct (still_pending pending ids)
  unfolding still_pending
  still_pending-Distinct pending [] d = tt
  still_pending-Distinct pending (id ∷ ids) (fresh, d) =
      if-elim Distinct (is_some (lookup id pending)) _ _
        (λ waits.
          (ground (arith, has-still_pending id pending ids), still_pending-Distinct pending ids d))
        (λ gone. still_pending-Distinct pending ids d)

  pub set_radios-Sound :
      (resolved : List String) (c : Client F) → Sound c → Sound (set_radios resolved c)
  unfolding set_radios
  set_radios-Sound resolved c v =
      let pending = retain_keys resolved c.pending in
      if-elim Sound c.closed _ _ (λ closed. v)
        (λ alive. record {
          fits = omega (arith, length-live_events resolved c.discrete, v.fits);
          distinct = still_pending-Distinct pending c.order v.distinct;
          matched = λ id. ground (
            arith,
            has-still_pending id pending c.order,
            lookup-retain_keys id resolved c.pending,
            v.matched id,
          );
          named =
              λ id ev h. ground (arith, lookup-retain_keys id resolved c.pending, v.named id ev);
          watched = λ id h. ground (
            arith,
            has-still_pending id pending c.order,
            lookup-retain_keys id resolved c.pending,
          );
          marked = λ id h. ground (arith, has-retain id resolved c.resync);
          owed =
              λ id h. ground (arith, has-retain id resolved (add_new resolved c.subs c.snapshot));
        })
