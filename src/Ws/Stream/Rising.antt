-- ===== src/Ws/Stream/Rising.antt =====
-- The frames about a radio are in order, over all the turns of a connection.
use text.Mathlib.Text.{◌==◌ as str_eq}
use mathlib.Core.Path.{subst}
use remoses.Prelude.{
  ℕ, ◌≤◌, String, ◌≡◌, refl, sym, ap, true, false, Option, none, some, List, [], ◌∷◌, ◌++◌, arith,
  if◌then◌else◌, if-elim,
}
use remoses.Prelude.Maps.{lookup}
use remoses.Radio.{State}
use remoses.Rig.Patch.Check.{is_nil}
use remoses.Ws.{Message}
use remoses.Ws.Client.{stop, Client, enqueue, set_radios}
use remoses.Ws.Client.Bounds.{awake-Sound, enqueue-Sound, set_radios-Sound, Sound}
use remoses.Ws.Drain.{
  start, Draining, or_zero, resync_turn, flush_discrete, snapshot_turn, pending_turn, drain_resyncs,
  drain_snapshots, order_kept, drain_pending, drain,
}
use remoses.Ws.Drain.Bounds.{
  each-keeps, drain_resyncs-Sound, drain_snapshots-Sound, flush_discrete-Sound, drain-Sound,
}
use remoses.Ws.Stream.{
  Happening, offered, resubscribed, wrote, stopped, Batch, happen, written_by, batches,
}
use remoses.Ws.Stream.Fresh.{
  higher, SameNotes-Below, Below-up, enqueue-Below, set_radios-Below, enqueue-last_seq,
  set_radios-last_seq,
}
use remoses.Ws.Stream.Numbers.{
  resync_turn-Opening, snapshot_turn-Opening, pending_turn-Closing, Opening, Closing,
}
use remoses.Ws.Stream.Ordered.{some_inj, Ordered, Ordered-append, flush_discrete-Noted, Below}

module _ {ℓ} {F : Type ℓ} where
  abbrev pub frames_of : List (Batch F) → List (Message F)
  frames_of [] = []
  frames_of (b ∷ bs) = b.frames ++ frames_of bs

  abbrev pub newest : ℕ → Option (State F) → ℕ
  newest top none = top
  newest top (some st) = st.seq

  -- No state that the hub has of a radio is older than an event of it that was offered, or than one
  -- that it had before.
  abbrev pub Timely : String → ℕ → List (Happening F) → Type ℓ
  Timely id top [] = Unit
  Timely id top (offered ev ∷ hs) =
      Timely id (if str_eq ev.radio_id id then higher top ev.seq else top) hs
  Timely id top (wrote now states ∷ hs) =
      ((st : State F) → states id ≡ some st → top ≤ st.seq) × Timely id (newest top (states id)) hs
  Timely id top (resubscribed resolved ∷ hs) = Timely id top hs
  Timely id top (stopped ∷ hs) = Timely id top hs

  drain_resyncs-Opening :
      (id : String) (low high now : ℕ) (states : String → Option (State F)) (d : Draining F)
      → Opening id low high states d
      → Opening id low high states (drain_resyncs now d)
  unfolding drain_resyncs
  drain_resyncs-Opening id low high now states d o =
      if-elim (Opening id low high states) (is_nil d.client.resync) _ _ (λ nothing. o)
        (λ something.
          each-keeps (Opening id low high states) (resync_turn now)
            (resync_turn-Opening id low high now states) d.client.subs d o)

  flush_discrete-Opening :
      (id : String) (low high : ℕ) (states : String → Option (State F)) (d : Draining F)
      → Opening id low high states d
      → Opening id low high states (flush_discrete d)
  unfolding flush_discrete
  flush_discrete-Opening id low high states d o = record {
    frames_noted = flush_discrete-Noted id low d o.frames_noted;
    client_below = record {
      last_below = o.client_below.last_below;
      pending_below = o.client_below.pending_below;
    };
    no_older = o.no_older;
  }

  drain_snapshots-Opening :
      (id : String) (low high now : ℕ) (states : String → Option (State F)) (d : Draining F)
      → ((st : State F) → states id ≡ some st → st.seq ≤ high)
      → Opening id low high states d
      → Opening id low high states (drain_snapshots now states d)
  unfolding drain_snapshots
  drain_snapshots-Opening id low high now states d bound o =
      if-elim (Opening id low high states) (is_nil d.client.snapshot) _ _ (λ nothing. o)
        (λ something.
          each-keeps (Opening id low high states) (snapshot_turn now states)
            (λ key e. snapshot_turn-Opening id low high now states key e bound) d.client.subs d o)

  order_kept-Closing :
      (id : String) (low high : ℕ) (d : Draining F)
      → Closing id low high d
      → Closing id low high (order_kept d)
  order_kept-Closing id low high d k = record {
    frames_noted = record { in_order = k.frames_noted.in_order; noted = k.frames_noted.noted };
    client_below = record {
      last_below = k.client_below.last_below;
      pending_below = k.client_below.pending_below;
    };
    events_named = k.events_named;
  }

  drain_pending-Closing :
      (id : String) (low high now : ℕ) (d : Draining F)
      → Closing id low high d
      → Closing id low high (drain_pending now d)
  unfolding drain_pending
  drain_pending-Closing id low high now d k =
      if-elim (Closing id low high) (is_nil d.client.pending) _ _ (λ nothing. k)
        (λ something. order_kept-Closing id low high _ (
          each-keeps (Closing id low high) (pending_turn now) (pending_turn-Closing id low high now)
            d.client.order (record d { kept = [] })
            (record {
              frames_noted = record {
                in_order = k.frames_noted.in_order;
                noted = k.frames_noted.noted;
              };
              client_below = k.client_below;
              events_named = k.events_named;
            })))

  -- A turn writes the frames about a radio in order, from the last number that the client has noted.
  drain-Closing :
      (id : String) (high now : ℕ) (states : String → Option (State F)) (c : Client F)
      → Sound c
      → Below id high c
      → ((st : State F) → states id ≡ some st → st.seq ≤ high)
      → ((st : State F) → states id ≡ some st → or_zero (lookup id c.last_seq) ≤ st.seq)
      → Closing id (or_zero (lookup id c.last_seq)) high (drain now states c)
  unfolding drain
  drain-Closing id high now states c v below bound newer =
      let low = or_zero (lookup id c.last_seq) in
      let first = flush_discrete (drain_resyncs now (start c)) in
      let sound =
        drain_snapshots-Sound now states first
          (flush_discrete-Sound _ (drain_resyncs-Sound now (start c) v)) in
      let opened = drain_snapshots-Opening id low high now states first bound (
        flush_discrete-Opening id low high states _ (
          drain_resyncs-Opening id low high now states (start c) (record {
            frames_noted = record { in_order = tt; noted = refl };
            client_below = below;
            no_older = newer;
          }))) in
      drain_pending-Closing id low high now (drain_snapshots now states first) (record {
        frames_noted = opened.frames_noted;
        client_below = opened.client_below;
        events_named = sound.named;
      })

  newest-bound :
      (top : ℕ) (found : Option (State F))
      → ((st : State F) → found ≡ some st → top ≤ st.seq)
      → (top ≤ newest top found) × ((st : State F) → found ≡ some st → st.seq ≤ newest top found)
  newest-bound top none newer = (omega arith, λ st h. absurd (cc h))
  newest-bound top (some st) newer =
      (newer st refl, λ other h. omega (arith, ap (λ (s : State F). s.seq) (some_inj h)))

  wrote-Ordered :
      (id : String) (top now : ℕ) (states : String → Option (State F)) (c : Client F)
      (rest : List (Message F))
      → Sound c
      → Below id top c
      → ((st : State F) → states id ≡ some st → top ≤ st.seq)
      → (Below id (newest top (states id)) (drain now states c).client
          → Ordered id (or_zero (lookup id (drain now states c).client.last_seq)) rest)
      → Ordered id (or_zero (lookup id c.last_seq)) ((drain now states c).out ++ rest)
  wrote-Ordered id top now states c rest v b newer more =
      let up = newest-bound top (states id) newer in
      let closed =
        drain-Closing id (newest top (states id)) now states c v (Below-up id top _ c up.0 b) up.1
          (λ st h. omega (arith, b.last_below, newer st h)) in
      Ordered-append id _ (drain now states c).out rest closed.frames_noted.in_order (
        subst (λ low. Ordered id low rest) (sym closed.frames_noted.noted)
          (more closed.client_below))

  -- Over any course of offered events, subscribe messages and turns of the writer, the frames that are
  -- written about a radio are in order: a snapshot is no older than the frame before it, a delta is
  -- newer, and a resync names just the number of the frame before it, if the state that the hub has of
  -- the radio at a turn is never older than an event that was offered or a state before it, nor are the
  -- notes and the events the client starts with.
  pub run-Ordered :
      (id : String) (hs : List (Happening F)) (top : ℕ) (c : Client F)
      → Sound c
      → Below id top c
      → Timely id top hs
      → Ordered id (or_zero (lookup id c.last_seq)) (frames_of (batches hs c))
  unfolding batches happen written_by stop
  run-Ordered id [] top c v b timely = tt
  run-Ordered id (offered ev ∷ hs) top c v b timely =
      subst (λ m. Ordered id (or_zero (lookup id m)) (frames_of (batches hs (enqueue ev c))))
        (enqueue-last_seq ev c)
        (run-Ordered id hs _ (enqueue ev c) (enqueue-Sound ev c v) (enqueue-Below id top ev c b)
          timely)
  run-Ordered id (resubscribed resolved ∷ hs) top c v b timely =
      subst
        (λ m. Ordered id (or_zero (lookup id m)) (frames_of (batches hs (set_radios resolved c))))
        (set_radios-last_seq resolved c)
        (run-Ordered id hs top (set_radios resolved c) (set_radios-Sound resolved c v)
          (set_radios-Below id top resolved c b) timely)
  run-Ordered id (wrote now states ∷ hs) top c v b (newer, timely) =
      let asleep = record c { woken = false } in
      wrote-Ordered id top now states asleep _ (awake-Sound c c.closed false v)
        (SameNotes-Below id top c asleep (refl, refl) b) newer
        (λ below.
          run-Ordered id hs _ (drain now states asleep).client
            (drain-Sound now states asleep (awake-Sound c c.closed false v)) below timely)
  run-Ordered id (stopped ∷ hs) top c v b timely =
      run-Ordered id hs top (stop c) (awake-Sound c true _ v)
        (SameNotes-Below id top c (stop c) (refl, refl) b) timely
