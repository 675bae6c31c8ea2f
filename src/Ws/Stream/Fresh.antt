-- ===== src/Ws/Stream/Fresh.antt =====
-- What is offered to a client, and its subscription, keep its notes within what was published.
use mathlib.Core.Path.{subst}
use text.Mathlib.Text.{◌==◌ as str_eq}
use remoses.Prelude.{
  ℕ, ◌≤◌, String, ◌≡◌, refl, sym, ap, ◌∙◌, List, arith, leb, if◌then◌else◌, if-elim,
}
use remoses.Prelude.Maps.{lookup, lookup-insert}
use remoses.Prelude.Sets.{has, lookup-retain_keys}
use remoses.Rig.Cache.{EventKind, event_state, event_cw, event_conn}
use remoses.Ws.{Event}
use remoses.Ws.Client.{
  Client, push_discrete, push_by, keep_newest, note_dropped, enqueue, set_radios,
}
use remoses.Ws.Drain.{or_zero}
use remoses.Ws.Stream.Ordered.{Below}

abbrev pub higher : ℕ → ℕ → ℕ
higher top n = if leb top n then n else top

module _ {ℓ} {F : Type ℓ} where
  -- The same notes and events.
  abbrev pub SameNotes : Client F → Client F → Type ℓ
  SameNotes c d = (d.last_seq ≡ c.last_seq) × (d.pending ≡ c.pending)

  pub SameNotes-Below :
      (id : String) (top : ℕ) (c d : Client F) → SameNotes c d → Below id top c → Below id top d
  SameNotes-Below id top c d (last, pending) b = record {
    last_below = subst (λ m. or_zero (lookup id m) ≤ top) (sym last) b.last_below;
    pending_below = λ ev h. b.pending_below ev (ap (lookup id) (sym pending) ∙ h);
  }

  push_by-SameNotes :
      (kind : EventKind) (ev : Event F) (c : Client F) → SameNotes c (push_by kind ev c)
  unfolding push_by push_discrete
  push_by-SameNotes event_cw ev c = ground arith
  push_by-SameNotes event_conn ev c = ground arith
  push_by-SameNotes event_state ev c = (refl, refl)

  note_dropped-SameNotes : (ev : Event F) (c : Client F) → SameNotes c (note_dropped ev c)
  unfolding note_dropped
  note_dropped-SameNotes ev c = ground arith

  pub Below-up :
      (id : String) (top more : ℕ) (c : Client F) → top ≤ more → Below id top c → Below id more c
  Below-up id top more c up b = record {
    last_below = omega (arith, b.last_below);
    pending_below = λ ev h. omega (arith, b.pending_below ev h);
  }

  keep_newest-Below :
      (id : String) (top : ℕ) (ev : Event F) (c : Client F)
      → Below id top c
      → Below id (if str_eq ev.radio_id id then higher top ev.seq else top) (keep_newest ev c)
  unfolding keep_newest
  keep_newest-Below id top ev c b = record {
    last_below = ground (arith, b.last_below);
    pending_below =
        λ other h. ground (arith, lookup-insert ev.radio_id id ev c.pending, b.pending_below other);
  }

  pub enqueue-Below :
      (id : String) (top : ℕ) (ev : Event F) (c : Client F)
      → Below id top c
      → Below id (if str_eq ev.radio_id id then higher top ev.seq else top) (enqueue ev c)
  unfolding enqueue
  enqueue-Below id top ev c b =
      let more = if str_eq ev.radio_id id then higher top ev.seq else top in
      let noted = note_dropped ev c in
      let noted_below = SameNotes-Below id top c noted (note_dropped-SameNotes ev c) b in
      if-elim (Below id more) c.closed _ _ (λ closed. Below-up id top more c (ground arith) b)
        (λ alive.
          if-elim (Below id more) (has ev.radio_id noted.subs) _ _
            (λ subscribed.
              let pushed = push_by ev.kind ev noted in
              let kept = keep_newest-Below id top ev pushed (
                SameNotes-Below id top noted pushed (push_by-SameNotes ev.kind ev noted)
                  noted_below) in
              SameNotes-Below id more (keep_newest ev pushed) _ (refl, refl) kept)
            (λ foreign. Below-up id top more noted (ground arith) noted_below))

  pub set_radios-Below :
      (id : String) (top : ℕ) (resolved : List String) (c : Client F)
      → Below id top c
      → Below id top (set_radios resolved c)
  unfolding set_radios
  set_radios-Below id top resolved c b =
      if-elim (Below id top) c.closed _ _ (λ closed. b)
        (λ alive. record {
          last_below = b.last_below;
          pending_below =
              λ ev h. ground (arith, lookup-retain_keys id resolved c.pending, b.pending_below ev);
        })

  pub enqueue-last_seq : (ev : Event F) (c : Client F) → (enqueue ev c).last_seq ≡ c.last_seq
  unfolding enqueue keep_newest push_by push_discrete note_dropped
  enqueue-last_seq ev c = ground arith

  pub set_radios-last_seq :
      (resolved : List String) (c : Client F) → (set_radios resolved c).last_seq ≡ c.last_seq
  unfolding set_radios
  set_radios-last_seq resolved c = ground arith
