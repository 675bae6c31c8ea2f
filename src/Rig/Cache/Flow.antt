-- ===== src/Rig/Cache/Flow.antt =====
-- The session with the calls of `apply` and `refreshCW` of several goroutines in flight.
use remoses.Prelude.{ℕ, ◌+◌, ◌^◌, ◌<◌, ◌≡◌, Bool, Option, none, some, List, [], ◌∷◌, ◌++◌}
use remoses.Prelude.Compare.{Comparable}
use remoses.Radio.{CwStatus, Patch}
use remoses.Rig.Cache.{
  EventKind, Published, Session, watch_ptt, publish_event, store_change, store_cw, force_rx,
}

-- `pending` holds the event of each call that has released the lock and has not yet published.
pub record Flow {ℓ} (F : Type ℓ) : Type ℓ where
  pub session : Session F
  pub pending : List (Published F)

module _ {ℓ} {F : Type ℓ} where
  abbrev pub waiting : Option (Published F) → List (Published F)
  waiting none = []
  waiting (some e) = e ∷ []

  -- A call that has released the lock joins the others.
  abbrev pub set_off : Flow F → Session F × Option (Published F) → Flow F
  set_off f (s, o) = record { session = s; pending = f.pending ++ waiting o }

-- A call stores a change or a status, sets the timer, or publishes, and ForceRX may come at any time. The
-- timer is set by any call at any time, which allows more than the code does. A change is a step only
-- while the 64-bit counter does not wrap.
pub data Step {ℓ} {F : Type ℓ} ⦃float : Comparable F⦄ (f : Flow F) : Flow F → Type ℓ where
  changes :
      (p : Patch F) (kind : EventKind) (now : ℕ)
      → f.session.state.seq + 1 < 2 ^ 64
      → Step f (set_off f (store_change f.session p kind now))
  reports :
      (status : CwStatus) (now : ℕ)
      → f.session.state.seq + 1 < 2 ^ 64
      → Step f (set_off f (store_cw f.session status now))
  sets_timer :
      (ptt : Option Bool) (armed_at : ℕ)
      → Step f (record f { session = watch_ptt ptt f.session armed_at })
  forces : Step f (record f { session = force_rx f.session })
  publishes :
      (before after : List (Published F)) (e : Published F)
      → f.pending ≡ before ++ e ∷ after
      → Step f (record { session = publish_event e f.session; pending = before ++ after })

-- What can be reached in any number of steps.
pub data Run {ℓ} {F : Type ℓ} ⦃float : Comparable F⦄ (from : Flow F) : Flow F → Type ℓ where
  here : Run from from
  then_step : {mid to : Flow F} → Run from mid → Step mid to → Run from to
