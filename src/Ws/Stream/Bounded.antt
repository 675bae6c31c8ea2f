-- ===== src/Ws/Stream/Bounded.antt =====
-- What a connection can hold, however long its client does not read.
use remoses.Prelude.{◌≤◌, String, ◌≡◌, true, false, List, [], ◌∷◌, length}
use remoses.Prelude.Maps.{lookup}
use remoses.Prelude.Sets.{Distinct, has}
use remoses.Ws.Client.{stop, Client, is_some}
use remoses.Ws.Client.Bounds.{Sound-bound, awake-Sound, enqueue-Sound, set_radios-Sound, Sound}
use remoses.Ws.Drain.Bounds.{drain-Sound}
use remoses.Ws.Stream.{Happening, offered, resubscribed, wrote, stopped, happen, run}

module _ {ℓ} {F : Type ℓ} where
  pub happen-Sound : (h : Happening F) (c : Client F) → Sound c → Sound (happen h c)
  unfolding happen stop
  happen-Sound (offered ev) c v = enqueue-Sound ev c v
  happen-Sound (resubscribed resolved) c v = set_radios-Sound resolved c v
  happen-Sound (wrote now states) c v = drain-Sound now states _ (awake-Sound c c.closed false v)
  happen-Sound stopped c v = awake-Sound c true _ v

  run-Sound : (hs : List (Happening F)) (c : Client F) → Sound c → Sound (run hs c)
  unfolding run
  run-Sound [] c v = v
  run-Sound (h ∷ hs) c v = run-Sound hs (happen h c) (happen-Sound h c v)

  -- The bounds of the two lanes: the event lane is within its limit, and the state lane has one event
  -- for each radio in its order, which are different radios and no more than are subscribed.
  abbrev pub WithinLimits : Client F → Type 0
  WithinLimits c =
      (length c.discrete ≤ c.queue_cap)
      × (length c.order ≤ length c.subs)
      × Distinct c.order
      × ((id : String) → has id c.order ≡ is_some (lookup id c.pending))

  -- However the events, the subscribe messages and the turns of the writer fall, a client keeps at most
  -- as many discrete events as its queue holds, one state event for each radio that waits, and no more
  -- waiting radios than it subscribes to.
  pub run-Bounded : (hs : List (Happening F)) (c : Client F) → Sound c → WithinLimits (run hs c)
  run-Bounded hs c v =
      let w = run-Sound hs c v in (w.fits, Sound-bound (run hs c) w, w.distinct, w.matched)
