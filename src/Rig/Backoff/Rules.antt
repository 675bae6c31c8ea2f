-- ===== src/Rig/Backoff/Rules.antt =====
-- How long the supervisor waits, and when the poller gives a radio up.
use remoses.Prelude.{
  ℕ, suc, ◌+◌, ◌≤◌, ◌<◌, ◌≡◌, refl, ap, ◌∙◌, inl, inr, true, false, Option, some, List, [], ◌∷◌,
  arith, leb, if◌then◌else◌, Bool-cases, if-false, length, All,
}
use remoses.Rig.Backoff.{
  Failure, err_disconnected, err_timeout, err_canceled, err_deadline, err_nak, err_other, PollTier,
  poll_fast, max_poll_failures, is_fatal_poll_err, is_disconnected, is_fast, poll_tier, Poller,
  stored, counter, poll_loop,
}
use remoses.Rig.Patch.Apply.{◌then◌}

-- A loop that goes on takes the next tick.
poll_loop-next :
    (p q : Poller) (t : PollTier × Option Failure) (ticks : List (PollTier × Option Failure))
    → p.stopped ≡ false
    → stored t.0 p (poll_tier false t.0 (counter t.0 p) t.1) ≡ q
    → poll_loop p (t ∷ ticks) ≡ poll_loop q ticks
unfolding poll_loop
poll_loop-next p q t ticks live e = if-false _ _ live ∙ ap (λ x. poll_loop x ticks) e

-- Ticks of the fast tier that fail, with no answer in between.
abbrev pub failing : List Failure → List (PollTier × Option Failure)
failing [] = []
failing (e ∷ es) = (poll_fast, some e) ∷ failing es

poll_tier-failing :
    (fails : ℕ) (e : Failure)
    → is_disconnected e ≡ false
    → poll_tier false poll_fast fails (some e) ≡ (
        if leb max_poll_failures (fails + 1)
        then record { goes_on = false; fails = fails + 1; killed = true }
        else record { goes_on = true; fails = fails + 1; killed = false })
unfolding poll_tier is_fatal_poll_err is_disconnected is_fast
poll_tier-failing fails err_disconnected h = absurd (cc h)
poll_tier-failing fails err_timeout h = refl
poll_tier-failing fails err_canceled h = refl
poll_tier-failing fails err_deadline h = refl
poll_tier-failing fails err_nak h = refl
poll_tier-failing fails err_other h = refl

-- What a failure of the fast tier makes of the counters.
abbrev worse : Poller → Poller
worse p = record p { fast_fails = p.fast_fails + 1; stopped = false; killed = false }

stored-failing :
    (p : Poller) (e : Failure)
    → is_disconnected e ≡ false
    → p.fast_fails + 1 < max_poll_failures
    → stored poll_fast p (poll_tier false poll_fast p.fast_fails (some e)) ≡ worse p
stored-failing p e linked few = ap (stored poll_fast p) (
    poll_tier-failing p.fast_fails e linked
    ∙ if-false _ _ {b = leb max_poll_failures (p.fast_fails + 1)} (ground arith))

plus_one : (a b : ℕ) → a + 1 + b ≡ a + suc b
plus_one a b = omega arith

-- Further failures of the fast tier in a row, whichever they are but none a disconnection, end a
-- running loop and fail its connection exactly where they bring the count of the tier to
-- `max_poll_failures`, and leave it running where the count stays below that.
pub poll_loop-failing :
    (p : Poller) (es : List Failure)
    → All (λ e. is_disconnected e ≡ false) es
    → p.stopped ≡ false
    → p.killed ≡ false
    → p.fast_fails + length es ≤ max_poll_failures
    → 0 < length es
    → let q = poll_loop p (failing es) in
      (q.killed ≡ leb max_poll_failures (p.fast_fails + length es))
      × (q.stopped ≡ leb max_poll_failures (p.fast_fails + length es))
unfolding poll_loop
poll_loop-failing p [] linked live alive few some_left = absurd (omega arith)
poll_loop-failing p (e ∷ []) (linked, _) live alive few some_left =
    let next =
      poll_loop-next p _ (poll_fast, some e) [] live
        (ap (stored poll_fast p) (poll_tier-failing p.fast_fails e linked)) in
    elim (Bool-cases (leb max_poll_failures (p.fast_fails + 1))) [
      | inl over ↦ (ap (λ r. r.killed) next ∙ rw over refl, ap (λ r. r.stopped) next ∙ rw over refl)
      | inr few ↦ (ap (λ r. r.killed) next ∙ rw few refl, ap (λ r. r.stopped) next ∙ rw few refl)
    ]
poll_loop-failing p (e ∷ f ∷ es) (linked, more) live alive few some_left =
    let next =
      poll_loop-next p (worse p) (poll_fast, some e) (failing (f ∷ es)) live
        (stored-failing p e linked (omega arith)) in
    let (dead, ended) =
      poll_loop-failing (worse p) (f ∷ es) more refl refl (omega arith) (omega arith) in
    let count = ap (leb max_poll_failures) (plus_one p.fast_fails (suc (length es))) in
    (ap (λ r. r.killed) next ∙ dead ∙ count, ap (λ r. r.stopped) next ∙ ended ∙ count)
