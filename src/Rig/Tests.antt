-- ===== src/Rig/Tests.antt =====
-- The theorems about the session at concrete states.
use remoses.Prelude.{
  ℕ, ◌+◌, String, ◌≡◌, refl, true, false, Option, none, some, List, [], ◌∷◌, arith,
}
use remoses.Rig.Backoff.{
  Failure, err_timeout, err_deadline, err_nak, err_other, PollTier, poll_fast, poll_slow,
  is_disconnected, Poller, poll_loop,
}
use remoses.Rig.Backoff.Rules.{failing, poll_loop-failing}
use remoses.Rig.Conn.{Update, Conn, wants, received, replied, rejected, deliver, outcome}
use remoses.Rig.Conn.Matching.{deliver-oldest}
use remoses.Rig.Events.{new_subscriber}
use remoses.Rig.Events.Accounts.{Move, published, taken, after, account, after-account}

abbrev waiting : Conn ℕ String
waiting = record {
  waiters =
      record { number = 1; keys = "FA" ∷ [] } ∷ record { number = 2; keys = "FA" ∷ "IF" ∷ [] } ∷ [];
  mailbox = [];
  err = none;
  closing = false;
  closes = 0;
}

abbrev refusal : Update ℕ
refusal = record { key = "IF"; ok = false; content = 7 }

deliver-oldest_example :
    ((deliver waiting refusal).waiters ≡ record { number = 1; keys = "FA" ∷ [] } ∷ [])
    × (outcome "gone" (deliver waiting refusal) 2 replied ≡ rejected refusal)
unfolding wants received
deliver-oldest_example =
    deliver-oldest "gone" waiting refusal (record { number = 1; keys = "FA" ∷ [] } ∷ []) []
      (record { number = 2; keys = "FA" ∷ "IF" ∷ [] }) refl (refl, tt) refl refl

abbrev moves : List (Move ℕ)
moves = published 1 ∷ published 2 ∷ taken ∷ published 3 ∷ taken ∷ []

after-account_example : account (after 1 new_subscriber [] moves) ≡ 0 + 3
after-account_example = after-account 1 new_subscriber [] moves refl (omega arith)

abbrev live : Poller
live = record { fast_fails = 0; slow_fails = 0; stopped = false; killed = false }

abbrev refusals : List (PollTier × Option Failure)
refusals = (poll_slow, some err_nak) ∷ (poll_fast, none) ∷ (poll_slow, some err_other) ∷ []

abbrev mixed : List Failure
mixed = err_nak ∷ err_timeout ∷ err_other ∷ err_nak ∷ err_deadline ∷ []

poll_loop-failing_example :
    ((poll_loop live (failing mixed)).killed ≡ true)
    × ((poll_loop live (failing mixed)).stopped ≡ true)
unfolding is_disconnected
poll_loop-failing_example =
    poll_loop-failing live mixed (refl, (refl, (refl, (refl, (refl, tt))))) refl refl (omega arith)
      (omega arith)
