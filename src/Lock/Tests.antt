-- ===== src/Lock/Tests.antt =====
-- A station with two operators, and the theorems at its states.
use remoses.Prelude.{
  ℕ, ◌≤◌, String, ◌≡◌, refl, ◌≢◌, true, false, none, some, [], ◌∷◌, ◌++◌, arith, text_ne,
}
use remoses.Prelude.Int.{pos}
use remoses.Prelude.Maps.{lookup, delete, insert}
use remoses.Lock.{
  Lock, Entry, Config, Manager, new_manager, set_on_expire, token_equal, grant, acquire, renew,
  release, check,
}
use remoses.Lock.Acquire.{MayTake, grant-check}
use remoses.Lock.Clients.{HeldBy, check-ok}
use remoses.Lock.Expiry.{StaysHeld, run_callback-held, run_callback-due}
use remoses.Lock.Leases.{Reach-Inv}
use remoses.Lock.System.{
  acquiring, renewing, setting_callback, perform, has_fired, fire, System, run_callback, act, tick,
  fires, Reach, start, next,
}
use remoses.Lock.Timers.{Inv}

abbrev cfg : Config
cfg = record { enabled = true; allow_steal = false; ttl = pos 30 }

abbrev rig : String
rig = "ic7610"

abbrev lease : Lock
lease = record { radio_id = rig; token = "t1"; user = "lzb"; expires_at = 130 }

abbrev taken : Manager
taken = record {
  enabled = true;
  allow_steal = false;
  ttl = 30;
  locks = (rig, record { lock = lease; gen = 1 }) ∷ [];
  gen = 1;
  timers = record { radio = rig; gen = 1; deadline = 130; fired = false } ∷ [];
  has_callback = true;
  expired_calls = [];
}

abbrev entry : Entry
entry = record { lock = lease; gen = 1 }

acquire-taken :
    acquire rig "lzb" false (some "t1") 100 (set_on_expire true (new_manager cfg))
    ≡ ((lease, none), taken)
unfolding acquire set_on_expire new_manager lookup insert
acquire-taken = refl

abbrev Taken : ℕ → System
Taken clock = record { clock = clock; manager = taken }

lookup-taken : lookup rig taken.locks ≡ some entry
unfolding lookup
lookup-taken = refl

check-taken : (check rig "t1" 110 110 111 taken).0 ≡ none
unfolding check lookup token_equal
check-taken = refl

empty : System
empty = record { clock = 0; manager = new_manager cfg }

Reach-taken : Reach cfg 3 (Taken 130)
unfolding empty perform set_on_expire acquire new_manager lookup insert
Reach-taken =
    next
      (next (next (start empty refl) (act empty (setting_callback true))) (
        act (record { clock = 0; manager = set_on_expire true (new_manager cfg) })
          (acquiring rig "lzb" false (some "t1") 100)))
      (tick (Taken 0) 130)

-- The timer fires at 130, and a renewal that read the clock at 129 gets the mutex first.
abbrev raced_lease : Lock
raced_lease = record lease { expires_at = 159 }

abbrev raced : Manager
raced = record taken {
  locks = (rig, record { lock = raced_lease; gen = 2 }) ∷ [];
  gen = 2;
  timers =
      record { radio = rig; gen = 2; deadline = 159; fired = false }
      ∷ record { radio = rig; gen = 1; deadline = 130; fired = true }
      ∷ [];
}

abbrev fired_manager : Manager
fired_manager = record taken {
  timers = record { radio = rig; gen = 1; deadline = 130; fired = true } ∷ [];
}

Reach-raced : Reach cfg 5 (record { clock = 130; manager = raced })
unfolding perform fire renew lookup insert delete token_equal
Reach-raced =
    next (next Reach-taken (fires (Taken 130) rig 1))
      (act (record { clock = 130; manager = fired_manager }) (renewing rig "t1" 129 129))

fired-raced : has_fired rig 1 raced.timers ≡ true
unfolding has_fired
fired-raced = refl

lookup-raced : lookup rig raced.locks ≡ some (record { lock = raced_lease; gen = 2 })
unfolding lookup
lookup-raced = refl

Reach-Inv_example : Inv 130 taken × (taken.gen ≤ 3)
Reach-Inv_example = Reach-Inv cfg Reach-taken (omega arith)

run_callback-held_example :
    StaysHeld rig rig (record { lock = raced_lease; gen = 2 }) raced (run_callback rig 1 raced)
run_callback-held_example =
    run_callback-held cfg rig rig 1 (record { lock = raced_lease; gen = 2 }) Reach-raced
      (omega arith) fired-raced lookup-raced refl

run_callback-due_example :
    (has_fired rig 1 (fire rig 1 130 taken.timers) ≡ true)
    × (lookup rig (run_callback rig 1 (record taken { timers = fire rig 1 130 taken.timers })).locks
        ≡ none)
    × ((run_callback rig 1 (record taken { timers = fire rig 1 130 taken.timers })).expired_calls
        ≡ [] ++ rig ∷ [])
run_callback-due_example =
    run_callback-due cfg rig entry Reach-taken (omega arith) lookup-taken (omega arith) refl

held-taken : HeldBy rig "t1" 110 taken
held-taken = check-ok rig "t1" 110 110 111 taken refl check-taken

check-ok_example : HeldBy rig "t1" 110 taken
check-ok_example = check-ok rig "t1" 110 110 111 taken refl check-taken

abbrev holder : HeldBy rig "t1" 110 taken
holder = record {
  entry = entry;
  found = lookup-taken;
  live = refl;
  own_token = refl;
  some_token = text_ne "t1" "" refl;
}

-- At 130 the lease has ended, so it is no longer in anyone's way.
may_take : MayTake (lookup rig taken.locks) "ham" true 130 taken
unfolding lookup
may_take cur found live ne = ground arith

grant-check_example :
    ((check rig "t2" 140 140 141 (grant rig "ham" "t2" 130 taken).1).0 ≡ none)
    × (◌≢◌ {A = String} "t1" "t2"
        → (check rig "t1" 140 140 141 (grant rig "ham" "t2" 130 taken).1).0 ≢ none)
grant-check_example =
    grant-check rig "ham" "t2" "t1" 130 140 140 141 taken refl (text_ne "t2" "" refl) (omega arith)
      (omega arith)

release-taken : (release rig "t1" taken).0 ≡ none
unfolding release lookup token_equal
release-taken = refl
