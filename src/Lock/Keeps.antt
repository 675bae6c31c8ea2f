-- ===== src/Lock/Keeps.antt =====
-- Every operation of the manager keeps the invariant of `Timers`, on every branch.
use remoses.Prelude.Maps.{lookup}
use remoses.Prelude.{
  ℕ, ◌+◌, ◌^◌, ◌≤◌, ◌<◌, String, ◌≡◌, refl, inl, inr, Bool, true, false, not, Option, none, some,
  List, [], ◌∷◌, arith, if◌then◌else◌, Option-cases,
}
use remoses.Lock.{
  Lock, Entry, Manager, set_on_expire, lease_expired, acquire, acquire_over, grant, renew,
  renew_entry, release, release_entry, check, check_entry, inspect, inspect_entry, close, close_all,
  install_locked, remove_locked, held,
}
use remoses.Lock.Timers.{
  Inv, has_timer-stop, All-stop, forget-Inv, remove_locked-Inv, install_locked-Inv,
}
use remoses.Lock.System.{
  Action, acquiring, renewing, releasing, checking, inspecting, setting_callback, closing, perform,
}

-- What an operation keeps: the invariant, and at most one generation is given out.
pub record Keeps (clock : ℕ) (m m' : Manager) : Type 0 where
  pub inv : Inv clock m'
  pub one_gen : m'.gen ≤ m.gen + 1

Keeps-same : (clock : ℕ) (m : Manager) → Inv clock m → Keeps clock m m
Keeps-same clock m inv = record { inv = inv; one_gen = omega arith }

install_locked-Keeps :
    (clock : ℕ) (l : Lock) (m : Manager)
    → m.gen + 1 < 2 ^ 64
    → Inv clock m
    → Keeps clock m (install_locked l m)
install_locked-Keeps clock l m room inv = record {
  inv = install_locked-Inv clock l m room inv;
  one_gen = unfold install_locked in omega arith;
}

gen-remove_locked : (r : String) (m : Manager) → (remove_locked r m).gen ≡ m.gen
unfolding remove_locked
gen-remove_locked r m = elim (Option-cases (lookup r m.locks)) [ inl e ↦ rw e | inr (x, e) ↦ rw e ]

remove_locked-Keeps :
    (clock : ℕ) (r : String) (m : Manager) → Inv clock m → Keeps clock m (remove_locked r m)
remove_locked-Keeps clock r m inv = record {
  inv = remove_locked-Inv clock m r inv;
  one_gen = omega (arith, gen-remove_locked r m);
}

-- The same of an operation's result and manager together.
record KeepsBy {R : Type 0} (clock : ℕ) (m : Manager) (x : R × Manager) : Type 0 where
  kept : Keeps clock m x.1

by-Keeps :
    {R : Type 0} (clock : ℕ) (m : Manager) (x : R × Manager) → Keeps clock m x.1 → KeepsBy clock m x
by-Keeps clock m x h = record { kept = h }

KeepsBy-if :
    {R : Type 0} (clock : ℕ) (m : Manager) (t : Bool) (x y : R × Manager)
    → KeepsBy clock m x
    → KeepsBy clock m y
    → KeepsBy clock m (if t then x else y)
KeepsBy-if clock m true x y h k = h
KeepsBy-if clock m false x y h k = k

module _ (clock : ℕ) (m : Manager) (room : m.gen + 1 < 2 ^ 64) (inv : Inv clock m) where
  unchanged : {R : Type 0} (r : R) → KeepsBy clock m (r, m)
  unchanged r = by-Keeps clock m (r, m) (Keeps-same clock m inv)

  removed : {R : Type 0} (r : R) (radio : String) → KeepsBy clock m (r, remove_locked radio m)
  removed r radio =
      by-Keeps clock m (r, remove_locked radio m) (remove_locked-Keeps clock radio m inv)

  installed : {R : Type 0} (r : R) (l : Lock) → KeepsBy clock m (r, install_locked l m)
  installed r l = by-Keeps clock m (r, install_locked l m) (install_locked-Keeps clock l m room inv)

  grant-Keeps : (radio user tok : String) (now : ℕ) → KeepsBy clock m (grant radio user tok now m)
  unfolding grant
  grant-Keeps radio user tok now = installed _ _

  acquire_over-Keeps :
      (o : Option Entry) (radio user : String) (force : Bool) (tok : String) (now : ℕ)
      → KeepsBy clock m (acquire_over o radio user force tok now m)
  unfolding acquire_over
  acquire_over-Keeps none radio user force tok now = search (unchanged, grant-Keeps)
  acquire_over-Keeps (some cur) radio user force tok now =
      search (KeepsBy-if, unchanged, removed, grant-Keeps)

  renew_entry-Keeps :
      (o : Option Entry) (radio token : String) (t1 t2 : ℕ)
      → KeepsBy clock m (renew_entry o radio token t1 t2 m)
  unfolding renew_entry
  renew_entry-Keeps none radio token t1 t2 = search (unchanged)
  renew_entry-Keeps (some e) radio token t1 t2 = search (KeepsBy-if, unchanged, removed, installed)

  release_entry-Keeps :
      (o : Option Entry) (radio token : String) → KeepsBy clock m (release_entry o radio token m)
  unfolding release_entry
  release_entry-Keeps none radio token = search (unchanged)
  release_entry-Keeps (some e) radio token = search (KeepsBy-if, unchanged, removed)

  renewed :
      {R : Type 0} (r : R) (radio token : String) (t1 t2 : ℕ)
      → KeepsBy clock m (r, (renew radio token t1 t2 m).1)
  renewed r radio token t1 t2 =
      by-Keeps clock m (r, (renew radio token t1 t2 m).1)
        (unfold renew in (renew_entry-Keeps (lookup radio m.locks) radio token t1 t2).kept)

  check_entry-Keeps :
      (o : Option Entry) (radio token : String) (t1 t2 t3 : ℕ)
      → KeepsBy clock m (check_entry o radio token t1 t2 t3 m)
  unfolding check_entry
  check_entry-Keeps none radio token t1 t2 t3 = search (unchanged)
  check_entry-Keeps (some e) radio token t1 t2 t3 =
      KeepsBy-if clock m (not (held e.lock t1)) (some lease_expired, remove_locked radio m) _
        (search (removed)) (search (KeepsBy-if, unchanged, renewed))

  check-Keeps :
      (radio token : String) (t1 t2 t3 : ℕ) → KeepsBy clock m (check radio token t1 t2 t3 m)
  unfolding check
  check-Keeps radio token t1 t2 t3 = search (KeepsBy-if, unchanged, check_entry-Keeps)

  inspect_entry-Keeps :
      (o : Option Entry) (radio : String) (now : ℕ) → KeepsBy clock m (inspect_entry o radio now m)
  unfolding inspect_entry
  inspect_entry-Keeps none radio now = search (unchanged)
  inspect_entry-Keeps (some e) radio now = search (KeepsBy-if, unchanged, removed)

close_all-Keeps :
    (clock : ℕ) (es : List (String × Entry)) (m : Manager)
    → Inv clock m
    → Inv clock (close_all es m) × ((close_all es m).gen ≡ m.gen)
unfolding close_all
close_all-Keeps clock [] m inv = (inv, refl)
close_all-Keeps clock ((r, e) ∷ es) m inv = close_all-Keeps clock es _ (
    forget-Inv clock m r _ inv (All-stop _ r e.gen m.timers inv.timers)
      (λ r' g ne. has_timer-stop r' r g e.gen m.timers ne))

pub perform-Keeps :
    (clock : ℕ) (m : Manager) (a : Action)
    → m.gen + 1 < 2 ^ 64
    → Inv clock m
    → Keeps clock m (perform a m)
unfolding perform acquire renew release check inspect close set_on_expire
perform-Keeps clock m (acquiring radio user force none now) room inv = Keeps-same clock m inv
perform-Keeps clock m (acquiring radio user force (some tok) now) room inv =
    (acquire_over-Keeps clock m room inv (lookup radio m.locks) radio user force tok now).kept
perform-Keeps clock m (renewing radio token t1 t2) room inv =
    (renew_entry-Keeps clock m room inv (lookup radio m.locks) radio token t1 t2).kept
perform-Keeps clock m (releasing radio token) room inv =
    (release_entry-Keeps clock m room inv (lookup radio m.locks) radio token).kept
perform-Keeps clock m (checking radio token t1 t2 t3) room inv =
    (check-Keeps clock m room inv radio token t1 t2 t3).kept
perform-Keeps clock m (inspecting radio now) room inv =
    (inspect_entry-Keeps clock m room inv (lookup radio m.locks) radio now).kept
perform-Keeps clock m (setting_callback installed) room inv = record {
  inv = record { entries = inv.entries; timers = inv.timers };
  one_gen = omega arith;
}
perform-Keeps clock m closing room inv =
    let (kept, gen) = close_all-Keeps clock m.locks m inv in
    record { inv = kept; one_gen = omega arith }
