-- ===== src/Lock.antt =====
-- The per-radio advisory locks (internal/lock/lock.go).
--
-- Instants and durations are natural numbers of nanoseconds. `m.mu` is held through each operation,
-- so an operation is a function of the manager; every `time.Now()` it makes is an argument of its
-- own, in the order of the calls. A token comes from the random source as an argument, `none` where
-- reading that source failed. A Go timer is an element of `timers`: it is armed, and once its
-- deadline has passed it may have fired, which means that its callback waits for the mutex.
-- `Stop` removes an armed timer and does nothing to one that has fired. The goroutines that
-- `expire` starts for the callback are the list `expired_calls`. Log lines and the texts of the
-- errors, which only name the holder, are left out.
pub mod Timers
pub mod System
pub mod Keeps
pub mod Leases
pub mod Expiry
pub mod Clients
pub mod Acquire
pub mod Tests
use text.Mathlib.Text.{◌==◌ as str_eq}
use remoses.Prelude.Int.{ℤ, positive_or}
use remoses.Prelude.Maps.{lookup, insert, delete}
use remoses.Prelude.{
  ℕ, ◌+◌, ◌%◌, ◌^◌, String, Bool, true, false, not, ◌&&◌, ◌||◌, Option, none, some, List, [], ◌∷◌,
  ◌++◌, ltb, ◌==◌, if◌then◌else◌,
}

pub data Error : Type 0 where
  held_by_other no_lock bad_token lease_expired no_random : Error

abbrev pub default_ttl : ℕ
default_ttl = 30_000_000_000

pub record Lock : Type 0 where
  pub radio_id : String
  pub token : String
  pub user : String
  pub expires_at : ℕ

-- `Lock{}`
abbrev pub no_lease : Lock
no_lease = record { radio_id = ""; token = ""; user = ""; expires_at = 0 }

abbrev pub held : Lock → ℕ → Bool
held l now = ltb now l.expires_at

pub record Entry : Type 0 where
  pub lock : Lock
  pub gen : ℕ

pub record Timer : Type 0 where
  pub radio : String
  pub gen : ℕ
  pub deadline : ℕ
  pub fired : Bool

pub record Config : Type 0 where
  pub enabled : Bool
  pub allow_steal : Bool
  pub ttl : ℤ

pub record Manager : Type 0 where
  pub enabled : Bool
  pub allow_steal : Bool
  pub ttl : ℕ
  pub locks : List (String × Entry)
  pub gen : ℕ
  pub timers : List Timer
  pub has_callback : Bool
  pub expired_calls : List String

unfoldable pub new_manager : Config → Manager
new_manager cfg = record {
  enabled = cfg.enabled;
  allow_steal = cfg.allow_steal;
  ttl = positive_or default_ttl cfg.ttl;
  locks = [];
  gen = 0;
  timers = [];
  has_callback = false;
  expired_calls = [];
}

unfoldable pub set_on_expire : Bool → Manager → Manager
set_on_expire installed m = record m { has_callback = installed }

unfoldable pub public : Lock → Lock
public l = record l { token = "" }

-- `subtle.ConstantTimeCompare` answers whether the two byte strings are equal.
unfoldable pub token_equal : String → String → Bool
token_equal want got = if str_eq want "" || str_eq got "" then false else str_eq want got

-- `timer.Stop()` on the timer of the lease `gen` of `radio`.
pub stop : String → ℕ → List Timer → List Timer
stop radio gen [] = []
stop radio gen (t ∷ ts) =
    let rest = stop radio gen ts in
    if not t.fired && (str_eq t.radio radio && t.gen == gen) then rest else t ∷ rest

pub stop_entry : String → Option Entry → List Timer → List Timer
stop_entry radio none ts = ts
stop_entry radio (some e) ts = stop radio e.gen ts

-- `installLocked`; `m.gen` is a `uint64`.
pub install_locked : Lock → Manager → Manager
unfolding stop stop_entry
install_locked l m =
    let stopped = stop_entry l.radio_id (lookup l.radio_id m.locks) m.timers in
    let gen = (m.gen + 1) % 2 ^ 64 in
    record m {
      gen = gen;
      timers =
          record { radio = l.radio_id; gen = gen; deadline = l.expires_at; fired = false }
          ∷ stopped;
      locks = insert l.radio_id (record { lock = l; gen = gen }) m.locks;
    }

-- `removeLocked`, with the entry that its lookup finds.
pub remove_entry : String → Option Entry → Manager → Manager
remove_entry radio none m = m
remove_entry radio (some e) m = record m {
  timers = stop radio e.gen m.timers;
  locks = delete radio m.locks;
}

pub remove_locked : String → Manager → Manager
unfolding remove_entry stop
remove_locked radio m = remove_entry radio (lookup radio m.locks) m

-- The part of `Acquire` behind its guards.
pub grant : String → String → String → ℕ → Manager → (Lock × Option Error) × Manager
unfolding install_locked
grant radio user tok now m =
    let l : Lock = record {
      radio_id = radio;
      token = tok;
      user = user;
      expires_at = now + m.ttl;
    } in
    ((l, none), install_locked l m)

-- `Acquire` on what the map holds for the radio.
pub acquire_over :
    Option Entry → String → String → Bool → String → ℕ → Manager → (Lock × Option Error) × Manager
unfolding grant
acquire_over none radio user force tok now m = grant radio user tok now m
acquire_over (some cur) radio user force tok now m =
    if held cur.lock now && not (str_eq cur.lock.user user)
    then (if not force
        then ((public cur.lock, some held_by_other), m)
        else if not m.allow_steal
        then ((public cur.lock, some held_by_other), m)
        else grant radio user tok now m)
    else grant radio user tok now m

unfoldable pub acquire :
    String → String → Bool → Option String → ℕ → Manager → (Lock × Option Error) × Manager
unfolding acquire_over
acquire radio user force none now m = ((no_lease, some no_random), m)
acquire radio user force (some tok) now m =
    acquire_over (lookup radio m.locks) radio user force tok now m

-- `renewLocked`: it reads the clock for the test and again for the new lease.
pub renew_entry : Option Entry → String → String → ℕ → ℕ → Manager → (Lock × Option Error) × Manager
unfolding install_locked remove_locked
renew_entry none radio token t1 t2 m = ((no_lease, some no_lock), m)
renew_entry (some e) radio token t1 t2 m =
    if not (held e.lock t1)
    then ((no_lease, some lease_expired), remove_locked radio m)
    else if not (token_equal e.lock.token token)
    then ((no_lease, some bad_token), m)
    else (let l = record (e.lock) { expires_at = t2 + m.ttl } in ((l, none), install_locked l m))

unfoldable pub renew : String → String → ℕ → ℕ → Manager → (Lock × Option Error) × Manager
unfolding renew_entry
renew radio token t1 t2 m = renew_entry (lookup radio m.locks) radio token t1 t2 m

pub release_entry : Option Entry → String → String → Manager → Option Error × Manager
unfolding remove_locked
release_entry none radio token m = (some no_lock, m)
release_entry (some e) radio token m =
    if not (token_equal e.lock.token token)
    then (some bad_token, m)
    else (none, remove_locked radio m)

unfoldable pub release : String → String → Manager → Option Error × Manager
unfolding release_entry
release radio token m = release_entry (lookup radio m.locks) radio token m

-- `Check` reads the clock once, and `renewLocked` twice more.
pub check_entry : Option Entry → String → String → ℕ → ℕ → ℕ → Manager → Option Error × Manager
unfolding renew remove_locked
check_entry none radio token t1 t2 t3 m = (some no_lock, m)
check_entry (some e) radio token t1 t2 t3 m =
    if not (held e.lock t1)
    then (some lease_expired, remove_locked radio m)
    else if str_eq token ""
    then (some no_lock, m)
    else if not (token_equal e.lock.token token)
    then (some held_by_other, m)
    else (let (result, m') = renew radio token t2 t3 m in (result.1, m'))

unfoldable pub check : String → String → ℕ → ℕ → ℕ → Manager → Option Error × Manager
unfolding check_entry
check radio token t1 t2 t3 m =
    if not m.enabled then (none, m) else check_entry (lookup radio m.locks) radio token t1 t2 t3 m

pub holder_entry : Option Entry → String → ℕ → Bool
holder_entry none token now = false
holder_entry (some e) token now =
    if not (held e.lock now) then false else token_equal e.lock.token token

unfoldable pub is_holder : String → String → ℕ → Manager → Bool
unfolding holder_entry
is_holder radio token now m =
    if str_eq token "" then false else holder_entry (lookup radio m.locks) token now

pub inspect_entry : Option Entry → String → ℕ → Manager → (Lock × Bool) × Manager
unfolding remove_locked
inspect_entry none radio now m = ((no_lease, false), m)
inspect_entry (some e) radio now m =
    if not (held e.lock now)
    then ((no_lease, false), remove_locked radio m)
    else ((public e.lock, true), m)

unfoldable pub inspect : String → ℕ → Manager → (Lock × Bool) × Manager
unfolding inspect_entry
inspect radio now m = inspect_entry (lookup radio m.locks) radio now m

-- The loop of `Close`: every entry is stopped and deleted.
pub close_all : List (String × Entry) → Manager → Manager
unfolding stop
close_all [] m = m
close_all ((radio, e) ∷ rest) m =
    close_all rest (record m { timers = stop radio e.gen m.timers; locks = delete radio m.locks })

unfoldable pub close : Manager → Manager
unfolding close_all
close m = close_all m.locks m

-- `expire`, on the entry that its lookup finds.
pub expire_entry : Option Entry → String → ℕ → Manager → Manager
expire_entry none radio gen m = m
expire_entry (some e) radio gen m =
    if not (e.gen == gen)
    then m
    else (let m' = record m { timers = stop radio e.gen m.timers; locks = delete radio m.locks } in
        if m'.has_callback
        then record m' { expired_calls = m'.expired_calls ++ radio ∷ [] }
        else m')

unfoldable pub expire : String → ℕ → Manager → Manager
unfolding expire_entry stop
expire radio gen m = expire_entry (lookup radio m.locks) radio gen m
