-- ===== src/Lock/System.antt =====
-- The manager among its timers: every interleaving of API calls, of the clock, of timers that fire
-- and of expiry callbacks that get the mutex late. A call's clock readings are free, so that a timer
-- may fire while the call runs.
use text.Mathlib.Text.{◌==◌ as str_eq}
use remoses.Prelude.{
  ℕ, zero, suc, ◌+◌, String, ◌≡◌, Bool, true, false, ◌&&◌, ◌||◌, Option, List, [], ◌∷◌, leb, ◌==◌,
  if◌then◌else◌,
}
use remoses.Lock.{
  Timer, Config, Manager, new_manager, set_on_expire, acquire, renew, release, check, inspect,
  close, expire,
}

pub data Action : Type 0 where
  acquiring : String → String → Bool → Option String → ℕ → Action
  renewing : String → String → ℕ → ℕ → Action
  releasing : String → String → Action
  checking : String → String → ℕ → ℕ → ℕ → Action
  inspecting : String → ℕ → Action
  setting_callback : Bool → Action
  closing : Action

unfoldable pub perform : Action → Manager → Manager
perform (acquiring radio user force tok now) m = (acquire radio user force tok now m).1
perform (renewing radio token t1 t2) m = (renew radio token t1 t2 m).1
perform (releasing radio token) m = (release radio token m).1
perform (checking radio token t1 t2 t3) m = (check radio token t1 t2 t3 m).1
perform (inspecting radio now) m = (inspect radio now m).1
perform (setting_callback installed) m = set_on_expire installed m
perform closing m = close m

-- Whether a timer of this lease has fired and its callback still waits.
unfoldable pub has_fired : String → ℕ → List Timer → Bool
has_fired radio gen [] = false
has_fired radio gen (t ∷ ts) =
    (t.fired && (str_eq t.radio radio && t.gen == gen)) || has_fired radio gen ts

-- The timer of a lease fires, if it is due.
unfoldable pub fire : String → ℕ → ℕ → List Timer → List Timer
fire radio gen now [] = []
fire radio gen now (t ∷ ts) =
    (if str_eq t.radio radio && t.gen == gen && leb t.deadline now
      then record t { fired = true }
      else t)
    ∷ fire radio gen now ts

-- Its callback leaves the list of those that wait.
unfoldable pub take_fired : String → ℕ → List Timer → List Timer
take_fired radio gen [] = []
take_fired radio gen (t ∷ ts) =
    let rest = take_fired radio gen ts in
    if t.fired && (str_eq t.radio radio && t.gen == gen) then rest else t ∷ rest

pub record System : Type 0 where
  pub clock : ℕ
  pub manager : Manager

unfoldable pub run_callback : String → ℕ → Manager → Manager
run_callback radio gen m = expire radio gen (record m { timers = take_fired radio gen m.timers })

pub data Step : System → System → Type 0 where
  act : (s : System) (a : Action) → Step s (record s { manager = perform a s.manager })
  tick : (s : System) (n : ℕ) → Step s (record s { clock = s.clock + n })
  fires :
      (s : System) (radio : String) (gen : ℕ)
      → Step s (record s {
        manager = record (s.manager) { timers = fire radio gen s.clock s.manager.timers };
      })
  runs :
      (s : System) (radio : String) (gen : ℕ)
      → has_fired radio gen s.manager.timers ≡ true
      → Step s (record s { manager = run_callback radio gen s.manager })

-- Reached from a new manager by `n` steps.
pub data Reach (cfg : Config) : ℕ → System → Type 0 where
  start : (s : System) → s.manager ≡ new_manager cfg → Reach cfg zero s
  next : {n : ℕ} {s t : System} → Reach cfg n s → Step s t → Reach cfg (suc n) t
