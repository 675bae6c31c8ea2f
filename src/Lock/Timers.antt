-- ===== src/Lock/Timers.antt =====
-- The invariant that ties the table of leases to the timers, and the two ways in which an operation
-- of the manager changes them: a lease is installed, or one is removed.
use text.Mathlib.Text.{◌==◌ as str_eq}
use remoses.Prelude.{
  ℕ, ◌+◌, ◌%◌, ◌^◌, ◌≤◌, ◌<◌, String, ◌≡◌, refl, ◌∙◌, ◌≢◌, inl, inr, Bool, true, false, not, ◌&&◌,
  ◌||◌, Option, none, some, List, [], ◌∷◌, arith, eq_iff, ◌==◌, Bool-cases, Option-cases, All,
  All-map,
}
use remoses.Prelude.Maps.{lookup, delete, insert, lookup-delete, lookup-insert}
use remoses.Lock.{Lock, Entry, Timer, Manager, stop, stop_entry, install_locked, remove_locked}

-- Some timer, armed or fired, is that of the lease `gen` of `radio`.
unfoldable pub has_timer : String → ℕ → List Timer → Bool
has_timer radio gen [] = false
has_timer radio gen (t ∷ ts) = (str_eq t.radio radio && t.gen == gen) || has_timer radio gen ts

-- A timer is of a generation that was given out, has fired only past its deadline, and if its
-- generation is that of the radio's lease, its deadline is when that lease ends.
pub record TimerOk (clock gen : ℕ) (locks : List (String × Entry)) (t : Timer) : Type 0 where
  pub given_out : t.gen ≤ gen
  pub due : t.fired ≡ true → t.deadline ≤ clock
  pub ends_lease :
      (e : Entry) → lookup t.radio locks ≡ some e → e.gen ≡ t.gen → t.deadline ≡ e.lock.expires_at

pub record EntryOk (gen : ℕ) (timers : List Timer) (radio : String) (e : Entry) : Type 0 where
  pub entry_given_out : e.gen ≤ gen
  pub own_radio : e.lock.radio_id ≡ radio
  pub timed : has_timer radio e.gen timers ≡ true

pub record Inv (clock : ℕ) (m : Manager) : Type 0 where
  pub entries :
      (radio : String) (e : Entry) → lookup radio m.locks ≡ some e → EntryOk m.gen m.timers radio e
  pub timers : All (TimerOk clock m.gen m.locks) m.timers

pub has_timer-stop :
    (r r' : String) (g g' : ℕ) (ts : List Timer)
    → r ≢ r'
    → has_timer r g (stop r' g' ts) ≡ has_timer r g ts
unfolding has_timer stop
has_timer-stop r r' g g' [] h = refl
has_timer-stop r r' g g' (t ∷ ts) h =
    ground (arith, has_timer-stop r r' g g' ts h, eq_iff t.radio r, eq_iff t.radio r')

pub All-stop :
    (P : Timer → Type 0) (r : String) (g : ℕ) (ts : List Timer) → All P ts → All P (stop r g ts)
unfolding stop
All-stop P r g [] h = h
All-stop P r g (t ∷ ts) (p, h) =
    elim (Bool-cases (not t.fired && (str_eq t.radio r && t.gen == g))) [
      | inl e ↦ rw e (All-stop P r g ts h)
      | inr e ↦ rw e (p, All-stop P r g ts h)
    ]

-- Removing the lease of one radio, with timers that keep those of every other radio.
pub forget-Inv :
    (clock : ℕ) (m : Manager) (r : String) (ts : List Timer)
    → Inv clock m
    → All (TimerOk clock m.gen m.locks) ts
    → ((r' : String) (g : ℕ) → r' ≢ r → has_timer r' g ts ≡ has_timer r' g m.timers)
    → Inv clock (record m { timers = ts; locks = delete r m.locks })
forget-Inv clock m r ts inv ok same = record {
  entries = entries_of;
  timers = All-map _ _ ts keep ok;
}
  where
    keep : (t : Timer) → TimerOk clock m.gen m.locks t → TimerOk clock m.gen (delete r m.locks) t
    keep t h = record {
      given_out = h.given_out;
      due = h.due;
      ends_lease = λ e found g. ground (arith, lookup-delete r t.radio m.locks, h.ends_lease e);
    }

    entries_of :
        (radio : String) (e : Entry)
        → lookup radio (delete r m.locks) ≡ some e
        → EntryOk m.gen ts radio e
    entries_of radio e found =
        let other : radio ≢ r =
          λ p. ground (arith, lookup-delete r radio m.locks, eq_iff r radio) in
        let old = inv.entries radio e (ground (arith, lookup-delete r radio m.locks)) in
        record {
          entry_given_out = old.entry_given_out;
          own_radio = old.own_radio;
          timed = same radio e.gen other ∙ old.timed;
        }

pub remove_locked-Inv :
    (clock : ℕ) (m : Manager) (r : String) → Inv clock m → Inv clock (remove_locked r m)
unfolding remove_locked
remove_locked-Inv clock m r inv = elim (Option-cases (lookup r m.locks)) [
  | inl e ↦ rw e inv
  | inr (x, e) ↦ rw e (
      forget-Inv clock m r _ inv (All-stop _ r x.gen m.timers inv.timers)
        (λ r' g ne. has_timer-stop r' r g x.gen m.timers ne))
]

All-stop_entry :
    (P : Timer → Type 0) (r : String) (o : Option Entry) (ts : List Timer)
    → All P ts
    → All P (stop_entry r o ts)
unfolding stop_entry
All-stop_entry P r none ts h = h
All-stop_entry P r (some e) ts h = All-stop P r e.gen ts h

has_timer-stop_entry :
    (r r' : String) (g : ℕ) (o : Option Entry) (ts : List Timer)
    → r ≢ r'
    → has_timer r g (stop_entry r' o ts) ≡ has_timer r g ts
unfolding stop_entry
has_timer-stop_entry r r' g none ts ne = refl
has_timer-stop_entry r r' g (some e) ts ne = has_timer-stop r r' g e.gen ts ne

-- A lease `l` of the fresh generation `g`, with its timer in front of timers that keep those of every
-- other radio.
module _ (clock : ℕ) (l : Lock) (m : Manager) (g : ℕ) (ts : List Timer) (inv : Inv clock m)
    (fresh : m.gen < g) (ok : All (TimerOk clock m.gen m.locks) ts)
    (same : (r : String) (h : ℕ) → r ≢ l.radio_id → has_timer r h ts ≡ has_timer r h m.timers) where
  abbrev new_timer : Timer
  new_timer = record { radio = l.radio_id; gen = g; deadline = l.expires_at; fired = false }

  abbrev new_locks : List (String × Entry)
  new_locks = insert l.radio_id (record { lock = l; gen = g }) m.locks

  own_timer : TimerOk clock g new_locks new_timer
  own_timer = record {
    given_out = omega arith;
    due = λ f. cc f;
    ends_lease = λ e found same_gen. ground (
      arith,
      lookup-insert l.radio_id l.radio_id (record { lock = l; gen = g }) m.locks,
      eq_iff l.radio_id l.radio_id,
    );
  }

  old_timer : (t : Timer) → TimerOk clock m.gen m.locks t → TimerOk clock g new_locks t
  old_timer t h = record {
    given_out = omega (arith, h.given_out);
    due = h.due;
    ends_lease = λ e found same_gen. ground (
      arith,
      lookup-insert l.radio_id t.radio (record { lock = l; gen = g }) m.locks,
      h.given_out,
      h.ends_lease e,
    );
  }

  installed_entry :
      (radio : String) (e : Entry)
      → lookup radio new_locks ≡ some e
      → EntryOk g (new_timer ∷ ts) radio e
  unfolding has_timer
  installed_entry radio e found = elim (Bool-cases (str_eq l.radio_id radio)) [
    | inl own ↦
        let e_is : e ≡ record { lock = l; gen = g } =
          ground (arith, lookup-insert l.radio_id radio (record { lock = l; gen = g }) m.locks) in
        let r_is : l.radio_id ≡ radio = (eq_iff l.radio_id radio).0 own in
        rw e_is (record { entry_given_out = omega arith; own_radio = r_is; timed = ground arith })
    | inr other ↦
        let old =
          inv.entries radio e (
            ground
              (arith, lookup-insert l.radio_id radio (record { lock = l; gen = g }) m.locks)) in
        let ne : radio ≢ l.radio_id = λ p. ground (arith, eq_iff l.radio_id radio) in
        record {
          entry_given_out = omega (arith, old.entry_given_out);
          own_radio = old.own_radio;
          timed = ground (arith, same radio e.gen ne, old.timed);
        }
  ]

  installed-Inv : Inv clock (record m { gen = g; timers = new_timer ∷ ts; locks = new_locks })
  installed-Inv = record {
    entries = installed_entry;
    timers = (own_timer, All-map _ _ ts old_timer ok);
  }

-- Installing a lease gives it a generation that no timer has, and a timer of its own.
pub install_locked-Inv :
    (clock : ℕ) (l : Lock) (m : Manager)
    → m.gen + 1 < 2 ^ 64
    → Inv clock m
    → Inv clock (install_locked l m)
unfolding install_locked
install_locked-Inv clock l m room inv =
    let found = lookup l.radio_id m.locks in
    installed-Inv clock l m ((m.gen + 1) % 2 ^ 64) (stop_entry l.radio_id found m.timers) inv
      (omega arith) (All-stop_entry _ l.radio_id found m.timers inv.timers)
      (λ r h ne. has_timer-stop_entry r l.radio_id h found m.timers ne)
