-- ===== src/Lock/Expiry.antt =====
-- Expiry is proactive and never early: the two promises of the package comment.
use text.Mathlib.Text.{◌==◌ as str_eq}
use remoses.Prelude.Maps.{lookup, delete, lookup-delete}
use remoses.Prelude.{
  ℕ, ◌^◌, ◌≤◌, ◌<◌, String, ◌≡◌, refl, sym, ap, ◌∙◌, ◌≢◌, inl, inr, true, false, ◌&&◌, none, some,
  List, [], ◌∷◌, ◌++◌, arith, eq_iff, ◌==◌, Bool-cases, Option-cases, ==_iff, All, All-map,
}
use remoses.Lock.{Entry, Timer, Config, Manager, held}
use remoses.Lock.Timers.{has_timer, Inv}
use remoses.Lock.System.{System, has_fired, fire, run_callback, Reach}
use remoses.Lock.Leases.{Reach-Inv, run_callback-own, run_callback-lost}

fired_one :
    (P : Timer → Type 0) (r : String) (g : ℕ) (ts : List Timer)
    → has_fired r g ts ≡ true
    → All P ts
    → (t : Timer) × (t.fired ≡ true) × (t.radio ≡ r) × (t.gen ≡ g) × P t
unfolding has_fired
fired_one P r g [] h ok = cc
fired_one P r g (t ∷ ts) h (p, ok) =
    elim (Bool-cases (t.fired && (str_eq t.radio r && t.gen == g))) [
      | inl e ↦ (t, ground arith, ground (arith, eq_iff t.radio r), ground arith, p)
      | inr e ↦ fired_one P r g ts (ground arith) ok
    ]

has_fired-fire :
    (r : String) (g now : ℕ) (ts : List Timer)
    → has_timer r g ts ≡ true
    → All (λ t. t.radio ≡ r → t.gen ≡ g → t.deadline ≤ now) ts
    → has_fired r g (fire r g now ts) ≡ true
unfolding has_timer has_fired fire
has_fired-fire r g now [] h ok = cc
has_fired-fire r g now (t ∷ ts) h (p, ok) =
    ground (arith, p, eq_iff t.radio r, has_fired-fire r g now ts)

-- A callback that finds its own lease finds one that has ended.
fired-over :
    (clock : ℕ) (m : Manager) (r : String) (x : Entry)
    → Inv clock m
    → has_fired r x.gen m.timers ≡ true
    → lookup r m.locks ≡ some x
    → x.lock.expires_at ≤ clock
fired-over clock m r x inv fired found =
    let (t, is_fired, own_radio, own_gen, ok) = fired_one _ r x.gen m.timers fired inv.timers in
    omega (arith, ok.due is_fired, ok.ends_lease x (rw own_radio found) (sym own_gen))

-- The state behind one callback, beside a lease that is held.
abbrev pub StaysHeld : String → String → Entry → Manager → Manager → Type 0
StaysHeld radio other e m m' =
    (lookup radio m'.locks ≡ some e) × (other ≡ radio → m'.expired_calls ≡ m.expired_calls)

-- An expiry callback may get the mutex late, after a renewal or a steal. Whatever callback runs, in
-- any state reached in fewer than 2 ^ 64 steps, a lease that is still held stays in the table, and a
-- callback of its own radio calls nothing.
pub run_callback-held :
    (cfg : Config) {n : ℕ} {s : System} (radio other : String) (gen : ℕ) (e : Entry)
    → Reach cfg n s
    → n < 2 ^ 64
    → has_fired other gen s.manager.timers ≡ true
    → lookup radio s.manager.locks ≡ some e
    → held e.lock s.clock ≡ true
    → StaysHeld radio other e s.manager (run_callback other gen s.manager)
run_callback-held cfg {s = s} radio other gen e r small fired found live =
    elim (Option-cases (lookup other s.manager.locks)) [
      | inl nothing ↦
          rw (run_callback-lost s.manager other gen (λ x f. absurd (cc_none x f nothing)))
            (found, λ _. refl)
      | inr (x, there) ↦ elim (Bool-cases (x.gen == gen)) [
        | inl own ↦
            let gen_is : x.gen ≡ gen = (==_iff x.gen gen).0 own in
            let (inv, _) = Reach-Inv cfg r small in
            let over = fired-over s.clock s.manager other x inv (rw gen_is fired) there in
            let apart : other ≢ radio = λ p. not_both x p there over in
            rw (sym gen_is) (
              rw (run_callback-own s.manager other x there)
                (kept_by_delete apart, λ p. absurd (apart p)))
        | inr differs ↦
            rw (run_callback-lost s.manager other gen (λ y f. other_gen x y there f differs))
              (found, λ _. refl)
      ]
    ]
  where
    cc_none :
        (x : Entry)
        → lookup other s.manager.locks ≡ some x
        → lookup other s.manager.locks ≡ none
        → ⊥
    cc_none x f h = cc

    not_both :
        (x : Entry)
        → other ≡ radio
        → lookup other s.manager.locks ≡ some x
        → x.lock.expires_at ≤ s.clock
        → ⊥
    not_both x p there over =
        let same : lookup other s.manager.locks ≡ some e = rw p found in ground arith

    kept_by_delete : other ≢ radio → lookup radio (delete other s.manager.locks) ≡ some e
    kept_by_delete ne =
        ground (arith, lookup-delete other radio s.manager.locks, eq_iff other radio)

    other_gen :
        (x y : Entry)
        → lookup other s.manager.locks ≡ some x
        → lookup other s.manager.locks ≡ some y
        → (x.gen == gen) ≡ false
        → y.gen ≢ gen
    other_gen x y f h d p = ground arith

-- No lease outlives its time: once the clock has passed its end, its timer can fire with no request
-- coming in, and the callback then removes the lease and calls the installed function with its radio.
pub run_callback-due :
    (cfg : Config) {n : ℕ} {s : System} (radio : String) (e : Entry)
    → Reach cfg n s
    → n < 2 ^ 64
    → lookup radio s.manager.locks ≡ some e
    → e.lock.expires_at ≤ s.clock
    → s.manager.has_callback ≡ true
    → (has_fired radio e.gen (fire radio e.gen s.clock s.manager.timers) ≡ true)
      × (lookup radio
            (run_callback radio e.gen
              (record (s.manager) { timers = fire radio e.gen s.clock s.manager.timers })).locks
          ≡ none)
      × ((run_callback radio e.gen (record (s.manager) {
        timers = fire radio e.gen s.clock s.manager.timers;
      })).expired_calls
          ≡ s.manager.expired_calls ++ radio ∷ [])
run_callback-due cfg {s = s} radio e r small found over callback =
    let (inv, _) = Reach-Inv cfg r small in
    (
      has_fired-fire radio e.gen s.clock s.manager.timers (inv.entries radio e found).timed (
          All-map _ _ s.manager.timers
            (λ t ok own_radio own_gen.
              omega (arith, ok.ends_lease e (rw own_radio found) (sym own_gen)))
            inv.timers),
      ap (λ (m : Manager). lookup radio m.locks) (run_callback-own fires_now radio e found)
          ∙ ground (arith, lookup-delete radio radio s.manager.locks, eq_iff radio radio),
      ap (λ (m : Manager). m.expired_calls) (run_callback-own fires_now radio e found)
          ∙ rw callback,
    )
  where
    fires_now : Manager
    fires_now = record (s.manager) { timers = fire radio e.gen s.clock s.manager.timers }
