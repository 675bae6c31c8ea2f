-- ===== src/Rig/Patch/Parts.antt =====
-- How parts of a transaction add to what was done.
use mathlib.Core.Path.{subst}
use remoses.Prelude.{
  ℕ, ◌≤◌, ◌≡◌, refl, Bool, true, false, Option, none, some, List, [], ◌∷◌, arith, All,
}
use remoses.Rig.Patch.{Fault}
use remoses.Rig.Patch.Apply.{
  Action, act, armed, Command, set_ptt, exchange_bands, select_vfo_mode, set_vfo_mode, set_mode,
  set_vfo_frequency, set_frequency, set_filter_slot, set_filter_width, set_power, set_attenuator,
  set_preamp, set_noise_blanker, set_noise_reduction, set_antenna, set_ip_plus, set_digi_sel,
  set_auto_notch, set_notch, set_rx_antenna, set_proc, set_digi_sel_shift, set_rf_gain,
  set_nb_level, set_nr_level, set_notch_freq, set_tx_audio_gain, set_proc_level, set_agc,
  set_notch_width, set_break_in, set_split, set_dual_watch, set_tuner, start_tune, sent,
  polled_slow, polled_fast, World, Part, skip, go_on, ◌then◌, for_set, only_if, send, read_tier,
}

-- The place of a command in the order: what shapes the receiver first, what transmits last.
abbrev pub rank {ℓ} : {F : Type ℓ} → Command F → ℕ
rank exchange_bands = 1
rank (select_vfo_mode v) = 2
rank (set_vfo_mode v m d n) = 3
rank (set_mode m d) = 3
rank (set_vfo_frequency v hz) = 4
rank (set_frequency v hz) = 4
rank (set_filter_slot n) = 5
rank (set_filter_width n) = 6
rank (set_power p) = 7
rank (set_attenuator n) = 8
rank (set_preamp n) = 9
rank (set_ip_plus b) = 10
rank (set_digi_sel b) = 11
rank (set_digi_sel_shift x) = 12
rank (set_agc a) = 13
rank (set_rf_gain x) = 14
rank (set_noise_blanker n) = 15
rank (set_nb_level x) = 16
rank (set_noise_reduction n) = 17
rank (set_nr_level x) = 18
rank (set_auto_notch b) = 19
rank (set_notch b) = 20
rank (set_notch_width a) = 21
rank (set_notch_freq x) = 22
rank (set_antenna n) = 23
rank (set_rx_antenna b) = 24
rank (set_tx_audio_gain x) = 25
rank (set_proc b) = 26
rank (set_proc_level x) = 27
rank (set_break_in a) = 28
rank (set_split b) = 29
rank (set_dual_watch b) = 30
rank (set_tuner b) = 31
rank (set_ptt b) = 32
rank start_tune = 33

module _ {ℓ} {F : Type ℓ} where
  -- A command of a place up to `n`, or no command.
  abbrev pub Before : ℕ → Action F → Type 0
  Before n (sent c) = rank c ≤ n
  Before n polled_slow = Unit
  Before n polled_fast = Unit
  Before n armed = Unit

  -- Each command has the ones of its own place or an earlier one behind it, the newest first.
  abbrev pub Ordered : List (Action F) → Type 0
  Ordered [] = Unit
  Ordered (sent c ∷ log) = All (Before (rank c)) log × Ordered log
  Ordered (polled_slow ∷ log) = Ordered log
  Ordered (polled_fast ∷ log) = Ordered log
  Ordered (armed ∷ log) = Ordered log

  Before-mono : (a b : ℕ) → a ≤ b → (x : Action F) → Before a x → Before b x
  Before-mono a b le (sent c) h = omega arith
  Before-mono a b le polled_slow h = tt
  Before-mono a b le polled_fast h = tt
  Before-mono a b le armed h = tt

module _ {ℓ} {F : Type ℓ} (Allowed : Command F → Type 0) where
  abbrev pub AllowedAction : Action F → Type 0
  AllowedAction (sent c) = Allowed c
  AllowedAction polled_slow = Unit
  AllowedAction polled_fast = Unit
  AllowedAction armed = Unit

  -- What was done is in order, goes up to a place, and is allowed.
  abbrev pub Fine : ℕ → List (Action F) → Type 0
  Fine n log = Ordered log × All (Before n) log × All AllowedAction log

  abbrev pub Moves : ℕ → ℕ → Part F → Type ℓ
  Moves a b m = (log : List (Action F)) → Fine a log → Fine b (m log).1

  pub Fine-mono : (a b : ℕ) (log : List (Action F)) → a ≤ b → Fine a log → Fine b log
  Fine-mono a b log le (order, upto, allowed) = (order, raise log upto, allowed)
    where
      raise : (l : List (Action F)) → All (Before a) l → All (Before b) l
      raise [] h = tt
      raise (x ∷ l) (h, k) = (Before-mono a b le x h, raise l k)

  pub skip-Moves : (a b : ℕ) → a ≤ b → Moves a b skip
  skip-Moves a b le log h = Fine-mono a b log le h

  pub go_on-Moves :
      (a b : ℕ) (k : Part F) (r : Option Fault × List (Action F))
      → a ≤ b
      → Moves a b k
      → Fine a r.1
      → Fine b (go_on k r).1
  go_on-Moves a b k (none, log) le h f = h log f
  go_on-Moves a b k (some e, log) le h f = Fine-mono a b log le f

  pub then-Moves :
      (a b c : ℕ) (m k : Part F) → b ≤ c → Moves a b m → Moves b c k → Moves a c (m then k)
  then-Moves a b c m k le h h' log f = go_on-Moves b c k (m log) le h' (h log f)

  pub for_set-Moves {κ} :
      {A : Type κ} (a b : ℕ) (o : Option A) (f : A → Part F)
      → a ≤ b
      → ((v : A) → o ≡ some v → Moves a b (f v))
      → Moves a b (for_set o f)
  for_set-Moves a b none f le h = skip-Moves a b le
  for_set-Moves a b (some v) f le h = h v refl

  pub only_if-Moves :
      (a b : ℕ) (t : Bool) (m : Part F) → a ≤ b → Moves a b m → Moves a b (only_if t m)
  only_if-Moves a b true m le h = h
  only_if-Moves a b false m le h = skip-Moves a b le

  module _ (w : World F) where
    pub send-Moves : (a : ℕ) (c : Command F) → a ≤ rank c → Allowed c → Moves a (rank c) (send w c)
    unfolding act
    send-Moves a c le ok log (order, upto, allowed) =
        let (order', upto', allowed') = Fine-mono a (rank c) log le (order, upto, allowed) in
        ((upto', order), (omega arith, upto'), (ok, allowed))

    pub placed-Moves :
        (a b : ℕ) (c : Command F) → a ≤ b → rank c ≡ b → Allowed c → Moves a b (send w c)
    placed-Moves a b c le place ok =
        subst (λ n. Moves a n (send w c)) place (send-Moves a c (omega arith) ok)

    -- A field that is sent if it is set.
    pub field-Moves {κ} :
        {A : Type κ} (a b : ℕ) (o : Option A) (c : A → Command F)
        → a ≤ b
        → ((v : A) → rank (c v) ≡ b)
        → ((v : A) → o ≡ some v → Allowed (c v))
        → Moves a b (for_set o (λ v. send w (c v)))
    field-Moves a b none c le place ok = skip-Moves a b le
    field-Moves a b (some v) c le place ok = placed-Moves a b (c v) le (place v) (ok v refl)

    pub field_then-Moves {κ} :
        {A : Type κ} (a b z : ℕ) (o : Option A) (c : A → Command F) (k : Part F)
        → a ≤ b
        → b ≤ z
        → ((v : A) → rank (c v) ≡ b)
        → ((v : A) → o ≡ some v → Allowed (c v))
        → Moves b z k
        → Moves a z (for_set o (λ v. send w (c v)) then k)
    field_then-Moves a b z o c k le le' place ok next =
        then-Moves a b z _ k le' (field-Moves a b o c le place ok) next

    pub read_tier-Moves :
        (n : ℕ) (tier : Action F)
        → Before n tier
        → AllowedAction tier
        → ((log : List (Action F)) → Ordered log → Ordered (tier ∷ log))
        → Moves n n (read_tier w tier)
    unfolding read_tier
    read_tier-Moves n tier before ok order log (h, upto, allowed) =
        (order log h, (before, upto), (ok, allowed))
