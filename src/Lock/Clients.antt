-- ===== src/Lock/Clients.antt =====
-- What the API's clients can rely on: who passes `Check`, who may take a lock, and what leaks.
use text.Mathlib.Text.{◌==◌ as str_eq}
use remoses.Prelude.Maps.{lookup, lookup-insert}
use remoses.Prelude.{
  ℕ, ◌+◌, ◌%◌, ◌^◌, String, ◌≡◌, refl, sym, ap, ◌∙◌, ◌≢◌, true, false, Option, none, some, arith,
  eq_iff,
}
use remoses.Lock.{
  Error, Lock, Entry, Manager, held, token_equal, install_locked, check, check_entry,
}

pub token_equal-true : (want got : String) → token_equal want got ≡ true → (want ≡ got) × (got ≢ "")
unfolding token_equal
token_equal-true want got h = (ground (arith, eq_iff want got), λ p. ground (arith, eq_iff got ""))

token_equal_refl : (tok : String) → tok ≢ "" → token_equal tok tok ≡ true
unfolding token_equal
token_equal_refl tok h = ground (arith, eq_iff tok "", eq_iff tok tok)

pub lookup-install_locked :
    (l : Lock) (m : Manager)
    → lookup l.radio_id (install_locked l m).locks
      ≡ some (record { lock = l; gen = (m.gen + 1) % 2 ^ 64 })
unfolding install_locked
lookup-install_locked l m = ground (
  arith,
  lookup-insert l.radio_id l.radio_id (record { lock = l; gen = (m.gen + 1) % 2 ^ 64 }) m.locks,
  eq_iff l.radio_id l.radio_id,
)

-- The lock of a radio is held by `token` at the instant `now`.
pub record HeldBy (radio token : String) (now : ℕ) (m : Manager) : Type 0 where
  pub entry : Entry
  pub found : lookup radio m.locks ≡ some entry
  pub live : held entry.lock now ≡ true
  pub own_token : entry.lock.token ≡ token
  pub some_token : token ≢ ""

check_entry-ok :
    (o : Option Entry) (radio token : String) (t1 t2 t3 : ℕ) (m : Manager)
    → lookup radio m.locks ≡ o
    → (check_entry o radio token t1 t2 t3 m).0 ≡ none
    → HeldBy radio token t1 m
unfolding check_entry
check_entry-ok none radio token t1 t2 t3 m found ok = absurd (cc)
check_entry-ok (some e) radio token t1 t2 t3 m found ok =
    let tokens = token_equal-true e.lock.token token (ground arith) in
    record {
      entry = e;
      found = found;
      live = ground arith;
      own_token = tokens.0;
      some_token = tokens.1;
    }

check_enabled :
    (radio token : String) (t1 t2 t3 : ℕ) (m : Manager)
    → m.enabled ≡ true
    → check radio token t1 t2 t3 m ≡ check_entry (lookup radio m.locks) radio token t1 t2 t3 m
unfolding check
check_enabled radio token t1 t2 t3 m on = ground arith

-- With locking enabled, a command passes only with the token of a lease that is still held.
pub check-ok :
    (radio token : String) (t1 t2 t3 : ℕ) (m : Manager)
    → m.enabled ≡ true
    → (check radio token t1 t2 t3 m).0 ≡ none
    → HeldBy radio token t1 m
check-ok radio token t1 t2 t3 m on ok =
    check_entry-ok (lookup radio m.locks) radio token t1 t2 t3 m refl (
      ap (λ (x : Option Error × Manager). x.0) (sym (check_enabled radio token t1 t2 t3 m on)) ∙ ok)

abbrev pub renewed_lock : Lock → ℕ → Manager → Lock
renewed_lock l now m = record l { expires_at = now + m.ttl }

check_entry-held :
    (e : Entry) (radio token : String) (t1 t2 t3 : ℕ) (m : Manager)
    → lookup radio m.locks ≡ some e
    → held e.lock t1 ≡ true
    → held e.lock t2 ≡ true
    → token ≢ ""
    → token_equal e.lock.token token ≡ true
    → check_entry (some e) radio token t1 t2 t3 m
      ≡ (none, install_locked (renewed_lock e.lock t3 m) m)
unfolding check_entry
check_entry-held e radio token t1 t2 t3 m found live1 live2 ne own =
    let named : str_eq token "" ≡ false = ground (arith, eq_iff token "") in
    rw (live1, named, own, found) (rw (live2, own))

-- Conversely, with locking enabled the holder passes if the lease is held at both tests of the clock,
-- and the lease then ends `ttl` after the last reading, under the same token and user: this is how a
-- command keeps the lock alive.
pub check-HeldBy :
    (radio token : String) (t1 t2 t3 : ℕ) (m : Manager)
    → m.enabled ≡ true
    → (h : HeldBy radio token t1 m) → held h.entry.lock t2 ≡ true
    → check radio token t1 t2 t3 m ≡ (none, install_locked (renewed_lock h.entry.lock t3 m) m)
check-HeldBy radio token t1 t2 t3 m on h live =
    let own : token_equal h.entry.lock.token token ≡ true =
      rw h.own_token (token_equal_refl token h.some_token) in
    check_enabled radio token t1 t2 t3 m on
    ∙ rw h.found
        (check_entry-held h.entry radio token t1 t2 t3 m h.found h.live live h.some_token own)
