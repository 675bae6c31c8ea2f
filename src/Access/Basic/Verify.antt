-- ===== src/Access/Basic/Verify.antt =====
-- The cache changes no answer of `Verify`.
use text.Mathlib.Text.{◌==◌ as str_eq}
use remoses.Prelude.{
  ℕ, ◌+◌, String, ◌≡◌, refl, sym, ◌∙◌, ◌≢◌, inl, inr, Bool, true, Option, none, some, List, [], ◌∷◌,
  eq_iff, ltb, leb, if◌then◌else◌, Bool-cases, length, All,
}
use remoses.Prelude.Maps.{lookup, delete, insert}
use remoses.Access.Basic.{
  cache_sweep_at, Authenticator, enabled, probe, cache_hit, sweep_cache, cache_store, key_text,
  new_cache_key, correct, compare_password, verify,
}

-- What is known of each key of a cache.
abbrev pub Keys : (String → Type 0) → List (String × ℕ) → Type 0
Keys P = All (λ e. P e.0)

module _ (P : String → Type 0) where
  Keys-lookup :
      (key : String) (expires : ℕ) (cache : List (String × ℕ))
      → Keys P cache
      → lookup key cache ≡ some expires
      → P key
  unfolding lookup
  Keys-lookup key expires [] h found = absurd (cc found)
  Keys-lookup key expires (e ∷ es) (p, h) found = elim (Bool-cases (str_eq e.0 key)) [
    | inl same ↦ rw ((eq_iff e.0 key).0 same) at p
    | inr differ ↦ Keys-lookup key expires es h (rw differ at found)
  ]

  Keys-delete :
      (key : String) (cache : List (String × ℕ)) → Keys P cache → Keys P (delete key cache)
  unfolding delete
  Keys-delete key [] h = h
  Keys-delete key (e ∷ es) (p, h) = elim (Bool-cases (str_eq e.0 key)) [
    | inl same ↦ rw same (Keys-delete key es h)
    | inr differ ↦ rw differ (p, Keys-delete key es h)
  ]

  Keys-sweep_cache :
      (now : ℕ) (cache : List (String × ℕ)) → Keys P cache → Keys P (sweep_cache now cache)
  unfolding sweep_cache
  Keys-sweep_cache now [] h = h
  Keys-sweep_cache now (e ∷ es) (p, h) = elim (Bool-cases (ltb now e.1)) [
    | inl live ↦ rw live (p, Keys-sweep_cache now es h)
    | inr over ↦ rw over (Keys-sweep_cache now es h)
  ]

  Keys-probe :
      (now : ℕ) (key : String) (cache : List (String × ℕ)) (found : Option ℕ)
      → lookup key cache ≡ found
      → Keys P cache
      → Keys P (probe now key cache found).1 × ((probe now key cache found).0 ≡ true → P key)
  unfolding probe
  Keys-probe now key cache none e h = (h, λ hit. absurd (cc hit))
  Keys-probe now key cache (some expires) e h = elim (Bool-cases (ltb now expires)) [
    | inl live ↦ rw live (h, λ hit. Keys-lookup key expires cache h e)
    | inr over ↦ rw over (Keys-delete key cache h, λ hit. absurd (cc hit))
  ]

  Keys-cache_hit :
      (a : Authenticator) (key : String) (now : ℕ)
      → Keys P a.cache
      → Keys P (cache_hit a key now).1.cache × ((cache_hit a key now).0 ≡ true → P key)
  unfolding cache_hit
  Keys-cache_hit a key now h = elim (Bool-cases (enabled a.ttl)) [
    | inl on ↦ rw on (Keys-probe now key a.cache (lookup key a.cache) refl h)
    | inr off ↦ rw off (h, λ hit. absurd (cc hit))
  ]

  Keys-swept :
      (now : ℕ) (cache : List (String × ℕ))
      → Keys P cache
      → Keys P (if leb cache_sweep_at (length cache) then sweep_cache now cache else cache)
  Keys-swept now cache h = elim (Bool-cases (leb cache_sweep_at (length cache))) [
    | inl full ↦ rw full (Keys-sweep_cache now cache h)
    | inr room ↦ rw room h
  ]

  Keys-cache_store :
      (a : Authenticator) (key : String) (now : ℕ)
      → P key
      → Keys P a.cache
      → Keys P (cache_store a key now).cache
  unfolding cache_store insert
  Keys-cache_store a key now p h = elim (Bool-cases (enabled a.ttl)) [
    | inl on ↦ rw on (p, Keys-delete key _ (Keys-swept now a.cache h))
    | inr off ↦ rw off h
  ]

-- Nothing changes the users and the dummy hash.
cache_hit-users :
    (a : Authenticator) (key : String) (now : ℕ)
    → ((cache_hit a key now).1.users ≡ a.users) × ((cache_hit a key now).1.dummy ≡ a.dummy)
unfolding cache_hit
cache_hit-users a key now = elim (Bool-cases (enabled a.ttl)) [
  | inl on ↦ rw on (refl, refl)
  | inr off ↦ rw off (refl, refl)
]

-- A text without a zero byte.
abbrev pub NoZero : String → Type 0
NoZero String.[] = Unit
NoZero (String.◌∷◌ c s) = (c ≢ "\0") × NoZero s

-- Behind a name without a zero byte the text of a key tells the name from the password.
key_text-injective :
    (u p v q : String) → NoZero u → NoZero v → key_text u p ≡ key_text v q → (u ≡ v) × (p ≡ q)
unfolding key_text
key_text-injective String.[] p String.[] q hu hv e = (refl, cc e)
key_text-injective String.[] p (String.◌∷◌ d v) q hu (differs, hv) e = absurd (differs (sym (cc e)))
key_text-injective (String.◌∷◌ c u) p String.[] q (differs, hu) hv e = absurd (differs (cc e))
key_text-injective (String.◌∷◌ c u) p (String.◌∷◌ d v) q (x, hu) (y, hv) e =
    let (eu, ep) = key_text-injective u p v q hu hv (cc e) in (cc (e, eu), ep)

module _ (matches : String → String → Bool) (digest : String → String)
    (no_collision : (s t : String) → digest s ≡ digest t → s ≡ t) where
  -- The key of some pair that is right.
  abbrev pub Right : Authenticator → String → Type 0
  Right a key =
      (u : String) × (p : String) × NoZero u
      × (key ≡ new_cache_key digest u p)
      × (correct matches digest a u p ≡ true)

  correct-same :
      (a b : Authenticator) (u p : String)
      → b.users ≡ a.users
      → b.dummy ≡ a.dummy
      → correct matches digest b u p ≡ correct matches digest a u p
  unfolding correct
  correct-same a b u p users dummy = rw users (rw dummy refl)

  compare_password-correct :
      (a : Authenticator) (username password : String) (stored_at : ℕ) (P : String → Type 0)
      → Keys P a.cache
      → (correct matches digest a username password ≡ true
          → P (new_cache_key digest username password))
      → ((compare_password matches digest a username password stored_at).0
          ≡ correct matches digest a username password)
        × Keys P (compare_password matches digest a username password stored_at).1.cache
  unfolding compare_password
  compare_password-correct a username password stored_at P h knows =
      elim (Bool-cases (correct matches digest a username password)) [
        | inl good ↦ rw good (
          refl,
          Keys-cache_store P (record a { bcrypt_calls = a.bcrypt_calls + 1 })
              (new_cache_key digest username password) stored_at (knows good) h,
        )
        | inr bad ↦ rw bad (refl, h)
      ]

  -- A key of a right pair is the key of no other.
  Right-correct :
      (a : Authenticator) (username password : String)
      → NoZero username
      → Right a (new_cache_key digest username password)
      → correct matches digest a username password ≡ true
  unfolding new_cache_key
  Right-correct a username password plain (u, p, plain', same, good) =
      let (eu, ep) =
        key_text-injective username password u p plain plain' (no_collision _ _ same) in
      rw eu (rw ep good)

  -- With or without the cache Verify gives the answer of the scan and the hash comparison to a name
  -- without a zero byte, and it keeps only the keys of right pairs with such names in the cache, if
  -- that is so before and the digest has no collisions.
  pub verify-correct :
      (a : Authenticator) (username password : String) (now stored_at : ℕ)
      → NoZero username
      → Keys (Right a) a.cache
      → ((verify matches digest a username password now stored_at).0
          ≡ correct matches digest a username password)
        × Keys (Right a) (verify matches digest a username password now stored_at).1.cache
  unfolding verify
  verify-correct a username password now stored_at plain h =
      let key = new_cache_key digest username password in
      let (kept, sound) = Keys-cache_hit (Right a) a key now h in
      let (users, dummy) = cache_hit-users a key now in
      let same = correct-same a (cache_hit a key now).1 username password users dummy in
      elim (Bool-cases (cache_hit a key now).0) [
        | inl hit ↦ rw hit (sym (Right-correct a username password plain (sound hit)), kept)
        | inr miss ↦
            let (answer, keys) =
              compare_password-correct (cache_hit a key now).1 username password stored_at (Right a)
                kept (λ good. (username, password, plain, refl, sym same ∙ good)) in
            rw miss (answer ∙ same, keys)
      ]
