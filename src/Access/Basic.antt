-- ===== src/Access/Basic.antt =====
-- Verification of HTTP Basic credentials (internal/auth/auth.go). Bcrypt and SHA-256 are parameters:
-- `is_hash` tells whether a text is a bcrypt hash, `matches` compares a hash with a password, and
-- `digest` is `sha256`. Times are in nanoseconds.
pub mod Verify
use text.Mathlib.Text.{◌==◌ as str_eq}
use remoses.Prelude.{
  ℕ, zero, suc, ◌+◌, String, ◌⊎◌, inl, inr, Bool, true, false, ◌&&◌, ◌||◌, Option, none, some, List,
  [], ◌∷◌, ◌++◌, ltb, leb, if◌then◌else◌, length,
}
use remoses.Prelude.Int.{ℤ, pos, negsuc, positive_or}
use remoses.Prelude.Maps.{lookup, delete, insert}

abbrev pub cache_sweep_at : ℕ
cache_sweep_at = 64

pub record User : Type 0 where
  pub name : String
  pub hash : String

-- `bcrypt_calls` counts the comparisons, as in the source.
pub record Authenticator : Type 0 where
  pub users : List User
  pub dummy : String
  pub ttl : ℤ
  pub cache : List (String × ℕ)
  pub bcrypt_calls : ℕ

pub data NewError : Type 0 where
  empty_username duplicate_username not_a_hash no_dummy : NewError

-- `seen[u.Username]` of the users before.
unfoldable pub has_user : String → List User → Bool
has_user name [] = false
has_user name (u ∷ us) = str_eq u.name name || has_user name us

-- The loop of `New`, with the users that were added.
unfoldable pub check_users : (String → Bool) → List User → List User → List User ⊎ NewError
check_users is_hash seen [] = inl seen
check_users is_hash seen (u ∷ us) =
    let rest = check_users is_hash (seen ++ u ∷ []) us in
    if str_eq u.name ""
    then inr empty_username
    else if has_user u.name seen
    then inr duplicate_username
    else if is_hash u.hash
    then rest
    else inr not_a_hash

-- The rest of `New`; `none` where the hash of a random secret could not be made.
unfoldable pub with_dummy : ℤ → Option String → List User ⊎ NewError → Authenticator ⊎ NewError
with_dummy ttl dummy (inr e) = inr e
with_dummy ttl none (inl users) = inr no_dummy
with_dummy ttl (some hash) (inl users) =
    inl (record { users = users; dummy = hash; ttl = ttl; cache = []; bcrypt_calls = 0 })

unfoldable pub new_authenticator :
    (String → Bool) → List User → ℤ → Option String → Authenticator ⊎ NewError
new_authenticator is_hash users ttl dummy = with_dummy ttl dummy (check_users is_hash [] users)

-- The scan of all users: the hash to compare with, and whether a name matched. A later match wins.
unfoldable pub scan : String → List User → String × Bool → String × Bool
scan name [] found = found
scan name (u ∷ us) found =
    let kept = scan name us found in
    let hit = scan name us (u.hash, true) in if str_eq u.name name then hit else kept

abbrev pub enabled : ℤ → Bool
enabled (pos zero) = false
enabled (pos (suc n)) = true
enabled (negsuc n) = false

-- The cache behind a lookup, and whether it was a hit.
unfoldable pub probe : ℕ → String → List (String × ℕ) → Option ℕ → Bool × List (String × ℕ)
probe now key cache none = (false, cache)
probe now key cache (some expires) =
    if ltb now expires then (true, cache) else (false, delete key cache)

unfoldable pub cache_hit : Authenticator → String → ℕ → Bool × Authenticator
cache_hit a key now =
    let probed = probe now key a.cache (lookup key a.cache) in
    if enabled a.ttl then (probed.0, record a { cache = probed.1 }) else (false, a)

-- The sweep of expired entries.
unfoldable pub sweep_cache : ℕ → List (String × ℕ) → List (String × ℕ)
sweep_cache now [] = []
sweep_cache now (e ∷ es) = let rest = sweep_cache now es in if ltb now e.1 then e ∷ rest else rest

unfoldable pub cache_store : Authenticator → String → ℕ → Authenticator
cache_store a key now =
    let swept = if leb cache_sweep_at (length a.cache) then sweep_cache now a.cache else a.cache in
    if enabled a.ttl then record a { cache = insert key (now + positive_or 0 a.ttl) swept } else a

-- What `newCacheKey` writes into the digest: the name, a zero byte and the password.
unfoldable pub key_text : String → String → String
key_text String.[] password = String.◌∷◌ "\0" password
key_text (String.◌∷◌ c name) password = String.◌∷◌ c (key_text name password)

unfoldable pub new_cache_key : (String → String) → String → String → String
new_cache_key digest username password = digest (key_text username password)

module _ (matches : String → String → Bool) (digest : String → String) where
  -- Whether a name and a password are right, with no cache.
  unfoldable pub correct : Authenticator → String → String → Bool
  correct a username password =
      let found = scan username a.users (a.dummy, false) in found.1 && matches found.0 password

  -- `Verify` behind a miss; `stored_at` is the clock of `cacheStore`.
  unfoldable pub compare_password : Authenticator → String → String → ℕ → Bool × Authenticator
  compare_password a username password stored_at =
      if correct a username password
      then (
        true,
        cache_store (record a { bcrypt_calls = a.bcrypt_calls + 1 })
            (new_cache_key digest username password) stored_at,
      )
      else (false, record a { bcrypt_calls = a.bcrypt_calls + 1 })

  unfoldable pub verify : Authenticator → String → String → ℕ → ℕ → Bool × Authenticator
  verify a username password now stored_at =
      let probed = cache_hit a (new_cache_key digest username password) now in
      if probed.0 then (true, probed.1) else compare_password probed.1 username password stored_at
