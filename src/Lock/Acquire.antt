-- ===== src/Lock/Acquire.antt =====
-- Who may take a lock, and what the new holder can do with it.
use remoses.Prelude.Maps.{lookup}
use remoses.Prelude.{
  ℕ, ◌+◌, ◌%◌, ◌^◌, ◌<◌, String, ◌≡◌, refl, ap, ◌∙◌, ◌≢◌, Bool, true, ◌&&◌, Option, none, some,
  arith,
}
use remoses.Lock.{Error, Entry, Manager, held, install_locked, grant, check}
use remoses.Lock.Clients.{HeldBy, check-ok, check-HeldBy, lookup-install_locked}

-- Only a lock that another user holds stands in the way, and force takes that where it is allowed.
abbrev pub MayTake : Option Entry → String → Bool → ℕ → Manager → Type 0
MayTake o user force now m =
    (cur : Entry)
    → o ≡ some cur
    → held cur.lock now ≡ true
    → cur.lock.user ≢ user
    → (force && m.allow_steal) ≡ true

lookup-grant :
    (radio user tok : String) (now : ℕ) (m : Manager)
    → lookup radio (grant radio user tok now m).1.locks
      ≡ some (record {
        lock = record { radio_id = radio; token = tok; user = user; expires_at = now + m.ttl };
        gen = (m.gen + 1) % 2 ^ 64;
      })
lookup-grant radio user tok now m =
    grant_lem
    ∙ lookup-install_locked
        (record { radio_id = radio; token = tok; user = user; expires_at = now + m.ttl }) m
  where
    grant_lem :
        lookup radio (grant radio user tok now m).1.locks
        ≡ lookup radio
            (install_locked
              (record { radio_id = radio; token = tok; user = user; expires_at = now + m.ttl })
              m).locks
    grant_lem = unfold grant in refl

enabled-grant :
    (radio user tok : String) (now : ℕ) (m : Manager)
    → (grant radio user tok now m).1.enabled ≡ m.enabled
unfolding grant
enabled-grant radio user tok now m = refl

-- With locking enabled, whoever is granted the lock passes `Check` until the lease ends, and no other
-- token passes.
pub grant-check :
    (radio user tok other : String) (now t1 t2 t3 : ℕ) (m : Manager)
    → m.enabled ≡ true
    → tok ≢ ""
    → t1 < now + m.ttl
    → t2 < now + m.ttl
    → ((check radio tok t1 t2 t3 (grant radio user tok now m).1).0 ≡ none)
      × (other ≢ tok → (check radio other t1 t2 t3 (grant radio user tok now m).1).0 ≢ none)
grant-check radio user tok other now t1 t2 t3 m on ne h1 h2 = (
  ap (λ (x : Option Error × Manager). x.0)
      (check-HeldBy radio tok t1 t2 t3 m' on' holder (ground arith)),
  refused,
)
  where
    m' : Manager
    m' = (grant radio user tok now m).1

    on' : m'.enabled ≡ true
    on' = enabled-grant radio user tok now m ∙ on

    holder : HeldBy radio tok t1 m'
    holder = record {
      entry = record {
        lock = record { radio_id = radio; token = tok; user = user; expires_at = now + m.ttl };
        gen = (m.gen + 1) % 2 ^ 64;
      };
      found = lookup-grant radio user tok now m;
      live = ground arith;
      own_token = refl;
      some_token = ne;
    }

    refused : other ≢ tok → (check radio other t1 t2 t3 m').0 ≢ none
    refused differ ok =
        let h = check-ok radio other t1 t2 t3 m' on' ok in
        differ (cc (h.found, h.own_token, holder.found))
