-- ===== src/Access/Tests.antt =====
-- Runs of the ticket store and of the authenticator, and the theorems about them at those.
use Prim.Native.Char.{code}
use text.Mathlib.Text.{◌==◌ as str_eq}
use remoses.Prelude.{String, ◌≡◌, refl, ap, Bool, some, [], ◌∷◌, arith}
use remoses.Prelude.Int.{pos}
use remoses.Access.Basic.{Authenticator, correct, verify}
use remoses.Access.Basic.Verify.{Keys, NoZero, Right, verify-correct}
use remoses.Access.Ticket.{Store, sweep, find_ticket, redeem}

abbrev empty : Store
empty = record { ttl = 30; tickets = [] }

abbrev one : Store
one = record { ttl = 30; tickets = record { value = "v1"; user = "alice"; expires = 40 } ∷ [] }

redeem-one : (redeem one "v1" 20).0 ≡ some "alice"
unfolding redeem find_ticket sweep
redeem-one = refl

abbrev matches : String → String → Bool
matches hash password = str_eq hash password

abbrev station : Authenticator
station = record {
  users = record { name = "alice"; hash = "secret" } ∷ [];
  dummy = "unlikely";
  ttl = pos 60;
  cache = [];
  bcrypt_calls = 0;
}

-- The zero byte is no character of a name.
alice-NoZero : NoZero "alice"
alice-NoZero = (
  (λ e. absurd (omega (arith, ap code e))),
  (
    λ e. absurd (omega (arith, ap code e)),
    (
      λ e. absurd (omega (arith, ap code e)),
      (λ e. absurd (omega (arith, ap code e)), (λ e. absurd (omega (arith, ap code e)), tt)),
    ),
  ),
)

-- A digest without collisions: a text itself.
abbrev itself : String → String
itself s = s

verify-correct_example :
    ((verify matches itself station "alice" "secret" 5 6).0
      ≡ correct matches itself station "alice" "secret")
    × Keys
        (Right matches itself (λ s t same. same) station)
        (verify matches itself station "alice" "secret" 5 6).1.cache
verify-correct_example =
    verify-correct matches itself (λ s t same. same) station "alice" "secret" 5 6 alice-NoZero tt
