-- ===== src/Prelude/Compare.antt =====
-- Types whose values the program compares with `==` or by an `Equal` method.
use Prim.Native.Nat.{ℕ}
use Prim.Native.String.{String}
use mathlib.Core.Path.{◌≡◌, refl, ap}
use mathlib.Core.Bool.{Bool, true, false}
use mathlib.Core.Option.{Option, none, some}
use text.Mathlib.Text.{◌==◌ as str_eq}
use text.Mathlib.TextEquality.{eq_iff}
use remoses.Prelude.Tests.{◌==◌, ==_iff}
use remoses.Prelude.Int.{ℤ, pos, negsuc}

-- A comparison that only equal values pass.
pub record Comparable {ℓ} (A : Type ℓ) : Type ℓ where
  pub equal_values : A → A → Bool
  pub equal_sound : (a b : A) → equal_values a b ≡ true → a ≡ b

abbrev pub equal {ℓ} : {A : Type ℓ} ⦃c : Comparable A⦄ → A → A → Bool
equal ⦃c⦄ = c.equal_values

abbrev bool_equal : Bool → Bool → Bool
bool_equal true b = b
bool_equal false true = false
bool_equal false false = true

pub bool_sound : (a b : Bool) → bool_equal a b ≡ true → a ≡ b
bool_sound true true h = refl
bool_sound true false h = absurd (cc h)
bool_sound false true h = absurd (cc h)
bool_sound false false h = refl

abbrev int_equal : ℤ → ℤ → Bool
int_equal (pos a) (pos b) = a == b
int_equal (negsuc a) (negsuc b) = a == b
int_equal _ _ = false

pub int_sound : (a b : ℤ) → int_equal a b ≡ true → a ≡ b
int_sound (pos a) (pos b) h = ap pos ((==_iff a b).0 h)
int_sound (negsuc a) (negsuc b) h = ap negsuc ((==_iff a b).0 h)
int_sound (pos a) (negsuc b) h = absurd (cc h)
int_sound (negsuc a) (pos b) h = absurd (cc h)

-- Optional values compare by what they hold, nil with nil only.
abbrev pub same_ptr {ℓ} : {A : Type ℓ} ⦃c : Comparable A⦄ → Option A → Option A → Bool
same_ptr none none = true
same_ptr none (some b) = false
same_ptr (some a) none = false
same_ptr (some a) (some b) = equal a b

pub same_ptr_sound {ℓ} :
    {A : Type ℓ} ⦃c : Comparable A⦄ (a b : Option A) → same_ptr a b ≡ true → a ≡ b
same_ptr_sound none none h = refl
same_ptr_sound none (some b) h = absurd (cc h)
same_ptr_sound (some a) none h = absurd (cc h)
same_ptr_sound ⦃c⦄ (some a) (some b) h = ap some (c.equal_sound a b h)

instance abbrev pub nat_comparable : Comparable ℕ
nat_comparable = record { equal_values = ◌==◌; equal_sound = λ a b. (==_iff a b).0 }

instance abbrev pub int_comparable : Comparable ℤ
int_comparable = record { equal_values = int_equal; equal_sound = int_sound }

instance abbrev pub bool_comparable : Comparable Bool
bool_comparable = record { equal_values = bool_equal; equal_sound = bool_sound }

instance abbrev pub string_comparable : Comparable String
string_comparable = record { equal_values = str_eq; equal_sound = λ a b. (eq_iff a b).0 }
