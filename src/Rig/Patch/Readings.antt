-- ===== src/Rig/Patch/Readings.antt =====
-- What a check that passed says of the field that it looks at.
use remoses.Prelude.{
  ℕ, ◌≡◌, Bool, true, false, not, ◌&&◌, ◌||◌, Option, none, some, List, [], ◌∷◌, ◌++◌, arith, All,
}
use remoses.Prelude.Compare.{
  equal, nat_comparable, int_comparable, bool_comparable, string_comparable,
}
use remoses.Prelude.Int.{ℤ, pos}
use remoses.Radio.Compared.{meter_comparable, power_comparable, cw_comparable, vfo_comparable}
use remoses.Rig.Patch.{Fault, has, Station}
use remoses.Rig.Patch.Check.{given, contains, is_nil, int_less, out_of_range}
use remoses.Rig.Patch.Fits.{When, Between, InPercent}
use remoses.Rig.Patch.Permits.{not-false}

pub either : (a b : Bool) → (a || b) ≡ false → (a ≡ false) × (b ≡ false)
either a b h = ground arith

module _ {ℓ} {A : Type ℓ} where
  pub when_ready : (o : Option A) (b : Bool) → (has o && not b) ≡ false → When o (λ v. b ≡ true)
  when_ready none b h = tt
  when_ready (some v) b h = not-false h

  when_unless : (o : Option A) (b : Bool) → (has o && b) ≡ false → When o (λ v. b ≡ false)
  when_unless none b h = tt
  when_unless (some v) b h = h

  pub when_passes :
      (o : Option A) (p : A → Bool) → given o (λ v. not (p v)) ≡ false → When o (λ v. p v ≡ true)
  when_passes none p h = tt
  when_passes (some v) p h = not-false h

  when_neither :
      (o : Option A) (p q : A → Bool)
      → given o (λ v. p v || q v) ≡ false
      → When o (λ v. (p v ≡ false) × (q v ≡ false))
  when_neither none p q h = tt
  when_neither (some v) p q h = either (p v) (q v) h

  pub when_both : (P Q : A → Type 0) (o : Option A) → When o P → When o Q → When o (λ v. P v × Q v)
  when_both P Q none p q = tt
  when_both P Q (some v) p q = (p, q)

pub All-split {ℓ κ} :
    {A : Type ℓ} (P : A → Type κ) (xs ys : List A) → All P (xs ++ ys) → All P xs × All P ys
All-split P [] ys h = (tt, h)
All-split P (x ∷ xs) ys (p, h) = let (k, l) = All-split P xs ys h in ((p, k), l)

abbrev pub Unrefused : Bool × Fault → Type 0
Unrefused c = c.0 ≡ false

abbrev pub Passed : List (Bool × Fault) → Type 0
Passed l = All Unrefused l

pub selected :
    (o : Option ℤ) (levels first : ℤ)
    → (has o && equal levels (pos 0)) ≡ false
    → given o (λ n. int_less n first || int_less levels n) ≡ false
    → When o (λ n. (equal levels (pos 0) ≡ false) × Between first levels n)
selected o levels first some_levels range =
    when_both _ _ o (when_unless o _ some_levels) (when_neither o _ _ range)

pub modes_fit :
    (o : Option ℕ) (modes : List ℕ)
    → given o (λ m. not (is_nil modes) && not (contains modes m)) ≡ false
    → When o (λ m. (is_nil modes || contains modes m) ≡ true)
modes_fit none modes h = tt
modes_fit (some m) modes h = ground arith

pub slots_fit :
    (o : Option ℤ) (slots : ℤ)
    → given o (λ n. int_less slots (pos 1) || int_less n (pos 1) || int_less slots n) ≡ false
    → When o (Between (pos 1) slots)
slots_fit none slots h = tt
slots_fit (some n) slots h = (ground arith, ground arith)

pub neither_missing : (a b c : Bool) → (c && (not a || not b)) ≡ false → (c && not (a && b)) ≡ false
neither_missing a b c h = ground arith

module _ {ℓ} {F : Type ℓ} (st : Station F) where
  pub controlled :
      (o : Option F) (control : Bool)
      → (has o && not control) ≡ false
      → given o (out_of_range st) ≡ false
      → When o (λ v. (control ≡ true) × InPercent st v)
  unfolding out_of_range
  controlled o control ready range =
      when_both _ _ o (when_ready o control ready) (when_neither o _ _ range)
