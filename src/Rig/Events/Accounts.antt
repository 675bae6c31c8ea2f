-- ===== src/Rig/Events/Accounts.antt =====
-- Every published event is accounted for.
use remoses.Prelude.{
  ℕ, ◌+◌, ◌^◌, ◌<◌, ◌≡◌, refl, ◌∙◌, inl, inr, false, Option, none, some, List, [], ◌∷◌, ◌++◌, arith,
  ltb, Bool-cases, length,
}
use remoses.Rig.Events.{Event, Subscriber, offer, receive_from, receive}

-- What happens to one subscriber: an event is published, or one is received.
pub data Move {ℓ} (A : Type ℓ) : Type ℓ where
  published : A → Move A
  taken : Move A

module _ {ℓ} {A : Type ℓ} where
  -- The events of a list, with those dropped before each.
  abbrev pub covered : List (Event A) → ℕ
  covered [] = 0
  covered (e ∷ es) = e.dropped + 1 + covered es

  abbrev pub publications : List (Move A) → ℕ
  publications [] = 0
  publications (published a ∷ ms) = 1 + publications ms
  publications (taken ∷ ms) = publications ms

  abbrev pub collect :
      Option (Event A) × Subscriber A → List (Event A) → Subscriber A × List (Event A)
  collect (none, sub) got = (sub, got)
  collect (some e, sub) got = (sub, got ++ e ∷ [])

  -- The subscriber and the events it has received, behind some moves.
  abbrev pub after :
      ℕ → Subscriber A → List (Event A) → List (Move A) → Subscriber A × List (Event A)
  after size sub got [] = (sub, got)
  after size sub got (published a ∷ ms) = after size (offer size a sub) got ms
  after size sub got (taken ∷ ms) = let now = collect (receive sub) got in after size now.0 now.1 ms

  -- Everything received, queued and dropped since.
  abbrev pub account : Subscriber A × List (Event A) → ℕ
  account (sub, got) = covered got + covered sub.queue + sub.dropped

  covered-append : (xs ys : List (Event A)) → covered (xs ++ ys) ≡ covered xs + covered ys
  covered-append [] ys = omega arith
  covered-append (x ∷ xs) ys = omega (arith, covered-append xs ys)

  offer-account :
      (size : ℕ) (a : A) (sub : Subscriber A) (got : List (Event A))
      → sub.closed ≡ false
      → account (sub, got) + 1 < 2 ^ 64
      → (account (offer size a sub, got) ≡ account (sub, got) + 1)
        × ((offer size a sub).closed ≡ false)
  unfolding offer
  offer-account size a sub got live bound = elim (Bool-cases (ltb (length sub.queue) size)) [
    | inl room ↦ rw live (
        rw room (
          omega (
            arith,
            covered-append sub.queue (record { content = a; dropped = sub.dropped } ∷ []),
          ),
          refl,
        ))
    | inr full ↦ rw live (rw full (omega arith, refl))
  ]

  receive_from-account :
      (queue : List (Event A)) (sub : Subscriber A) (got : List (Event A))
      → sub.queue ≡ queue
      → (account (collect (receive_from queue sub) got) ≡ account (sub, got))
        × ((collect (receive_from queue sub) got).0.closed ≡ sub.closed)
  unfolding receive_from
  receive_from-account [] sub got h = (refl, refl)
  receive_from-account (e ∷ es) sub got h =
      (rw h (omega (arith, covered-append got (e ∷ []))), refl)

  -- Nothing goes missing unseen: in every interleaving of publications and receives, the events that a
  -- live subscriber received, those in its queue, the drops that all these report and the drops still
  -- to be reported add up to the events published, as long as that count is below 2^64.
  pub after-account :
      (size : ℕ) (sub : Subscriber A) (got : List (Event A)) (ms : List (Move A))
      → sub.closed ≡ false
      → account (sub, got) + publications ms < 2 ^ 64
      → account (after size sub got ms) ≡ account (sub, got) + publications ms
  unfolding receive
  after-account size sub got [] live bound = omega arith
  after-account size sub got (published a ∷ ms) live bound =
      let (one, still) = offer-account size a sub got live (omega arith) in
      after-account size (offer size a sub) got ms still (omega (arith, one)) ∙ omega (arith, one)
  after-account size sub got (taken ∷ ms) live bound =
      let now = collect (receive_from sub.queue sub) got in
      let (same, still) = receive_from-account sub.queue sub got refl in
      after-account size now.0 now.1 ms (still ∙ live) (omega (arith, same)) ∙ omega (arith, same)
