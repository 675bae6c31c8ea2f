-- ===== src/Ws/Hub/Admission.antt =====
-- Who is let into the stream, and what is left of it when the hub closes.
use text.Mathlib.Text.{◌==◌ as str_eq}
use remoses.Prelude.{
  ℕ, String, ◌≡◌, refl, sym, ap, ◌∙◌, ◌≢◌, ◌⊎◌, inl, inr, Bool, true, false, ◌&&◌, ◌||◌, Option,
  none, some, List, arith,
}
use remoses.Prelude.Sets.{has, has-retain}
use remoses.Access.Ticket.{Store}
use remoses.Access.Ticket.Single.{Distinct, redeem-redeem, Live, redeem-Live}
use remoses.Rig.Events.Accounts.{after}
use remoses.Ws.Hub.{
  unauthorized, upgrade, Hub, wanted, resolve_radios, identify, answer_to, handler,
}

-- The credentials of a user: of the request, or a live ticket.
abbrev pub Credentials : Option String → String → ℕ → Store → String → Type 0
Credentials context_user ticket now tickets user =
    (context_user ≡ some user) ⊎ ((ticket ≢ "") × Live now ticket user tickets.tickets)

module _ (split : String → List String) (trim_space : String → String) where
  -- A connection gets the radios that exist and that its filter names, all of them for a blank one.
  has-resolve_radios :
      (sessions : List String) (filter id : String)
      → has id (resolve_radios split trim_space sessions filter) ≡ (
          has id sessions
          && (str_eq (trim_space filter) "" || has id (wanted split trim_space (split filter))))
  unfolding resolve_radios
  has-resolve_radios sessions filter id =
      ground (arith, has-retain id (wanted split trim_space (split filter)) sessions)

  identify-Credentials {ℓ} :
      {F : Type ℓ} (context_user : Option String) (ticket user : String) (now : ℕ) (h : Hub F)
      → (identify split trim_space context_user ticket now h).0 ≡ some user
      → Credentials context_user ticket now h.tickets user
  unfolding identify
  identify-Credentials (some known) ticket user now h e = inl e
  identify-Credentials none ticket user now h e = inr (redeem-Live h.tickets ticket user now e)

  identify-closed {ℓ} :
      {F : Type ℓ} (context_user : Option String) (ticket : String) (now : ℕ) (h : Hub F)
      → (identify split trim_space context_user ticket now h).1.closed ≡ h.closed
  unfolding identify
  identify-closed (some known) ticket now h = refl
  identify-closed none ticket now h = refl

  answer_to-upgrade :
      (sessions : List String) (filter : String) (found : Option String) (closed : Bool)
      (user : String) (radios : List String)
      → answer_to split trim_space sessions filter found closed ≡ upgrade user radios
      → (found ≡ some user)
        × (closed ≡ false)
        × (radios ≡ resolve_radios split trim_space sessions filter)
  unfolding answer_to
  answer_to-upgrade sessions filter none closed user radios e = absurd (cc e)
  answer_to-upgrade sessions filter (some known) true user radios e = absurd (cc e)
  answer_to-upgrade sessions filter (some known) false user radios e = (cc e, refl, cc e)

  -- A request for the stream is upgraded only for a user that the request was authenticated as, or that
  -- a live ticket in it was issued to, only while the hub is open, and only for radios that exist.
  pub handler-upgrade {ℓ} :
      {F : Type ℓ} (sessions : List String) (context_user : Option String) (ticket filter : String)
      (now : ℕ) (h : Hub F) (user : String) (radios : List String)
      → (handler split trim_space sessions context_user ticket filter now h).0 ≡ upgrade user radios
      → Credentials context_user ticket now h.tickets user
        × (h.closed ≡ false)
        × ((id : String) → has id radios ≡ true → has id sessions ≡ true)
  unfolding handler
  handler-upgrade sessions context_user ticket filter now h user radios e =
      let (user_of, after) = identify split trim_space context_user ticket now h in
      let (found, shown, chosen) =
        answer_to-upgrade sessions filter user_of after.closed user radios e in
      (
        identify-Credentials context_user ticket user now h found,
        sym (identify-closed context_user ticket now h) ∙ shown,
        λ id listed. ground (arith, ap (has id) chosen, has-resolve_radios sessions filter id),
      )

  -- A ticket that a request without credentials of its own has presented lets nobody in afterwards: a
  -- second request with it, again without credentials, is unauthorized, whatever the first one came
  -- to, if the tickets of the store have different values.
  pub handler-handler {ℓ} :
      {F : Type ℓ} (sessions : List String) (ticket filter later_filter : String) (now later : ℕ)
      (h : Hub F)
      → Distinct h.tickets.tickets
      → (handler split trim_space sessions none ticket later_filter later
          (handler split trim_space sessions none ticket filter now h).1).0
        ≡ unauthorized
  unfolding handler identify answer_to
  handler-handler sessions ticket filter later_filter now later h distinct =
      ap (λ user. answer_to split trim_space sessions later_filter user h.closed)
        (redeem-redeem h.tickets ticket now later distinct)
