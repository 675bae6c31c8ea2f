-- ===== src/Ws/Stream/Ordered.antt =====
-- The numbers of the frames about one radio.
use text.Mathlib.Text.{◌==◌ as str_eq}
use mathlib.Core.Path.{subst}
use mathlib.Core.List.{append-nil, append_assoc}
use remoses.Prelude.{
  ℕ, ◌≤◌, ◌<◌, String, ◌≡◌, refl, sym, ap, ◌∙◌, Option, none, some, List, [], ◌∷◌, ◌++◌, arith, leb,
  if◌then◌else◌, if-elim,
}
use remoses.Prelude.Compare.{nat_comparable, int_comparable, bool_comparable, string_comparable}
use remoses.Prelude.Maps.{lookup, lookup-insert}
use remoses.Radio.{State}
use remoses.Radio.Change.{changed, empty}
use remoses.Radio.Compared.{meter_comparable, power_comparable, cw_comparable, vfo_comparable}
use remoses.Rig.Cache.{EventKind, event_state, event_cw, event_conn}
use remoses.Ws.{Event, DiscreteEvent, Message, state_msg, delta_msg, resync_msg}
use remoses.Ws.Client.{Client}
use remoses.Ws.Drain.{
  Draining, or_zero, write_resync, resync_due, event_messages, flush_discrete, write_snapshot,
  state_message, write_event, take_pending, send_message, pending_due,
}
use remoses.Ws.Render.{kind_message, event_message}

pub some_inj {ℓ} : {A : Type ℓ} {a b : A} → some a ≡ some b → a ≡ b
some_inj h = cc h

module _ {ℓ} {F : Type ℓ} where
  -- The number of the last state or delta frame about a radio, from `low` on.
  unfoldable pub last_told : String → ℕ → Message F → ℕ
  last_told id low (state_msg radio seq ts st) = if str_eq radio id then seq else low
  last_told id low (delta_msg radio seq ts changed) = if str_eq radio id then seq else low
  last_told id low _ = low

  -- Behind `low`, a state may repeat the number and a delta is newer, and a resync tells just this number.
  unfoldable pub Fits : String → ℕ → Message F → Type 0
  Fits id low (state_msg radio seq ts st) = radio ≡ id → low ≤ seq
  Fits id low (delta_msg radio seq ts changed) = radio ≡ id → low < seq
  Fits id low (resync_msg radio seq ts) = radio ≡ id → seq ≡ low
  Fits id low _ = Unit

  abbrev pub Ordered : String → ℕ → List (Message F) → Type 0
  Ordered id low [] = Unit
  Ordered id low (f ∷ fs) = Fits id low f × Ordered id (last_told id low f) fs

  abbrev pub told : String → ℕ → List (Message F) → ℕ
  told id low [] = low
  told id low (f ∷ fs) = told id (last_told id low f) fs

  pub Ordered-append :
      (id : String) (low : ℕ) (fs gs : List (Message F))
      → Ordered id low fs
      → Ordered id (told id low fs) gs
      → Ordered id low (fs ++ gs)
  Ordered-append id low [] gs h k = k
  Ordered-append id low (f ∷ fs) gs (one, h) k =
      (one, Ordered-append id (last_told id low f) fs gs h k)

  pub told-append :
      (id : String) (low : ℕ) (fs gs : List (Message F))
      → told id low (fs ++ gs) ≡ told id (told id low fs) gs
  told-append id low [] gs = refl
  told-append id low (f ∷ fs) gs = told-append id (last_told id low f) fs gs

  -- What was written for a radio in a turn so far, and what the client notes of it.
  pub record Noted (id : String) (low : ℕ) (d : Draining F) : Type ℓ where
    pub in_order : Ordered id low d.out
    pub noted : told id low d.out ≡ or_zero (lookup id d.client.last_seq)

  -- One more frame, behind which the client notes its number.
  Noted-snoc :
      (id : String) (low : ℕ) (d : Draining F) (f : Message F) (c : Client F)
      → Noted id low d
      → Fits id (or_zero (lookup id d.client.last_seq)) f
      → last_told id (or_zero (lookup id d.client.last_seq)) f ≡ or_zero (lookup id c.last_seq)
      → Noted id low (record d { out = d.out ++ f ∷ []; client = c })
  Noted-snoc id low d f c n fits moves = record {
    in_order =
        Ordered-append id low d.out (f ∷ []) n.in_order
          (subst (λ x. Fits id x f) (sym n.noted) fits, tt);
    noted = told-append id low d.out (f ∷ []) ∙ ap (λ x. last_told id x f) n.noted ∙ moves;
  }

  write_resync-Noted :
      (id : String) (low now : ℕ) (key : String) (d : Draining F)
      → Noted id low d
      → Noted id low (write_resync now key d)
  unfolding write_resync Fits last_told
  write_resync-Noted id low now key d n =
      Noted-snoc id low d _ _ n (λ same. ap (λ k. or_zero (lookup k d.client.last_seq)) same) refl

  pub resync_due-Noted :
      (id : String) (low now : ℕ) (key : String) (held : Option ℕ) (d : Draining F)
      → Noted id low d
      → Noted id low (resync_due now key held d)
  unfolding resync_due
  resync_due-Noted id low now key (some at) d n = record { in_order = n.in_order; noted = n.noted }
  resync_due-Noted id low now key none d n = write_resync-Noted id low now key d n

  -- A frame that is no state, delta or resync.
  abbrev Silent : String → Message F → Type 0
  Silent id f = (low : ℕ) → Fits id low f × (last_told id low f ≡ low)

  kind_message-Silent :
      (id : String) (kind : EventKind) (e : DiscreteEvent) (f : Message F)
      → f ≡ kind_message kind e
      → Silent id f
  unfolding Fits last_told kind_message
  kind_message-Silent id event_cw e f h = subst (Silent id) (sym h) (λ low. (tt, refl))
  kind_message-Silent id event_conn e f h = subst (Silent id) (sym h) (λ low. (tt, refl))
  kind_message-Silent id event_state e f h = subst (Silent id) (sym h) (λ low. (tt, refl))

  event_messages-Noted :
      (id : String) (low : ℕ) (es : List DiscreteEvent) (d : Draining F) (c : Client F)
      → c.last_seq ≡ d.client.last_seq
      → Noted id low d
      → Noted id low (record d { out = d.out ++ event_messages es; client = c })
  unfolding event_messages
  event_messages-Noted id low [] d c same n = record {
    in_order = subst (Ordered id low) (sym (append-nil d.out)) n.in_order;
    noted =
        ap (told id low) (append-nil d.out) ∙ n.noted ∙ ap (λ m. or_zero (lookup id m)) (sym same);
  }
  event_messages-Noted id low (e ∷ es) d c same n =
      let (fits, stays) =
        kind_message-Silent id e.kind e _ refl (or_zero (lookup id d.client.last_seq)) in
      let one = Noted-snoc id low d (event_message e) d.client n fits stays in
      let more =
        event_messages-Noted id low es (record d { out = d.out ++ event_message e ∷ [] }) c same
          one in
      subst (λ out. Noted id low (record d { out = out; client = c }))
        (append_assoc d.out (event_message e ∷ []) (event_messages es)) more

  pub flush_discrete-Noted :
      (id : String) (low : ℕ) (d : Draining F) → Noted id low d → Noted id low (flush_discrete d)
  unfolding flush_discrete
  flush_discrete-Noted id low d n = event_messages-Noted id low d.client.discrete d _ refl n

  -- Nothing the client knows of a radio is newer than `top`.
  pub record Below (id : String) (top : ℕ) (c : Client F) : Type ℓ where
    pub last_below : or_zero (lookup id c.last_seq) ≤ top
    pub pending_below : (ev : Event F) → lookup id c.pending ≡ some ev → ev.seq ≤ top

  pub write_snapshot-Noted :
      (id : String) (low now : ℕ) (key : String) (st : State F) (d : Draining F)
      → (key ≡ id → or_zero (lookup id d.client.last_seq) ≤ st.seq)
      → Noted id low d
      → Noted id low (write_snapshot now key st d)
  unfolding write_snapshot Fits last_told
  write_snapshot-Noted id low now key st d newer n =
      Noted-snoc id low d _ _ n newer
        (ground (arith, lookup-insert key id st.seq d.client.last_seq))

  -- A frame about an event, which is newer than `low` if it is about the radio.
  abbrev Newer : String → ℕ → Event F → Message F → Type 0
  Newer id low ev f =
      Fits id low f × (last_told id low f ≡ (if str_eq ev.radio_id id then ev.seq else low))

  state_message-Newer :
      (id : String) (low : ℕ) (ev : Event F) (last : Option ℕ) (msg : Message F)
      → (ev.radio_id ≡ id → low ≡ or_zero last)
      → state_message ev last ≡ some msg
      → Newer id low ev msg
  unfolding state_message Fits last_told
  state_message-Newer id low ev last msg same =
      if-elim (λ (r : Option (Message F)). r ≡ some msg → Newer id low ev msg)
        (leb ev.seq (or_zero last)) _ _ (λ stale h. absurd (cc h))
        (λ fresh.
          if-elim (λ (r : Option (Message F)). r ≡ some msg → Newer id low ev msg) (empty ev.patch)
            _ _
            (λ whole h.
              subst (Newer id low ev) (some_inj h) (λ ours. ground (arith, same ours), refl))
            (λ part h.
              subst (Newer id low ev) (some_inj h) (λ ours. ground (arith, same ours), refl)))

  abbrev pub Named : Draining F → Type ℓ
  Named d =
      (key : String) (ev : Event F) → lookup key d.client.pending ≡ some ev → ev.radio_id ≡ key

  pub send_message-Noted :
      (id : String) (low now : ℕ) (key : String) (ev : Event F) (msg : Option (Message F))
      (d : Draining F)
      → state_message ev (lookup ev.radio_id d.client.last_seq) ≡ msg
      → ev.radio_id ≡ key
      → Noted id low d
      → Noted id low (send_message now key ev msg d)
  unfolding send_message write_event
  send_message-Noted id low now key ev none d e own n = n
  send_message-Noted id low now key ev (some msg) d e own n =
      let (fits, moves) =
        state_message-Newer id _ ev _ msg
          (λ ours. ap (λ k. or_zero (lookup k d.client.last_seq)) (sym ours)) e in
      Noted-snoc id low d msg _ n fits
        (moves ∙ ground (arith, lookup-insert key id ev.seq d.client.last_seq, own))

  pub pending_due-Noted :
      (id : String) (low now : ℕ) (key : String) (ev : Event F) (held : Option ℕ) (d : Draining F)
      → ev.radio_id ≡ key
      → Noted id low d
      → Noted id low (pending_due now key ev held d)
  unfolding pending_due
  pending_due-Noted id low now key ev (some at) d own n = record {
    in_order = n.in_order;
    noted = n.noted;
  }
  pending_due-Noted id low now key ev none d own n =
      send_message-Noted id low now key ev _ (take_pending key d) refl own
        (record { in_order = n.in_order; noted = n.noted })
