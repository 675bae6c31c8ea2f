-- ===== src/Rig/Cache/Replica.antt =====
-- The published changes keep a reader up to date.
use mathlib.Core.List.{append-nil, append_assoc}
use mathlib.Core.List.{Perm, perm_middle}
use mathlib.Core.List.Perm
use mathlib.Core.Path.{subst}
use remoses.Prelude.{
  ℕ, ◌+◌, ◌%◌, ◌^◌, ◌<◌, ◌≡◌, refl, sym, ap, ◌∙◌, Bool, true, false, not, Option, none, some, List,
  [], ◌∷◌, ◌++◌, arith, if-true, if-false, if-elim, length, length-append,
}
use remoses.Prelude.Compare.{Comparable}
use remoses.Radio.{CwStatus, State, Patch}
use remoses.Radio.Change.{empty, merge, apply, diff}
use remoses.Radio.Compared.{cw_equal}
use remoses.Radio.Follow.{
  Quiet, visible, visible-apply, clear_meters-Quiet, apply-empty, apply-Quiet, visible-updated,
  apply-seq,
}
use remoses.Rig.Cache.{
  EventKind, Published, Session, arm_deadman, disarm_deadman, watch_ptt, event_of, publish_event,
  updated, next_state, store_change, store_cw, force_rx,
}
use remoses.Rig.Cache.Flow.{
  Step, reports, Run, here, then_step, Flow, set_off, changes, sets_timer, forces, publishes,
}

module _ {ℓ} {F : Type ℓ} where
  -- A reader's state behind some events.
  abbrev pub replay : State F → List (Published F) → State F
  replay s [] = s
  replay s (e ∷ es) = replay (apply s e.change) es

  -- Events with the numbers behind `n`, in order.
  abbrev pub Numbered : ℕ → List (Published F) → Type 0
  Numbered n [] = Unit
  Numbered n (e ∷ es) = (e.seq ≡ n + 1) × Numbered (n + 1) es

  Numbered-append :
      (n m : ℕ) (es fs : List (Published F))
      → n + length es ≡ m
      → Numbered n es
      → Numbered m fs
      → Numbered n (es ++ fs)
  Numbered-append n m [] fs same h k = subst (λ x. Numbered x fs) (sym (omega arith)) k
  Numbered-append n m (e ∷ es) fs same (one, h) k =
      (one, Numbered-append (n + 1) m es fs (omega arith) h k)

module _ {ℓ} {F : Type ℓ} ⦃float : Comparable F⦄ where
  replay-append :
      (s : State F) (es fs : List (Published F)) → replay s (es ++ fs) ≡ replay (replay s es) fs
  replay-append s [] fs = refl
  replay-append s (e ∷ es) fs = replay-append (apply s e.change) es fs

  next_state-same :
      (s : State F) (p : Patch F) (now : ℕ)
      → empty (diff s (updated s p now)) ≡ true
      → next_state s p now ≡ updated s p now
  unfolding next_state
  next_state-same s p now same = if-true _ _ same

  next_state-new :
      (s : State F) (p : Patch F) (now : ℕ)
      → empty (diff s (updated s p now)) ≡ false
      → next_state s p now ≡ record (updated s p now) { seq = (s.seq + 1) % 2 ^ 64 }
  unfolding next_state
  next_state-new s p now differs = if-false _ _ differs

  -- What the locked part of a call does: nothing that a reader can see, or the change of its event.
  abbrev Stored : Session F → Session F × Option (Published F) → Type ℓ
  Stored s (t, none) =
      (visible s.state ≡ visible t.state)
      × (t.state.seq ≡ s.state.seq)
      × (t.events ≡ s.events)
      × Quiet t.state
  Stored s (t, some e) =
      (visible (apply s.state e.change) ≡ visible t.state)
      × (e.seq ≡ s.state.seq + 1)
      × (t.state.seq ≡ s.state.seq + 1)
      × (t.events ≡ s.events)
      × Quiet t.state

  store_change-Stored :
      (s : Session F) (p : Patch F) (kind : EventKind) (now : ℕ)
      → Quiet s.state
      → s.state.seq + 1 < 2 ^ 64
      → Stored s (store_change s p kind now)
  unfolding store_change
  store_change-Stored s p kind now quiet bound =
      let changes = diff s.state (updated s.state p now) in
      if-elim (Stored s) (empty p) _ _ (λ nothing. (refl, refl, refl, quiet))
        (λ something.
          if-elim (Stored s) (empty changes) _ _
            (λ same.
              subst (λ t. Stored s (record s { state = t }, none))
                (sym (next_state-same s.state p now same))
                (
                  ap visible (sym (apply-empty s.state _ quiet same))
                      ∙ visible-updated s.state p now,
                  apply-seq s.state p,
                  refl,
                  apply-Quiet s.state p,
                ))
            (λ differs.
              subst (λ t. Stored s (record s { state = t }, some (event_of kind t changes)))
                (sym (next_state-new s.state p now differs))
                (
                  visible-updated s.state p now,
                  omega arith,
                  omega arith,
                  refl,
                  apply-Quiet s.state p,
                )))

  store_cw-Stored :
      (s : Session F) (status : CwStatus) (now : ℕ)
      → Quiet s.state
      → s.state.seq + 1 < 2 ^ 64
      → Stored s (store_cw s status now)
  unfolding store_cw apply merge
  store_cw-Stored s status now quiet bound =
      if-elim (Stored s) (not s.sender) _ _ (λ none_there. (refl, refl, refl, quiet))
        (λ there.
          if-elim (Stored s) (cw_equal s.state.cw status) _ _
            (λ unchanged. (refl, refl, refl, quiet))
            (λ new_status. (
              ap visible (clear_meters-Quiet (record s.state { cw = status }) quiet),
              omega arith,
              omega arith,
              refl,
              quiet,
            )))

  -- The changes that were made since `s`, in the order in which they were made: they lead a reader to
  -- the state, they are numbered without a gap, and each of them was published or is about to be.
  abbrev pub Logged : Session F → Flow F → List (Published F) → Type ℓ
  Logged s f log =
      (visible (replay s.state log) ≡ visible f.session.state)
      × Numbered s.state.seq log
      × (f.session.state.seq ≡ s.state.seq + length log)
      × ((new : List (Published F)) × (f.session.events ≡ s.events ++ new)
          × Perm log (new ++ f.pending))

  -- There are such changes, and the state goes on to be quiet.
  abbrev Tracked : Session F → Flow F → Type ℓ
  Tracked s f = ((log : List (Published F)) × Logged s f log) × Quiet f.session.state

  set_off-Tracked :
      (s : Session F) (f : Flow F) (r : Session F × Option (Published F))
      → Stored f.session r
      → Tracked s f
      → Tracked s (set_off f r)
  set_off-Tracked s f (t, none) (seen, same, told, quiet)
        ((log, (at, counted, last, (new, events, perm))), _) =
      (
        (
          log,
          (
            at ∙ seen,
            counted,
            same ∙ last,
            (
              new,
              told ∙ events,
              subst (λ l. Perm log (new ++ l)) (sym (append-nil f.pending)) perm,
            ),
          ),
        ),
        quiet,
      )
  set_off-Tracked s f (t, some e) (seen, next, same, told, quiet)
        ((log, (at, counted, last, (new, events, perm))), _) =
      (
        (
          log ++ e ∷ [],
          (
            ap visible (replay-append s.state log (e ∷ []))
                ∙ visible-apply (replay s.state log) f.session.state e.change at
                ∙ seen,
            Numbered-append s.state.seq f.session.state.seq log (e ∷ []) (sym last) counted
                (next, tt),
            omega (arith, length-append log (e ∷ [])),
            (
              new,
              told ∙ events,
              subst (Perm (log ++ e ∷ [])) (append_assoc new f.pending (e ∷ []))
                  (Perm.append_right (e ∷ []) perm),
            ),
          ),
        ),
        quiet,
      )

  published-Perm :
      (log new front back : List (Published F)) (e : Published F)
      → Perm log (new ++ (front ++ e ∷ back))
      → Perm log ((new ++ e ∷ []) ++ (front ++ back))
  published-Perm log new front back e perm =
      subst (Perm log) (sym (append_assoc new (e ∷ []) (front ++ back)))
        (Perm.trans perm (Perm.append_left new (perm_middle front back)))

  watch_ptt-Tracked :
      (s : Session F) (f : Flow F) (ptt : Option Bool) (armed_at : ℕ)
      → Tracked s f
      → Tracked s (record f { session = watch_ptt ptt f.session armed_at })
  unfolding watch_ptt arm_deadman disarm_deadman
  watch_ptt-Tracked s f none armed_at h = h
  watch_ptt-Tracked s f (some true) armed_at h = h
  watch_ptt-Tracked s f (some false) armed_at h = h

  Step-Tracked : (s : Session F) (f to : Flow F) → Step f to → Tracked s f → Tracked s to
  unfolding publish_event force_rx
  Step-Tracked s f to (changes p kind now bound) h =
      set_off-Tracked s f (store_change f.session p kind now)
        (store_change-Stored f.session p kind now h.1 bound) h
  Step-Tracked s f to (reports status now bound) h =
      set_off-Tracked s f (store_cw f.session status now)
        (store_cw-Stored f.session status now h.1 bound) h
  Step-Tracked s f to (sets_timer ptt armed_at) h = watch_ptt-Tracked s f ptt armed_at h
  Step-Tracked s f to forces h = h
  Step-Tracked s f to (publishes front back e found)
        ((log, (at, counted, last, (new, events, perm))), quiet) =
      (
        (
          log,
          (
            at,
            counted,
            last,
            (
              new ++ e ∷ [],
              ap (λ es. es ++ e ∷ []) events ∙ append_assoc s.events new (e ∷ []),
              published-Perm log new front back e (subst (λ l. Perm log (new ++ l)) found perm),
            ),
          ),
        ),
        quiet,
      )

  Run-Tracked : (f to : Flow F) → Run f to → Tracked f.session f → Tracked f.session to
  Run-Tracked f to here h = h
  Run-Tracked f to (then_step {mid} run step) h =
      Step-Tracked f.session mid to step (Run-Tracked f mid run h)

  -- However the calls that change the state interleave, between its change and its publication too,
  -- the changes take a reader that starts from the same state and applies them in the order of their
  -- numbers to the state in the cache, but for the transmit audio settings; the numbers have no gap;
  -- and each change is published exactly once, in some order, or its call is still about to publish
  -- it, if no call was in flight at first and the state has no transmit meters while not transmitting.
  pub Run-Logged :
      (f to : Flow F)
      → Run f to
      → Quiet f.session.state
      → f.pending ≡ []
      → (log : List (Published F)) × Logged f.session to log
  Run-Logged f to run quiet idle =
      (Run-Tracked f to run (
        (
          [],
          (
            refl,
            tt,
            omega arith,
            ([], sym (append-nil f.session.events), subst (λ l. Perm [] l) (sym idle) Perm.nil),
          ),
        ),
        quiet,
      )).0
