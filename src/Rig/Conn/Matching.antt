-- ===== src/Rig/Conn/Matching.antt =====
-- Which request gets a reply, and how a connection ends.
use remoses.Prelude.{
  String, ◌≡◌, refl, ap, true, false, none, some, List, [], ◌∷◌, ◌++◌, if◌then◌else◌, ==_iff, All,
}
use remoses.Rig.Conn.{
  Update, Waiter, Conn, wants, oldest, remove_oldest, received, deposit, post, replied, answered,
  rejected, deliver, check_update, outcome,
}

-- None of the waiters wants the key.
abbrev pub NoneWants : String → List Waiter → Type 0
NoneWants k = All (λ w. wants w.keys k ≡ false)

oldest-behind :
    (k : String) (pre later : List Waiter) (w : Waiter)
    → NoneWants k pre
    → wants w.keys k ≡ true
    → (oldest k (pre ++ w ∷ later) ≡ some w) × (remove_oldest k (pre ++ w ∷ later) ≡ pre ++ later)
unfolding oldest remove_oldest
oldest-behind k [] later w h hit = rw hit (refl, refl)
oldest-behind k (v ∷ pre) later w (miss, h) hit =
    let (found, left) = oldest-behind k pre later w h hit in rw miss (found, ap (◌∷◌ v) left)

module _ {ℓ κ} {A : Type ℓ} {E : Type κ} (disconnected : E) where
  -- A reply goes to the oldest request that waits for its key: that one is answered, or rejected if the
  -- reply is a negative acknowledgement, it leaves the table, and the rest keeps its order.
  pub deliver-oldest :
      (c : Conn A E) (up : Update A) (pre later : List Waiter) (w : Waiter)
      → c.waiters ≡ pre ++ w ∷ later
      → NoneWants up.key pre
      → wants w.keys up.key ≡ true
      → received w.number c.mailbox ≡ none
      → ((deliver c up).waiters ≡ pre ++ later)
        × (outcome disconnected (deliver c up) w.number replied
            ≡ (if up.ok then answered up else rejected up))
  unfolding deliver outcome post check_update deposit received
  deliver-oldest c up pre later w table others hit empty =
      let (found, left) = oldest-behind up.key pre later w others hit in
      rw table (rw found (rw empty (left, rw ((==_iff w.number w.number).1 refl) refl)))
