-- ===== src/Cw/Cat/Order.antt =====
-- The order in which chunks are handed to the rig, in every interleaving of the loop with the calls.
use mathlib.Core.Path.{subst}
use remoses.Prelude.{
  ℕ, suc, ◌+◌, ◌%◌, ◌^◌, ◌≤◌, ◌<◌, ◌≡◌, refl, sym, ap, ◌⊎◌, inl, inr, true, not, Option, none, some,
  List, [], ◌∷◌, ◌++◌, arith, ◌==◌, length, drop, All, All-append,
}
use remoses.Cw.Cat.{numbered, last_id, is_done, abort}
use remoses.Cw.Cat.Loop.{System, idle, Call, is_head, Run}
use remoses.Cw.Cat.Views.{View, held_at, Stable, Run-Holds}
use remoses.Cw.Chunk.{Chunk}

-- Ids that grow strictly along a queue, above `lo` and up to `hi`.
abbrev pub Rising : ℕ → ℕ → List Chunk → Type 0
Rising lo hi [] = lo ≤ hi
Rising lo hi (c ∷ cs) = (lo < c.id) × Rising c.id hi cs

-- Ids that fall strictly, below `hi`.
abbrev pub Falling : ℕ → List Chunk → Type 0
Falling hi [] = Unit
Falling hi (c ∷ cs) = (c.id < hi) × Falling c.id cs

-- The queue stands in the order of the ids, all of which are given out and later than what was sent.
abbrev pub Ordered : List Chunk → ℕ → List Chunk → Type 0
Ordered q n sent = (last : ℕ) × Rising last n q × Falling (suc last) sent

Rising-le : (lo hi : ℕ) (q : List Chunk) → Rising lo hi q → lo ≤ hi
Rising-le lo hi [] h = h
Rising-le lo hi (c ∷ cs) (above, h) = omega (arith, Rising-le c.id hi cs h)

Rising-numbered :
    (n : ℕ) (cs : List Chunk) → n + length cs < 2 ^ 64 → Rising n (last_id n cs) (numbered n cs)
unfolding numbered last_id
Rising-numbered n [] h = omega arith
Rising-numbered n (c ∷ cs) h = (omega arith, Rising-numbered ((n + 1) % 2 ^ 64) cs (omega arith))

Rising-append :
    (lo mid hi : ℕ) (q r : List Chunk) → Rising lo mid q → Rising mid hi r → Rising lo hi (q ++ r)
Rising-append lo mid hi [] [] h k = omega arith
Rising-append lo mid hi [] (c ∷ cs) h (above, k) = (omega arith, k)
Rising-append lo mid hi (c ∷ q) r (above, h) k = (above, Rising-append c.id mid hi q r h k)

Falling-weaken : (lo hi : ℕ) (cs : List Chunk) → lo ≤ hi → Falling lo cs → Falling hi cs
Falling-weaken lo hi [] le h = tt
Falling-weaken lo hi (c ∷ cs) le (below, h) = (omega arith, h)

Ordered-take :
    (q : List Chunk) (n : ℕ) (sent : List Chunk) (c : Chunk)
    → is_head c q ≡ true
    → Ordered q n sent
    → Ordered (drop 1 q) n (c ∷ sent)
unfolding is_head
Ordered-take [] n sent c head h = absurd (cc head)
Ordered-take (d ∷ ds) n sent c head (last, (above, rising), falling) =
    (d.id, rising, (ground arith, Falling-weaken (suc last) c.id sent (ground arith) falling))

-- The chunks of some calls.
abbrev pub chunks_of : List Call → List Chunk
chunks_of [] = []
chunks_of (k ∷ ks) = k.chunk ∷ chunks_of ks

-- All chunks that left the queue for the rig.
abbrev gone : Option (Chunk × ℕ) → List Call → List Chunk
gone none calls = chunks_of calls
gone (some (c, x)) calls = c ∷ chunks_of calls

abbrev OrderedView : View → Type 0
OrderedView v = Ordered v.queue v.next_id (gone v.held v.calls)

OrderedView-Stable : Stable OrderedView
OrderedView-Stable = record {
  drops = λ v (last, rising, falling). (last, Rising-le last v.next_id v.queue rising, falling);
  extends = λ v cs fits (last, rising, falling). (
    last,
    Rising-append last v.next_id _ v.queue _ rising (Rising-numbered v.next_id cs fits),
    falling,
  );
  takes_head = λ v c x head current free h.
      Ordered-take v.queue v.next_id (chunks_of v.calls) c head
        (subst (λ o. Ordered v.queue v.next_id (gone o v.calls)) free h);
  hands_over = λ v c x holds h. subst (λ o. Ordered v.queue v.next_id (gone o v.calls)) holds h;
  cancels = λ v next h. h;
}

gone-Ordered :
    (q : List Chunk) (n : ℕ) (held : Option (Chunk × ℕ)) (calls : List Call)
    → Ordered q n (gone held calls)
    → Ordered q n (chunks_of calls)
gone-Ordered q n none calls h = h
gone-Ordered q n (some (c, x)) calls (last, rising, (below, falling)) =
    (last, rising, Falling-weaken c.id (suc last) (chunks_of calls) (omega arith) falling)

-- From a state in that order on in which no chunk is off the queue and not yet handed over, however the
-- calls and the loop interleave, the ids of the chunks that `SendChunk` is called with grow strictly: no
-- chunk is sent twice, none out of the order in which the chunks were queued, and every chunk still
-- queued is later than all of them.
pub Run-Ordered {ℓ} :
    {E : Type ℓ} (from to : System E)
    → Run from to
    → held_at from.phase ≡ none
    → Ordered from.sender.queue from.sender.next_id (chunks_of from.calls)
    → Ordered to.sender.queue to.sender.next_id (chunks_of to.calls)
Run-Ordered from to run free h =
    gone-Ordered to.sender.queue to.sender.next_id (held_at to.phase) to.calls (
      Run-Holds OrderedView-Stable from to run (
        subst (λ o. Ordered from.sender.queue from.sender.next_id (gone o from.calls)) (sym free)
          h))

is_done-more : (x y : ℕ) (ys : List ℕ) → is_done x ys ≡ true → is_done x (y ∷ ys) ≡ true
unfolding is_done
is_done-more x y ys h = ground arith

is_done-same : (x y : ℕ) (ys : List ℕ) → (y == x) ≡ true → is_done x (y ∷ ys) ≡ true
unfolding is_done
is_done-same x y ys h = ground arith

-- A chunk that is off the queue is held with the context of the sender or with a cancelled one.
abbrev HeldContext : ℕ → List ℕ → Option (Chunk × ℕ) → Type 0
HeldContext ctx cancelled none = Unit
HeldContext ctx cancelled (some (c, x)) = ((ctx == x) ≡ true) ⊎ (is_done x cancelled ≡ true)

HeldContext-cancels :
    (ctx next : ℕ) (cancelled : List ℕ) (held : Option (Chunk × ℕ))
    → HeldContext ctx cancelled held
    → HeldContext next (ctx ∷ cancelled) held
HeldContext-cancels ctx next cancelled none h = tt
HeldContext-cancels ctx next cancelled (some (c, x)) (inl same) =
    inr (is_done-same x ctx cancelled same)
HeldContext-cancels ctx next cancelled (some (c, x)) (inr done) =
    inr (is_done-more x ctx cancelled done)

HeldContext-Stable : Stable (λ v. HeldContext v.ctx v.cancelled v.held)
HeldContext-Stable = record {
  drops = λ v h. h;
  extends = λ v cs fits h. h;
  takes_head = λ v c x head current free h. inl current;
  hands_over = λ v c x holds h. tt;
  cancels = λ v next h. HeldContext-cancels v.ctx next v.cancelled v.held h;
}

-- A chunk that is off the queue is later than `b`, or its context is cancelled.
abbrev LateOrDone : ℕ → List ℕ → Option (Chunk × ℕ) → Type 0
LateOrDone b cancelled none = Unit
LateOrDone b cancelled (some (c, x)) = (b < c.id) ⊎ (is_done x cancelled ≡ true)

LateOrDone-cancels :
    (b y : ℕ) (cancelled : List ℕ) (held : Option (Chunk × ℕ))
    → LateOrDone b cancelled held
    → LateOrDone b (y ∷ cancelled) held
LateOrDone-cancels b y cancelled none h = tt
LateOrDone-cancels b y cancelled (some (c, x)) (inl late) = inl late
LateOrDone-cancels b y cancelled (some (c, x)) (inr done) = inr (is_done-more x y cancelled done)

-- A call with a live context is one of a chunk later than `b`.
abbrev pub LateIfLive : ℕ → Call → Type 0
LateIfLive b k = k.live ≡ true → b < k.chunk.id

handed-LateIfLive :
    (b : ℕ) (cancelled : List ℕ) (c : Chunk) (x : ℕ)
    → LateOrDone b cancelled (some (c, x))
    → not (is_done x cancelled) ≡ true
    → b < c.id
handed-LateIfLive b cancelled c x (inl late) live = late
handed-LateIfLive b cancelled c x (inr done) live = absurd (cc (done, live))

-- Everything that is queued, and everything that is called for with a live context since `old`, is
-- later than `b`.
abbrev After : ℕ → List Call → View → Type 0
After b old v =
    (b ≤ v.next_id)
    × All (λ c. b < c.id) v.queue
    × LateOrDone b v.cancelled v.held
    × ((new : List Call) × (v.calls ≡ new ++ old) × All (LateIfLive b) new)

numbered-Above :
    (b n : ℕ) (cs : List Chunk)
    → b ≤ n
    → n + length cs < 2 ^ 64
    → (b ≤ last_id n cs) × All (λ c. b < c.id) (numbered n cs)
unfolding numbered last_id
numbered-Above b n [] le h = (le, tt)
numbered-Above b n (c ∷ cs) le h =
    let (bound, above) = numbered-Above b ((n + 1) % 2 ^ 64) cs (omega arith) (omega arith) in
    (bound, (omega arith, above))

take-Above :
    (b : ℕ) (q : List Chunk) (c : Chunk)
    → is_head c q ≡ true
    → All (λ d. b < d.id) q
    → (b < c.id) × All (λ d. b < d.id) (drop 1 q)
unfolding is_head
take-Above b [] c head h = absurd (cc head)
take-Above b (d ∷ ds) c head (above, rest) = (ground arith, rest)

After-Stable : (b : ℕ) (old : List Call) → Stable (After b old)
After-Stable b old = record {
  drops = λ v (le, above, held, more). (le, tt, held, more);
  extends = λ v cs fits (le, above, held, more).
      let (bound, fresh) = numbered-Above b v.next_id cs le fits in
      (bound, All-append _ v.queue _ above fresh, held, more);
  takes_head = λ v c x head current free (le, above, held, more).
      let (late, rest) = take-Above b v.queue c head above in (le, rest, inl late, more);
  hands_over = λ v c x holds (le, above, held, (new, same, late)). (
    le,
    above,
    tt,
    (
      record { chunk = c; live = not (is_done x v.cancelled) } ∷ new,
      ap (◌∷◌ (record { chunk = c; live = not (is_done x v.cancelled) })) same,
      (handed-LateIfLive b v.cancelled c x (subst (LateOrDone b v.cancelled) holds held), late),
    ),
  );
  cancels = λ v next (le, above, held, more).
      (le, above, LateOrDone-cancels b v.ctx v.cancelled v.held held, more);
}

-- Behind an Abort whatever is held has a cancelled context.
held-done :
    (b ctx : ℕ) (cancelled : List ℕ) (held : Option (Chunk × ℕ))
    → HeldContext ctx cancelled held
    → LateOrDone b (ctx ∷ cancelled) held
held-done b ctx cancelled none h = tt
held-done b ctx cancelled (some (c, x)) (inl same) = inr (is_done-same x ctx cancelled same)
held-done b ctx cancelled (some (c, x)) (inr done) = inr (is_done-more x ctx cancelled done)

-- After an Abort, in every interleaving of the calls and the loop, `SendChunk` is called with a live
-- context only for chunks that are enqueued later: what was queued is never handed over, and a chunk
-- that the loop had taken off the queue but not yet handed over is handed over at most with a cancelled
-- context, if the loop was idle at first.
pub abort-After {ℓ} :
    {E : Type ℓ} (start sys to : System E)
    → start.phase ≡ idle
    → Run start sys
    → Run (record sys { sender = abort sys.sender }) to
    → (new : List Call) × (to.calls ≡ new ++ sys.calls) × All (LateIfLive sys.sender.next_id) new
unfolding abort
abort-After start sys to quiet earlier behind =
    let held = Run-Holds HeldContext-Stable start sys earlier (
      subst (λ ph. HeldContext start.sender.ctx start.sender.cancelled (held_at ph)) (sym quiet)
        tt) in
    let (le, above, late, more) =
      Run-Holds (After-Stable sys.sender.next_id sys.calls)
        (record sys { sender = abort sys.sender }) to behind
        (
          omega arith,
          tt,
          held-done sys.sender.next_id sys.sender.ctx sys.sender.cancelled (held_at sys.phase) held,
          ([], refl, tt),
        ) in
    more
