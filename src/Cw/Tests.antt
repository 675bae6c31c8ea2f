-- ===== src/Cw/Tests.antt =====
-- Runs of the sender on concrete texts, and the theorems about it at those.
use remoses.Prelude.{ℕ, ◌≡◌, refl, ◌⊎◌, inl, false, List, [], ◌∷◌, ◌++◌, arith, runes, Bytes, All}
use remoses.Cw.Cat.{
  enqueue, append, Sender, numbered, last_id, is_done, checked, prepared, accept, abort,
}
use remoses.Cw.Cat.Loop.{
  System, idle, ready, room_free, Call, pick_head, is_head, pick, room, take_head, hand_over,
  enqueues, picks, asks, takes, hands, Run, here, then_step,
}
use remoses.Cw.Cat.Order.{Ordered, chunks_of, Run-Ordered, LateIfLive, abort-After}
use remoses.Cw.Chunk.{
  Chunk, ascii_upper_rune, ascii_upper, contains_rune, in_charset, validate_from, validate,
  space_run, word_run, group_run, groups_loop, groups, chunk_loop, group_pieces, split_group,
  split_groups, split, build_chunks,
}
use remoses.Cw.Chunk.Laws.{chunk_canons, build_chunks-canon}

abbrev plain : Bytes → Bytes ⊎ ℕ
plain text = inl text

abbrev calling : Bytes
calling = runes "CQ CQ TEST"

abbrev calling_chunks : List Chunk
calling_chunks =
    record { canon = runes "CQ CQ"; encoded = runes "CQ CQ"; chars = 5; id = 0 }
    ∷ record { canon = runes " TEST"; encoded = runes " TEST"; chars = 5; id = 0 }
    ∷ []

build-calling : build_chunks 8 plain calling ≡ inl calling_chunks
unfolding build_chunks split groups groups_loop group_run space_run word_run split_groups
    split_group group_pieces chunk_loop
build-calling = refl

build_chunks-canon_example : chunk_canons calling_chunks ≡ calling
build_chunks-canon_example = build_chunks-canon 8 plain calling calling_chunks build-calling

abbrev station : Sender ℕ
station = record {
  ms = record { charset = runes "CQTES "; max_chunk = 8; encode_prosigns = plain };
  max_chunk = 8;
  chunks_in_flight = 1;
  queue = [];
  inflight = [];
  drain_at = 0;
  sending = false;
  wpm = 20;
  next_id = 0;
  closed = false;
  ctx = 0;
  cancelled = [];
}

abbrev start : System ℕ
start = record { sender = station; phase = idle; calls = [] }

abbrev cq : Chunk
cq = record { canon = runes "CQ"; encoded = runes "CQ"; chars = 2; id = 0 }

abbrev first : Chunk
first = record { canon = runes "CQ"; encoded = runes "CQ"; chars = 2; id = 1 }

prepared-cq : prepared station (runes "cq") ≡ inl (cq ∷ [])
unfolding prepared checked validate validate_from in_charset contains_rune ascii_upper
    ascii_upper_rune build_chunks split groups groups_loop group_run space_run word_run split_groups
    split_group group_pieces chunk_loop
prepared-cq = refl

abbrev queued : System ℕ
queued = record start { sender = (enqueue station (runes "cq") append).1 }

Run-queued : Run start queued
Run-queued = then_step here (enqueues (runes "cq") append (cq ∷ []) prepared-cq (omega arith))

-- Off the queue, and handed over.
abbrev taken : System ℕ
taken = take_head (record queued { phase = ready first 0 }) first 0

abbrev handed : System ℕ
handed = hand_over taken first 0

Run-taken : Run start taken
unfolding enqueue accept pick pick_head room take_head prepared checked validate validate_from
    in_charset contains_rune ascii_upper ascii_upper_rune build_chunks split groups groups_loop
    group_run space_run word_run split_groups split_group group_pieces chunk_loop numbered last_id
Run-taken =
    then_step (then_step (then_step Run-queued (picks refl)) (asks first 0 (room_free 30) refl))
      (takes first 0 refl)

Run-handed : Run start handed
unfolding enqueue accept take_head prepared checked validate validate_from in_charset contains_rune
    ascii_upper ascii_upper_rune build_chunks split groups groups_loop group_run space_run word_run
    split_groups split_group group_pieces chunk_loop numbered last_id is_head
Run-handed = then_step Run-taken (hands first 0 refl)

Run-Ordered_example : Ordered handed.sender.queue handed.sender.next_id (chunks_of handed.calls)
Run-Ordered_example = Run-Ordered start handed Run-handed refl (0, omega arith, tt)

-- An Abort between the removal of the head and the call of `SendChunk`: the chunk is handed over with a
-- cancelled context, and one that is enqueued behind it waits.
abbrev stopped : System ℕ
stopped = record taken { sender = abort taken.sender }

abbrev again : System ℕ
again =
    hand_over (record stopped { sender = (enqueue stopped.sender (runes "cq") append).1 }) first 0

Run-again : Run stopped again
unfolding enqueue abort accept take_head prepared checked validate validate_from in_charset
    contains_rune ascii_upper ascii_upper_rune build_chunks split groups groups_loop group_run
    space_run word_run split_groups split_group group_pieces chunk_loop numbered last_id is_head
Run-again =
    then_step (then_step here (enqueues (runes "cq") append (cq ∷ []) refl (omega arith)))
      (hands first 0 refl)

again-calls : again.calls ≡ record { chunk = first; live = false } ∷ []
unfolding enqueue abort accept take_head hand_over is_done prepared checked validate validate_from
    in_charset contains_rune ascii_upper ascii_upper_rune build_chunks split groups groups_loop
    group_run space_run word_run split_groups split_group group_pieces chunk_loop numbered last_id
    is_head
again-calls = refl

abort-After_example :
    (new : List Call) × (again.calls ≡ new ++ taken.calls)
    × All (LateIfLive taken.sender.next_id) new
abort-After_example = abort-After start taken again refl Run-taken Run-again
