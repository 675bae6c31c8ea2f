-- ===== src/Cw/Chunk/Laws.antt =====
-- What the chunks of a text hold.
use mathlib.Core.List.{append_assoc, append-nil}
use mathlib.Core.Sum.{inl-injective}
use remoses.Prelude.{
  ℕ, ◌+◌, ◌≤◌, ◌≡◌, refl, sym, ap, ◌∙◌, ◌⊎◌, inl, inr, Option, none, some, List, [], ◌∷◌, ◌++◌,
  arith, ltb, leb, Bool-cases, Bytes, length, All, All-append,
}
use remoses.Cw.Cat.Loop.{room}
use remoses.Cw.Chunk.{
  Chunk, Piece, groups, units, ◌and_then◌, joined, chunk_loop, unit_piece, split_units,
  group_pieces, split_group, split_groups, split, build_chunks,
}
use remoses.Cw.Chunk.Cuts.{concat_all, concat-groups, concat-units}

abbrev pub canons : List Piece → Bytes
canons [] = []
canons (p ∷ ps) = p.canon ++ canons ps

abbrev pub chunk_canons : List Chunk → Bytes
chunk_canons [] = []
chunk_canons (c ∷ cs) = c.canon ++ chunk_canons cs

canons-append : (ps qs : List Piece) → canons (ps ++ qs) ≡ canons ps ++ canons qs
canons-append [] qs = refl
canons-append (p ∷ ps) qs =
    ap (λ x. p.canon ++ x) (canons-append ps qs)
    ∙ sym (append_assoc p.canon (canons ps) (canons qs))

-- What is open and what is still to come.
abbrev open_canon : Option Piece → Bytes
open_canon none = []
open_canon (some cur) = cur.canon

chunk_loop-canons :
    (max_chunk : ℕ) (cur : Option Piece) (ps : List Piece)
    → chunk_canons (chunk_loop max_chunk cur ps) ≡ open_canon cur ++ canons ps
unfolding chunk_loop
chunk_loop-canons max_chunk none [] = refl
chunk_loop-canons max_chunk (some cur) [] = refl
chunk_loop-canons max_chunk none (p ∷ ps) = chunk_loop-canons max_chunk (some p) ps
chunk_loop-canons max_chunk (some cur) (p ∷ ps) =
    elim (Bool-cases (ltb max_chunk (length cur.encoded + length p.encoded))) [
      | inl full ↦ rw full (ap (λ x. cur.canon ++ x) (chunk_loop-canons max_chunk (some p) ps))
      | inr room ↦ rw room (
          chunk_loop-canons max_chunk (some (joined cur p)) ps
          ∙ append_assoc cur.canon p.canon (canons ps))
    ]

abbrev Fits : ℕ → Piece → Type 0
Fits max_chunk p = length p.encoded ≤ max_chunk

and_then-eq-inl {ℓ κ μ} :
    {A : Type ℓ} {B : Type κ} {F : Type μ} (m : A ⊎ F) (f : A → B ⊎ F) {b : B}
    → (m and_then f) ≡ inl b
    → (a : A) × (m ≡ inl a) × (f a ≡ inl b)
and_then-eq-inl (inr e) f h = cc
and_then-eq-inl (inl a) f h = (a, refl, h)

module _ {ℓ} {E : Type ℓ} (max_chunk : ℕ) (encode : Bytes → Bytes ⊎ E) where
  -- Pieces that spell `text`, each encoded as it stands and short enough for a chunk.
  abbrev Encoded : Piece → Type ℓ
  Encoded p = (encode p.canon ≡ inl p.encoded) × Fits max_chunk p

  abbrev Pieces : Bytes → List Piece → Type ℓ
  Pieces text ps = (canons ps ≡ text) × All Encoded ps

  unit_piece-Encoded :
      (u : Bytes) (p : Piece) (r : Bytes ⊎ E)
      → encode u ≡ r
      → unit_piece max_chunk encode u r ≡ inl p
      → (p.canon ≡ u) × Encoded p
  unfolding unit_piece
  unit_piece-Encoded u p (inr x) bad e = absurd (cc e)
  unit_piece-Encoded u p (inl enc) good e = elim (Bool-cases (ltb max_chunk (length enc))) [
    | inl long ↦ absurd (ground arith)
    | inr short ↦ rw (sym (inl-injective _ _ (rw short at e))) (refl, (good, ground arith))
  ]

  split_units-Pieces :
      (us : List Bytes) (ps : List Piece)
      → split_units max_chunk encode us ≡ inl ps
      → Pieces (concat_all us) ps
  unfolding split_units
  split_units-Pieces [] ps e = rw (sym (inl-injective _ _ e)) (refl, tt)
  split_units-Pieces (u ∷ us) ps e =
      let (p, ep, later) = and_then-eq-inl (unit_piece max_chunk encode u (encode u)) _ e in
      let (qs, eq, done) = and_then-eq-inl (split_units max_chunk encode us) _ later in
      let (cp, fits) = unit_piece-Encoded u p (encode u) refl ep in
      let (cq, aq) = split_units-Pieces us qs eq in
      rw (sym (inl-injective _ _ done)) (rw cp (ap (λ x. u ++ x) cq), (fits, aq))

  group_pieces-Pieces :
      (group : Bytes) (ps : List Piece) (r : Bytes ⊎ E)
      → encode group ≡ r
      → group_pieces max_chunk encode group r ≡ inl ps
      → Pieces group ps
  unfolding group_pieces
  group_pieces-Pieces group ps (inr x) bad e = absurd (cc e)
  group_pieces-Pieces group ps (inl enc) good e = elim (Bool-cases (leb (length enc) max_chunk)) [
    | inl short ↦
        let single = sym (inl-injective _ _ (rw short at e)) in
        rw single (append-nil group, ((good, ground arith), tt))
    | inr long ↦
        let (cu, au) = split_units-Pieces (units group) ps (rw long at e) in
        (cu ∙ concat-units group, au)
  ]

  split_group-Pieces :
      (group : Bytes) (ps : List Piece)
      → split_group max_chunk encode group ≡ inl ps
      → Pieces group ps
  unfolding split_group
  split_group-Pieces group ps e = group_pieces-Pieces group ps (encode group) refl e

  split_groups-Pieces :
      (gs : List Bytes) (ps : List Piece)
      → split_groups max_chunk encode gs ≡ inl ps
      → Pieces (concat_all gs) ps
  unfolding split_groups
  split_groups-Pieces [] ps e = rw (sym (inl-injective _ _ e)) (refl, tt)
  split_groups-Pieces (g ∷ gs) ps e =
      let (fs, ef, later) = and_then-eq-inl (split_group max_chunk encode g) _ e in
      let (qs, eq, done) = and_then-eq-inl (split_groups max_chunk encode gs) _ later in
      let (cf, af) = split_group-Pieces g fs ef in
      let (cq, aq) = split_groups-Pieces gs qs eq in
      rw (sym (inl-injective _ _ done))
        (canons-append fs qs ∙ rw cf (ap (λ x. g ++ x) cq), All-append Encoded fs qs af aq)

  build-Pieces :
      (text : Bytes) (cs : List Chunk)
      → build_chunks max_chunk encode text ≡ inl cs
      → (ps : List Piece) × (chunk_loop max_chunk none ps ≡ cs) × Pieces text ps
  unfolding build_chunks split
  build-Pieces text cs e = elim (Bool-cases (ltb max_chunk 1)) [
    | inl unfit ↦ absurd (ground arith)
    | inr fit ↦
        let (ps, ep, done) =
          and_then-eq-inl (split_groups max_chunk encode (groups text)) _ (rw fit at e) in
        let (cp, ap) = split_groups-Pieces (groups text) ps ep in
        (ps, inl-injective _ _ done, (cp ∙ concat-groups text, ap))
  ]

  -- The chunks that `buildChunks` makes, where it makes any, hold the whole text, in order.
  pub build_chunks-canon :
      (text : Bytes) (cs : List Chunk)
      → build_chunks max_chunk encode text ≡ inl cs
      → chunk_canons cs ≡ text
  build_chunks-canon text cs e =
      let (ps, ec, (cp, ap)) = build-Pieces text cs e in
      rw (sym ec) (chunk_loop-canons max_chunk none ps ∙ cp)
