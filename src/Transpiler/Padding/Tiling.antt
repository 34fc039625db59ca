-- ===== src/Transpiler/Padding/Tiling.antt =====
-- When the operations of a wire in a block follow each other without a gap.
use qiskit_ibm_provider.Common.{
  subst, ℕ, ◌+◌, ◌<◌, ◌≡◌, ◌∙◌, refl, sym, ap, max, Bool, true, false, ◌&&◌, not, Option, none,
  some, List, [], ◌∷◌, if◌then◌else◌, ◌==◌, ltb, arith, Bool-cases, inl, inr,
}
use qiskit_ibm_provider.Transpiler.Schedule.{mem}
use qiskit_ibm_provider.Transpiler.Padding.{
  Origin, padding, of_node, Added, State, Piece, Pad, pad_delay, apply_scheduled_op, add_pieces,
}
use qiskit_ibm_provider.Transpiler.Padding.Visits.{pad_between, pad_until_block_end}

-- The barriers at the ends of blocks and control flow take no time, and have none in the block.
abbrev pub takes_time : Origin → Bool
takes_time padding = true
takes_time (of_node k) = true
takes_time _ = false

abbrev pub on_wire : ℕ → ℕ → Added → Bool
on_wire q b a = takes_time a.origin && ((a.in_block == b) && mem q a.qubits)

abbrev pub extend : Option ℕ → ℕ → ℕ → Option ℕ
extend none start duration = none
extend (some t) start duration = if t == start then some (t + duration) else none

-- The time at which the operations of a wire end in a block, when the first starts at 0 and each of
-- the others when the one before ends. The operations are given the last one first.
unfoldable pub tiled_end : ℕ → ℕ → List Added → Option ℕ
tiled_end q b [] = some 0
tiled_end q b (a ∷ rs) =
    let rest = tiled_end q b rs in if on_wire q b a then extend rest a.start a.duration else rest

-- The time at which pieces end that follow each other from `t` on.
unfoldable pub pieces_end : ℕ → List Piece → Option ℕ
pieces_end t [] = some t
pieces_end t (p ∷ ps) =
    let rest = pieces_end (t + p.piece_duration) ps in if t == p.piece_start then rest else none

-- No wire comes twice.
abbrev pub IsDistinct : List ℕ → Type 0
IsDistinct [] = Unit
IsDistinct (q ∷ qs) = (mem q qs ≡ false) × IsDistinct qs

-- `_pad` fills the interval, as its documentation demands.
pub record IsFilling (pad : Pad) : Type 0 where
  pub fills :
      (bit t_start t_end : ℕ) (at_output : Bool)
      → t_start < t_end
      → pieces_end t_start (pad bit t_start t_end at_output) ≡ some t_end

pub pad_delay-IsFilling : IsFilling (pad_delay true)
unfolding pad_delay pieces_end
pad_delay-IsFilling = record { fills = λ bit t_start t_end at_output h. ground arith }

-- The operation is on another wire, or in another block.
abbrev pub elsewhere : ℕ → ℕ → ℕ → ℕ → Bool
elsewhere q b bit block_idx = not ((block_idx == b) && (q == bit))

pub tiled_end-skip :
    (q b : ℕ) (a : Added) (rs : List Added)
    → on_wire q b a ≡ false
    → tiled_end q b (a ∷ rs) ≡ tiled_end q b rs
unfolding tiled_end
tiled_end-skip q b a rs h = rw h refl

pub tiled_end-next :
    (q b : ℕ) (a : Added) (rs : List Added) (t : ℕ)
    → on_wire q b a ≡ true
    → tiled_end q b rs ≡ some t
    → t ≡ a.start
    → tiled_end q b (a ∷ rs) ≡ some (t + a.duration)
unfolding tiled_end
tiled_end-next q b a rs t h k same = rw (h, k) (ground arith)

abbrev added_piece : ℕ → ℕ → Piece → State → Added
added_piece block_idx bit p s = record {
  origin = padding;
  dag = s.block_dag;
  in_block = block_idx;
  start = p.piece_start;
  duration = p.piece_duration;
  qubits = bit ∷ [];
}

add_pieces-elsewhere :
    (q b block_idx bit : ℕ) (ps : List Piece) (s : State)
    → elsewhere q b bit block_idx ≡ true
    → tiled_end q b (add_pieces block_idx bit ps s).added ≡ tiled_end q b s.added
unfolding add_pieces apply_scheduled_op tiled_end
add_pieces-elsewhere q b block_idx bit [] s h = refl
add_pieces-elsewhere q b block_idx bit (p ∷ ps) s h =
    add_pieces-elsewhere q b block_idx bit ps
      (apply_scheduled_op padding block_idx p.piece_start p.piece_duration (bit ∷ []) s) h
    ∙ tiled_end-skip q b (added_piece block_idx bit p s) s.added (ground arith)

add_pieces-tiled_end :
    (block_idx bit : ℕ) (ps : List Piece) (s : State) (t t1 : ℕ)
    → tiled_end bit block_idx s.added ≡ some t
    → pieces_end t ps ≡ some t1
    → tiled_end bit block_idx (add_pieces block_idx bit ps s).added ≡ some t1
unfolding add_pieces apply_scheduled_op tiled_end pieces_end
add_pieces-tiled_end block_idx bit [] s t t1 h k = h ∙ k
add_pieces-tiled_end block_idx bit (p ∷ ps) s t t1 h k = elim (Bool-cases (t == p.piece_start)) [
  | inr e ↦ absurd (ground arith)
  | inl e ↦
      add_pieces-tiled_end block_idx bit ps
        (apply_scheduled_op padding block_idx p.piece_start p.piece_duration (bit ∷ []) s)
        (t + p.piece_duration) t1
        (let same : t ≡ p.piece_start = ground arith in
          tiled_end-next bit block_idx (added_piece block_idx bit p s) s.added t (ground arith) h
            same)
        (ground arith)
]

module _ (pad : Pad) (filling : IsFilling pad) where
  -- After `_pad`, the wire is filled up to the time; a wire that is not idle before it is left alone.
  pub pad_between-tiled_end :
      (block_idx bit t_end : ℕ) (at_output : Bool) (s : State)
      → tiled_end bit block_idx s.added ≡ some (s.idle_after bit)
      → tiled_end bit block_idx (pad_between pad block_idx bit t_end at_output s).added
        ≡ some (max (s.idle_after bit) t_end)
  unfolding pad_between
  pad_between-tiled_end block_idx bit t_end at_output s h =
      elim (Bool-cases (ltb (s.idle_after bit) t_end)) [
        | inl k ↦
            let less : s.idle_after bit < t_end = ground arith in
            rw k (
              add_pieces-tiled_end block_idx bit (pad bit (s.idle_after bit) t_end at_output) s
                (s.idle_after bit) t_end h
                (filling.fills bit (s.idle_after bit) t_end at_output less)
              ∙ ap some (omega arith))
        | inr k ↦ rw k (h ∙ ap some (ground arith))
      ]

  pub pad_between-elsewhere :
      (q b block_idx bit t_end : ℕ) (at_output : Bool) (s : State)
      → elsewhere q b bit block_idx ≡ true
      → tiled_end q b (pad_between pad block_idx bit t_end at_output s).added
        ≡ tiled_end q b s.added
  unfolding pad_between
  pad_between-elsewhere q b block_idx bit t_end at_output s h =
      elim (Bool-cases (ltb (s.idle_after bit) t_end)) [
        | inl k ↦ rw k (
            add_pieces-elsewhere q b block_idx bit (pad bit (s.idle_after bit) t_end at_output) s h)
        | inr k ↦ rw k refl
      ]

  -- Padding changes nothing but the list of operations.
  add_pieces-frame :
      (block_idx bit : ℕ) (ps : List Piece) (s : State)
      → add_pieces block_idx bit ps s ≡ record s { added = (add_pieces block_idx bit ps s).added }
  unfolding add_pieces apply_scheduled_op
  add_pieces-frame block_idx bit [] s = refl
  add_pieces-frame block_idx bit (p ∷ ps) s =
      add_pieces-frame block_idx bit ps
        (apply_scheduled_op padding block_idx p.piece_start p.piece_duration (bit ∷ []) s)

  pub pad_between-frame :
      (block_idx bit t_end : ℕ) (at_output : Bool) (s : State)
      → pad_between pad block_idx bit t_end at_output s
        ≡ record s { added = (pad_between pad block_idx bit t_end at_output s).added }
  unfolding pad_between
  pad_between-frame block_idx bit t_end at_output s =
      elim (Bool-cases (ltb (s.idle_after bit) t_end)) [
        | inl k ↦
            rw k (add_pieces-frame block_idx bit (pad bit (s.idle_after bit) t_end at_output) s)
        | inr k ↦ rw k refl
      ]

  pub pad_until_block_end-frame :
      (t_end block_idx : ℕ) (bits : List ℕ) (s : State)
      → pad_until_block_end pad t_end block_idx bits s
        ≡ record s { added = (pad_until_block_end pad t_end block_idx bits s).added }
  unfolding pad_until_block_end
  pad_until_block_end-frame t_end block_idx [] s = refl
  pad_until_block_end-frame t_end block_idx (bit ∷ bits) s =
      let s1 = pad_between pad block_idx bit t_end true s in
      let s2 = pad_until_block_end pad t_end block_idx bits s1 in
      pad_until_block_end-frame t_end block_idx bits s1
      ∙ ap (λ (t : State). record t { added = s2.added })
          (pad_between-frame block_idx bit t_end true s)

  pub pad_until_block_end-elsewhere :
      (q b t_end block_idx : ℕ) (bits : List ℕ) (s : State)
      → (block_idx == b) && mem q bits ≡ false
      → tiled_end q b (pad_until_block_end pad t_end block_idx bits s).added ≡ tiled_end q b s.added
  unfolding pad_until_block_end
  pad_until_block_end-elsewhere q b t_end block_idx [] s h = refl
  pad_until_block_end-elsewhere q b t_end block_idx (bit ∷ bits) s h =
      pad_until_block_end-elsewhere q b t_end block_idx bits
        (pad_between pad block_idx bit t_end true s) (ground arith)
      ∙ pad_between-elsewhere q b block_idx bit t_end true s (ground arith)

  -- The end of a block: the wires are filled up to its end.
  pub pad_until_block_end-tiled_end :
      (q t_end block_idx : ℕ) (bits : List ℕ) (s : State)
      → IsDistinct bits
      → mem q bits ≡ true
      → tiled_end q block_idx s.added ≡ some (s.idle_after q)
      → tiled_end q block_idx (pad_until_block_end pad t_end block_idx bits s).added
        ≡ some (max (s.idle_after q) t_end)
  unfolding pad_until_block_end
  pad_until_block_end-tiled_end q t_end block_idx [] s d m h = absurd cc
  pad_until_block_end-tiled_end q t_end block_idx (bit ∷ bits) s (once, d) m h =
      elim (Bool-cases (q == bit)) [
        | inl e ↦
            let same : q ≡ bit = ground arith in
            let s1 = pad_between pad block_idx bit t_end true s in
            subst
              (λ r.
                tiled_end r block_idx (pad_until_block_end pad t_end block_idx bits s1).added
                ≡ some (max (s.idle_after r) t_end))
              (sym same)
              (pad_until_block_end-elsewhere bit block_idx t_end block_idx bits s1
                  (ground (arith, once))
                ∙ pad_between-tiled_end block_idx bit t_end true s
                    (subst (λ r. tiled_end r block_idx s.added ≡ some (s.idle_after r)) same h))
        | inr e ↦
            let s1 = pad_between pad block_idx bit t_end true s in
            let idle : s1.idle_after ≡ s.idle_after =
              ap (λ (t : State). t.idle_after) (pad_between-frame block_idx bit t_end true s) in
            let before =
              pad_between-elsewhere q block_idx block_idx bit t_end true s (ground arith) in
            pad_until_block_end-tiled_end q t_end block_idx bits s1 d (ground (arith, m))
              (before ∙ h ∙ ap (λ (f : ℕ → ℕ). some (f q)) (sym idle))
            ∙ ap (λ (f : ℕ → ℕ). some (max (f q) t_end)) idle
      ]
