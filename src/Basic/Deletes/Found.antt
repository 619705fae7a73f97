-- ===== src/Basic/Deletes/Found.antt =====
-- basic/cleanup.go: `findDeletes`, and `propagateDeletes` as a whole.
use pea_old.Prelude.{
  ℕ, ◌<◌, true, false, ◌&&◌, List, [], ◌∷◌, some, ◌≡◌, refl, sym, ap, ◌∙◌, arith, In, In-cons_cases,
  Bool-cases, inl, inr,
}
use mathlib.Core.Path.{subst}
use pea_old.Basic.Ir.{Node, Block, is_val, uses, rm_in, Heap, term_out}
use pea_old.Basic.Sub.{self_copy}
use pea_old.Basic.Blocks.{rm_ins}
use pea_old.Basic.Deletes.{
  deleted, unused, Work, Funs, find_delete, find_in_block, find_deletes, propagate_deletes,
}
use pea_old.Basic.Deletes.Sound.{IsSound, gone-instr, gone-deleted, gone-IsSound}
use pea_old.Basic.Deletes.Propagate.{measure, propagate_lem}

rm_ins-nodes : (b : ℕ) (os : List ℕ) (h : Heap) → (rm_ins b os h).nodes ≡ h.nodes
unfolding rm_ins rm_in
rm_ins-nodes b [] h = refl
rm_ins-nodes b (o ∷ os) h = rm_ins-nodes b os (rm_in o b h)

-- The same work with other nodes, blocks and stack.
abbrev with_nodes : (ℕ → Node) → (ℕ → Block) → List ℕ → Work → Work
with_nodes f g ds w = record {
  ds = ds;
  heap = record { nodes = f; blocks = g };
  dropped = w.dropped;
}

push-IsSound :
    (n s : ℕ) (g : ℕ → Block) (w : Work)
    → IsSound n w
    → deleted w.heap s ≡ true
    → IsSound n (with_nodes w.heap.nodes g (s ∷ w.ds) w)
push-IsSound n s g w sound del = record {
  dead = sound.dead;
  linked = sound.linked;
  typed = sound.typed;
  stack =
      λ t i. elim (In-cons_cases t s w.ds i) [ inl e ↦ rw e del | inr later ↦ sound.stack t later ];
}

-- What finding keeps.
record IsFound (n : ℕ) (w w' : Work) : Type 0 where
  sound : IsSound n w'
  instrs : (t : ℕ) → (w'.heap.nodes t).instr ≡ (w.heap.nodes t).instr
  more : (t : ℕ) → deleted w.heap t ≡ true → deleted w'.heap t ≡ true

abbrev NoSelfCopy : Work → Type 0
NoSelfCopy w = (s : ℕ) → self_copy (w.heap.nodes s).instr ≡ true → deleted w.heap s ≡ true

IsFound-NoSelfCopy : (n : ℕ) (w w' : Work) → IsFound n w w' → NoSelfCopy w → NoSelfCopy w'
IsFound-NoSelfCopy n w w' f c s h = f.more s (c s (sym (ap self_copy (f.instrs s)) ∙ h))

IsFound-trans : (n : ℕ) (w w1 w2 : Work) → IsFound n w w1 → IsFound n w1 w2 → IsFound n w w2
IsFound-trans n w w1 w2 p q = record {
  sound = q.sound;
  instrs = λ t. q.instrs t ∙ p.instrs t;
  more = λ t h. q.more t (p.more t h);
}

push-IsFound :
    (n s : ℕ) (k : Heap) (w : Work)
    → IsSound n w
    → deleted w.heap s ≡ true
    → k.nodes ≡ w.heap.nodes
    → IsFound n w (record w { ds = s ∷ w.ds; heap = k })
push-IsFound n s k w sound del e = record {
  sound =
      subst (λ f. IsSound n (with_nodes f k.blocks (s ∷ w.ds) w)) (sym e)
        (push-IsSound n s k.blocks w sound del);
  instrs = λ t. ap (λ f. (f t).instr) e;
  more = λ t h. ap (λ f. (f t).del) e ∙ h;
}

find_delete-IsFound :
    (n b s : ℕ) (w : Work) → IsSound n w → NoSelfCopy w → IsFound n w (find_delete b s w)
unfolding find_delete
find_delete-IsFound n b s w sound copies = elim (Bool-cases (deleted w.heap s)) [
  | inl del ↦
      rw (del, find_delete)
        (push-IsFound n s (rm_ins b (term_out (w.heap.nodes s).instr) w.heap) w sound del
          (rm_ins-nodes b (term_out (w.heap.nodes s).instr) w.heap))
  | inr left ↦ elim (Bool-cases (is_val (w.heap.nodes s).instr && unused w.heap s)) [
    | inl drop ↦
        rw (left, drop, find_delete)
          (record {
            sound = gone-IsSound s w (ground arith) sound;
            instrs = gone-instr s w;
            more = λ t h. ground (arith, gone-deleted s w t);
          })
    | inr stay ↦
        let other : self_copy (w.heap.nodes s).instr ≡ false = ground (arith, copies s) in
        rw (left, stay, other, find_delete)
          (record { sound = sound; instrs = λ t. refl; more = λ t h. h })
  ]
]

find_in_block-IsFound :
    (n b : ℕ) (ss : List ℕ) (w : Work)
    → IsSound n w
    → NoSelfCopy w
    → IsFound n w (find_in_block b ss w)
unfolding find_in_block
find_in_block-IsFound n b [] w sound copies = record {
  sound = sound;
  instrs = λ t. refl;
  more = λ t h. h;
}
find_in_block-IsFound n b (s ∷ ss) w sound copies =
    let first = find_delete-IsFound n b s w sound copies in
    IsFound-trans n w (find_delete b s w) (find_in_block b ss (find_delete b s w)) first (
      find_in_block-IsFound n b ss (find_delete b s w) first.sound
        (IsFound-NoSelfCopy n w (find_delete b s w) first copies))

find_deletes-IsFound :
    (n : ℕ) (bs : List ℕ) (w : Work) → IsSound n w → NoSelfCopy w → IsFound n w (find_deletes bs w)
unfolding find_deletes
find_deletes-IsFound n [] w sound copies = record {
  sound = sound;
  instrs = λ t. refl;
  more = λ t h. h;
}
find_deletes-IsFound n (b ∷ bs) w sound copies =
    let ss = (w.heap.blocks b).stmts in
    let first = find_in_block-IsFound n b ss w sound copies in
    IsFound-trans n w (find_in_block b ss w) (find_deletes bs (find_in_block b ss w)) first (
      find_deletes-IsFound n bs (find_in_block b ss w) first.sound
        (IsFound-NoSelfCopy n w (find_in_block b ss w) first copies))

-- The work that `propagateDeletes` begins with.
abbrev pub begin : Heap → Work
begin h = record { ds = []; heap = h; dropped = [] }

-- Where the users of a deleted value are deleted, each statement that is left is a user of all that
-- it uses, which are values numbered below `n`, and a copy onto itself is deleted:
-- `propagateDeletes` returns, with fuel above the measure of what it finds first. No statement that
-- is left uses a deleted value, no statement is changed otherwise, and what was deleted stays so.
pub propagate_deletes_lem :
    (fuel n : ℕ) (funs : Funs) (bs : List ℕ) (h : Heap)
    → IsSound n (begin h)
    → ((s : ℕ) → self_copy (h.nodes s).instr ≡ true → deleted h s ≡ true)
    → measure n (find_deletes bs (begin h)) < fuel
    → (w : Work) × (propagate_deletes fuel funs bs h ≡ some w)
      × ((t v : ℕ)
          → deleted w.heap t ≡ false
          → In v (uses (h.nodes t).instr)
          → deleted w.heap v ≡ false)
      × ((t : ℕ) → (w.heap.nodes t).instr ≡ (h.nodes t).instr)
      × ((t : ℕ) → deleted h t ≡ true → deleted w.heap t ≡ true)
unfolding propagate_deletes
propagate_deletes_lem fuel n funs bs h sound copies enough =
    let found = find_deletes-IsFound n bs (begin h) sound copies in
    let (w, e, s, instrs, more) =
      propagate_lem funs n fuel (find_deletes bs (begin h)) found.sound enough in
    let same : (t : ℕ) → (w.heap.nodes t).instr ≡ (h.nodes t).instr =
      λ t. instrs t ∙ found.instrs t in
    (
      w,
      e,
      λ t v left i. elim (Bool-cases (deleted w.heap v)) [
        | inl del ↦
            let j : In v (uses (w.heap.nodes t).instr) = rw (same t) i in
            let (_, val) = s.typed t v j in ground (arith, s.dead v t val del (s.linked t v left j))
        | inr stays ↦ stays
      ],
      same,
      λ t d. more t (found.more t d),
    )
