-- ===== src/Basic/Cleanup/Renumber.antt =====
-- basic/cleanup.go: `renumber` as a whole.
use pea_old.Prelude.{ℕ, suc, List, [], ◌∷◌, ◌≡◌, refl, ap, ◌∙◌, arith}
use pea_old.Basic.Ir.{Heap, Block, update}
use pea_old.Basic.Blocks.{block_num}
use pea_old.Basic.Cleanup.{Count, set_n, number_stmts, number_blocks, sort_in, sort_ins}
use pea_old.Basic.Cleanup.Number.{number_stmts-blocks}

-- The same count with other blocks.
abbrev with_blocks : (ℕ → Block) → Count → Count
with_blocks f w = record w { heap = record { nodes = w.heap.nodes; blocks = f } }

-- The blocks' turns number the values as one row of statements.
abbrev turn : ℕ → ℕ → Count → Count
turn b i w = number_stmts (w.heap.blocks b).stmts (record w { heap = set_n b i w.heap })

pub sort_ins-nodes : (bs : List ℕ) (h : Heap) → (sort_ins bs h).nodes ≡ h.nodes
unfolding sort_ins sort_in
sort_ins-nodes [] h = refl
sort_ins-nodes (b ∷ bs) h = sort_ins-nodes bs (sort_in b h)

sort_in-num : (b c : ℕ) (h : Heap) → block_num (sort_in b h) c ≡ block_num h c
unfolding sort_in update
sort_in-num b c h = ground arith

pub sort_ins-num : (bs : List ℕ) (c : ℕ) (h : Heap) → block_num (sort_ins bs h) c ≡ block_num h c
unfolding sort_ins
sort_ins-num [] c h = refl
sort_ins-num (b ∷ bs) c h = sort_ins-num bs c (sort_in b h) ∙ sort_in-num b c h

set_n-ins : (b i c : ℕ) (h : Heap) → ((set_n b i h).blocks c).ins ≡ (h.blocks c).ins
unfolding set_n update
set_n-ins b i c h = ground arith

-- The numbering leaves the predecessors alone.
pub blocks-ins :
    (bs : List ℕ) (ib c : ℕ) (w : Count)
    → ((number_blocks bs ib w).heap.blocks c).ins ≡ (w.heap.blocks c).ins
unfolding number_blocks
blocks-ins [] ib c w = refl
blocks-ins (b ∷ bs) ib c w =
    blocks-ins bs (suc ib) c (turn b ib w)
    ∙ ap (λ f. (f c).ins)
        (number_stmts-blocks (w.heap.blocks b).stmts (record w { heap = set_n b ib w.heap }))
    ∙ set_n-ins b ib c w.heap
