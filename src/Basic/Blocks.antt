-- ===== src/Basic/Blocks.antt =====
-- basic/sub.go and basic/basic.go: the substitution of blocks, and the blocks' predecessors. `none`
-- stands for a panic or for a recursion of `get` that does not end.
pub mod Ins
pub mod Term
pub mod Wired
use pea_old.Prelude.{ℕ, List, [], ◌∷◌, Option, none, some}
use pea_old.Basic.Ir.{Instr, jmp, switch, ret, panic, Heap, set_node, term_out, add_in, rm_in}
use pea_old.Basic.Sub.{ValMap, Got, get, State}

unfoldable pub last : List ℕ → Option ℕ
last [] = none
last (s ∷ []) = some s
last (s ∷ t ∷ ss) = last (t ∷ ss)

-- The statement that a block ends in.
abbrev pub last_stmt : Heap → ℕ → Option ℕ
last_stmt h b = last (h.blocks b).stmts

abbrev pub out_of : Heap → Option ℕ → List ℕ
out_of h none = []
out_of h (some s) = term_out (h.nodes s).instr

-- `BBlk.Out`
unfoldable pub out : Heap → ℕ → List ℕ
out h b = out_of h (last_stmt h b)

-- The loops over the blocks that a terminal statement goes to.
unfoldable pub rm_ins : ℕ → List ℕ → Heap → Heap
rm_ins b [] h = h
rm_ins b (o ∷ os) h = rm_ins b os (rm_in o b h)

unfoldable pub add_ins : ℕ → List ℕ → Heap → Heap
add_ins b [] h = h
add_ins b (o ∷ os) h = add_ins b os (add_in o b h)

-- The numbers of the heap's blocks.
abbrev pub block_num : Heap → ℕ → ℕ
block_num h b = (h.blocks b).n

abbrev pub push : ℕ → Option (List ℕ × ValMap) → Option (List ℕ × ValMap)
push d none = none
push d (some (ds, m)) = some (d ∷ ds, m)

-- `bblkMap.get` on each of a list; a `bblkMap` is a map of the same form as a `valMap`.
unfoldable pub get_all : ℕ → (ℕ → ℕ) → List ℕ → ValMap → Option (List ℕ × ValMap)
get_all fuel num [] m = some ([], m)
get_all fuel num (d ∷ ds) m = elim (get fuel num d m) [
  | none ↦ none
  | some g ↦ push g.val (get_all fuel num ds g.map)
]

abbrev pub jump : Option Got → Option (Instr × ValMap)
jump none = none
jump (some g) = some (jmp g.val, g.map)

abbrev pub switch_to : ℕ → Option (List ℕ × ValMap) → Option (Instr × ValMap)
switch_to v none = none
switch_to v (some (ds, m)) = some (switch v ds, m)

-- `subBBlk` of each terminal statement. Any other statement fails the type assertion.
unfoldable pub sub_term : ℕ → (ℕ → ℕ) → Instr → ValMap → Option (Instr × ValMap)
sub_term fuel num (ret far) m = some (ret far, m)
sub_term fuel num (panic v) m = some (panic v, m)
sub_term fuel num (jmp dst) m = jump (get fuel num dst m)
sub_term fuel num (switch v dsts) m = switch_to v (get_all fuel num dsts m)
sub_term fuel num other m = none

abbrev pub set_instr : ℕ → Instr → Heap → Heap
set_instr s i h = let x = h.nodes s in set_node h s (record x { instr = i })

abbrev pub rewire : ℕ → ℕ → Heap → Option (Instr × ValMap) → Option State
rewire b s h none = none
rewire b s h (some (i, m)) =
    some (record { heap = add_ins b (term_out i) (set_instr s i h); map = m })

-- The body of the loop of `subBBlks`, for a block and the statement that it ends in.
unfoldable pub sub_last : ℕ → ℕ → Option ℕ → State → Option State
sub_last fuel b none st = some st
sub_last fuel b (some s) st =
    let i = (st.heap.nodes s).instr in
    let h = rm_ins b (term_out i) st.heap in
    rewire b s h (sub_term fuel (block_num st.heap) i st.map)

unfoldable pub sub_bblks : ℕ → List ℕ → State → Option State
sub_bblks fuel [] st = some st
sub_bblks fuel (b ∷ bs) st = elim (sub_last fuel b (last_stmt st.heap b) st) [
  | none ↦ none
  | some st' ↦ sub_bblks fuel bs st'
]
