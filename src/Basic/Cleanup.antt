-- ===== src/Basic/Cleanup.antt =====
-- basic/cleanup.go: the removal of deleted statements, and the numbering of blocks and values.
pub mod Number
pub mod Renumber
pub mod Removed
pub mod Sorted
use pea_old.Prelude.{ℕ, suc, Bool, true, false, not, ◌&&◌, List, [], ◌∷◌, ltb, if◌then◌else◌}
use pea_old.Basic.Ir.{Instr, comment, is_val, Heap, set_node, set_block}

abbrev pub is_comment : Instr → Bool
is_comment comment = true
is_comment _ = false

abbrev pub keeps : Heap → ℕ → Bool
keeps h s = not (is_comment (h.nodes s).instr) && not (h.nodes s).del

-- The inner loop of `rmDeletes`.
unfoldable pub kept : Heap → List ℕ → List ℕ
kept h [] = []
kept h (s ∷ ss) = let rest = kept h ss in if keeps h s then s ∷ rest else rest

unfoldable pub set_stmts : ℕ → List ℕ → Heap → Heap
unfolding set_block
set_stmts b ss h = let x = h.blocks b in set_block h b (record x { stmts = ss })

-- The blocks of a function, and the heap.
pub record Body : Type 0 where
  pub bblks : List ℕ
  pub heap : Heap

abbrev pub keep_block : ℕ → List ℕ → Body → Body
keep_block b [] body = body
keep_block b (s ∷ ss) body = record body { bblks = b ∷ body.bblks }

-- `rmDeletes`
unfoldable pub rm_deletes : List ℕ → Heap → Body
rm_deletes [] h = record { bblks = []; heap = h }
rm_deletes (b ∷ bs) h =
    let ss = kept h (h.blocks b).stmts in keep_block b ss (rm_deletes bs (set_stmts b ss h))

-- The counter `iv`, and the heap.
pub record Count : Type 0 where
  pub next : ℕ
  pub heap : Heap

unfoldable pub set_num : ℕ → ℕ → Heap → Heap
unfolding set_node
set_num v i h = let x = h.nodes v in set_node h v (record x { num = i })

unfoldable pub set_n : ℕ → ℕ → Heap → Heap
unfolding set_block
set_n b i h = let x = h.blocks b in set_block h b (record x { n = i })

abbrev pub number : ℕ → Count → Count
number s w =
    if is_val (w.heap.nodes s).instr
    then record { next = suc w.next; heap = set_num s w.next w.heap }
    else w

-- The first loop of `renumber`, inner and outer.
unfoldable pub number_stmts : List ℕ → Count → Count
number_stmts [] w = w
number_stmts (s ∷ ss) w = number_stmts ss (number s w)

unfoldable pub number_blocks : List ℕ → ℕ → Count → Count
number_blocks [] ib w = w
number_blocks (b ∷ bs) ib w =
    number_blocks bs (suc ib)
      (number_stmts (w.heap.blocks b).stmts (record w { heap = set_n b ib w.heap }))

-- The order of `sort.Slice` by the blocks' numbers.
unfoldable pub insert : (ℕ → ℕ) → ℕ → List ℕ → List ℕ
insert key x [] = x ∷ []
insert key x (y ∷ ys) =
    let later = y ∷ insert key x ys in if ltb (key y) (key x) then later else x ∷ y ∷ ys

unfoldable pub sort : (ℕ → ℕ) → List ℕ → List ℕ
sort key [] = []
sort key (x ∷ xs) = insert key x (sort key xs)

unfoldable pub sort_in : ℕ → Heap → Heap
unfolding set_block
sort_in b h =
    let x = h.blocks b in set_block h b (record x { ins = sort (λ c. (h.blocks c).n) x.ins })

-- The second loop of `renumber`.
unfoldable pub sort_ins : List ℕ → Heap → Heap
sort_ins [] h = h
sort_ins (b ∷ bs) h = sort_ins bs (sort_in b h)

-- `renumber`: the new `NVals`, and the heap.
unfoldable pub renumber : List ℕ → Heap → Count
renumber bs h =
    let w = number_blocks bs 0 (record { next = 0; heap = h }) in
    record w { heap = sort_ins bs w.heap }
