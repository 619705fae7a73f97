-- ===== src/Basic/Deletes.antt =====
-- basic/cleanup.go: what is deleted with a deleted statement. The slice `ds`, which is used as a
-- stack, is a list whose head is the slice's end.
pub mod Weight
pub mod Sound
pub mod Propagate
pub mod Found
use pea_old.Prelude.{
  ℕ, zero, suc, Bool, true, false, not, ◌&&◌, List, [], ◌∷◌, Option, none, some, ◌==◌,
  if◌then◌else◌,
}
use pea_old.Basic.Ir.{
  Instr, copy, make_virt, call, alloc, is_val, term_out, stores_to, uses, Heap, set_node, rm_user,
}
use pea_old.Basic.Sub.{self_copy}
use pea_old.Basic.Blocks.{rm_ins}

unfoldable pub delete : ℕ → Heap → Heap
unfolding set_node
delete s h = let x = h.nodes s in set_node h s (record x { del = true })

abbrev pub deleted : Heap → ℕ → Bool
deleted h s = (h.nodes s).del

unfoldable pub all_store : Heap → ℕ → List ℕ → Bool
all_store h v [] = true
all_store h v (u ∷ us) = stores_to (h.nodes u).instr v && all_store h v us

abbrev pub is_empty : List ℕ → Bool
is_empty [] = true
is_empty (u ∷ us) = false

-- `unused`: an alloc by its initializations only, another value by nothing.
unfoldable pub unused_as : Heap → ℕ → Instr → Bool
unused_as h v (alloc stack var) = all_store h v (h.nodes v).users
unused_as h v other = is_empty (h.nodes v).users

unfoldable pub unused : Heap → ℕ → Bool
unused h v = unused_as h v (h.nodes v).instr

-- The stack, the heap, and the functions whose body was dropped.
pub record Work : Type 0 where
  pub ds : List ℕ
  pub heap : Heap
  pub dropped : List ℕ

-- The loop of `deleteValueAndUsers`.
unfoldable pub delete_users : List ℕ → Work → Work
delete_users [] w = w
delete_users (u ∷ us) w = delete_users us (record w { ds = u ∷ w.ds; heap = delete u w.heap })

unfoldable pub delete_value_and_users : ℕ → Work → Work
delete_value_and_users v w =
    delete_users (w.heap.nodes v).users (record w { ds = v ∷ w.ds; heap = delete v w.heap })

-- What the code asks of a function: whether it is a block literal's, and whether it initializes a
-- module's variable.
pub record Funs : Type 0 where
  pub is_block : ℕ → Bool
  pub is_init : ℕ → Bool

module _ (funs : Funs) where
  -- The function that goes with a deleted statement.
  unfoldable pub drop_fun : Instr → List ℕ → List ℕ
  drop_fun (make_virt dst obj (f ∷ [])) fs = if funs.is_block f then f ∷ fs else fs
  drop_fun (call f args) fs = if funs.is_init f then f ∷ fs else fs
  drop_fun other fs = fs

  -- The body of the loop over the uses of `d`.
  unfoldable pub release : ℕ → ℕ → Work → Work
  release d u w =
      let w1 = record w { heap = rm_user u d w.heap } in
      if not (deleted w1.heap u) && unused w1.heap u then delete_value_and_users u w1 else w1

  unfoldable pub release_all : ℕ → List ℕ → Work → Work
  release_all d [] w = w
  release_all d (u ∷ us) w = release_all d us (release d u w)

  -- The loop of `propagateDeletes`, behind its first line.
  unfoldable pub propagate : ℕ → Work → Option Work
  propagate zero w = none
  propagate (suc fuel) w = elim w.ds [
    | [] ↦ some w
    | d ∷ ds ↦
        let i = (w.heap.nodes d).instr in
        propagate fuel
          (release_all d (uses i) (record w { ds = ds; dropped = drop_fun i w.dropped }))
  ]

-- The body of the inner loop of `findDeletes`, in the block `b`.
unfoldable pub find_delete : ℕ → ℕ → Work → Work
find_delete b s w =
    let x = w.heap.nodes s in
    if x.del
    then record w { ds = s ∷ w.ds; heap = rm_ins b (term_out x.instr) w.heap }
    else if is_val x.instr && unused w.heap s
    then delete_value_and_users s w
    else if self_copy x.instr
    then record w { ds = s ∷ w.ds }
    else w

unfoldable pub find_in_block : ℕ → List ℕ → Work → Work
find_in_block b [] w = w
find_in_block b (s ∷ ss) w = find_in_block b ss (find_delete b s w)

unfoldable pub find_deletes : List ℕ → Work → Work
find_deletes [] w = w
find_deletes (b ∷ bs) w = find_deletes bs (find_in_block b (w.heap.blocks b).stmts w)

-- `propagateDeletes`
unfoldable pub propagate_deletes : ℕ → Funs → List ℕ → Heap → Option Work
propagate_deletes fuel funs bs h =
    propagate funs fuel (find_deletes bs (record { ds = []; heap = h; dropped = [] }))
