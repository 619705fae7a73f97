-- ===== src/Basic/Examples/Dead.antt =====
-- A function that stores the integer 5 to an alloc, and does no more.
use pea_old.Prelude.{
  ℕ, zero, suc, ◌<◌, ◌≡◌, refl, true, false, [], ◌∷◌, none, some, In, arith, elem,
}
use pea_old.Basic.Ir.{
  Node, Heap, alloc, int_lit, store, comment, uses, is_val, stores_to, term_out, update, set_node,
}
use pea_old.Basic.Ir.Users.{is_user}
use pea_old.Basic.Sub.{self_copy}
use pea_old.Basic.Blocks.{rm_ins}
use pea_old.Basic.Deletes.{
  deleted, delete, Work, Funs, propagate_deletes, find_deletes, find_in_block, find_delete, unused,
  unused_as, all_store, delete_users, delete_value_and_users,
}
use pea_old.Basic.Deletes.Weight.{weight}
use pea_old.Basic.Deletes.Sound.{IsSound}
use pea_old.Basic.Deletes.Propagate.{measure}
use pea_old.Basic.Deletes.Found.{begin, propagate_deletes_lem}

-- 0 is the alloc, 1 the store, 2 the integer.
unfoldable node : ℕ → Node
node zero = record { del = false; instr = alloc true none; num = 0; typ = 0; users = 1 ∷ [] }
node (suc zero) = record { del = false; instr = store 0 2; num = 0; typ = 0; users = [] }
node (suc (suc zero)) = record { del = false; instr = int_lit 5; num = 1; typ = 0; users = 1 ∷ [] }
node (suc (suc (suc s))) = record { del = false; instr = comment; num = 0; typ = 0; users = [] }

abbrev heap : Heap
heap = record { nodes = node; blocks = λ b. record { n = 0; stmts = 0 ∷ 2 ∷ 1 ∷ []; ins = [] } }

abbrev funs : Funs
funs = record { is_block = λ f. false; is_init = λ f. false }

node-deleted : (s : ℕ) → (node s).del ≡ false
unfolding node
node-deleted zero = refl
node-deleted (suc zero) = refl
node-deleted (suc (suc zero)) = refl
node-deleted (suc (suc (suc s))) = refl

node-self_copy : (s : ℕ) → self_copy (node s).instr ≡ false
unfolding node self_copy
node-self_copy zero = refl
node-self_copy (suc zero) = refl
node-self_copy (suc (suc zero)) = refl
node-self_copy (suc (suc (suc s))) = refl

node-uses :
    (t v : ℕ)
    → In v (uses (node t).instr)
    → (v < 3) × (is_val (node v).instr ≡ true) × (is_user t v heap ≡ true)
unfolding node uses elem is_val
node-uses zero v i = cc
node-uses (suc zero) zero i = (omega arith, refl, refl)
node-uses (suc zero) (suc zero) i = cc
node-uses (suc zero) (suc (suc zero)) i = (omega arith, refl, refl)
node-uses (suc zero) (suc (suc (suc v))) i = ground arith
node-uses (suc (suc zero)) v i = cc
node-uses (suc (suc (suc t))) v i = cc

heap-IsSound : IsSound 3 (begin heap)
unfolding elem
heap-IsSound = record {
  dead = λ v t val del user. ground (arith, node-deleted v);
  linked = λ t v left i. (node-uses t v i).2;
  typed = λ t v i. let (small, val, user) = node-uses t v i in (small, val);
  stack = λ t i. cc;
}

found_measure : measure 3 (find_deletes (0 ∷ []) (begin heap)) ≡ 5
unfolding find_deletes find_in_block find_delete unused unused_as all_store delete_users
    delete_value_and_users delete node stores_to update set_node rm_ins weight is_val term_out
    self_copy
found_measure = refl

propagate_deletes_lem_example :
    (w : Work) × (propagate_deletes 9 funs (0 ∷ []) heap ≡ some w)
    × ((t v : ℕ) → deleted w.heap t ≡ false → In v (uses (node t).instr) → deleted w.heap v ≡ false)
    × ((t : ℕ) → (w.heap.nodes t).instr ≡ (node t).instr)
    × ((t : ℕ) → (node t).del ≡ true → deleted w.heap t ≡ true)
propagate_deletes_lem_example =
    propagate_deletes_lem 9 3 funs (0 ∷ []) heap heap-IsSound
      (λ s h. ground (arith, node-self_copy s)) (omega (arith, found_measure))
