-- ===== src/Basic/Examples/Flow.antt =====
-- Three blocks: 0 jumps to 1, 1 jumps to 2, and 2 returns. Block 2 takes the place of block 1.
use pea_old.Prelude.{
  not, ◌&&◌, ◌||◌, ℕ, zero, suc, ◌<◌, ◌≡◌, refl, false, [], ◌∷◌, map, Option, none, some, arith,
  elem, if◌then◌else◌,
}
use pea_old.Basic.Ir.{Node, Block, Heap, jmp, ret, int_lit, is_term, term_out}
use pea_old.Basic.Sub.{ValMap, State, get}
use pea_old.Basic.Sub.Resolve.{Resolves, done, follow}
use pea_old.Basic.Sub.Cycle.{IsCyclic, get-IsCyclic}
use pea_old.Basic.Blocks.{last, out, block_num, sub_bblks}
use pea_old.Basic.Blocks.Ins.{is_in}
use pea_old.Basic.Blocks.Wired.{IsWired, sub_bblks_lem}
use pea_old.Basic.Cleanup.{renumber, rm_deletes, keeps}
use pea_old.Basic.Cleanup.Removed.{any_kept, rm_deletes_lem}
use pea_old.Basic.Cleanup.Sorted.{IsSorted, renumber-IsSorted}

unfoldable stmt : ℕ → Node
stmt zero = record { del = false; instr = jmp 1; num = 0; typ = 0; users = [] }
stmt (suc zero) = record { del = false; instr = jmp 2; num = 0; typ = 0; users = [] }
stmt (suc (suc zero)) = record { del = false; instr = ret false; num = 0; typ = 0; users = [] }
stmt (suc (suc (suc s))) = record { del = false; instr = int_lit s; num = 9; typ = 0; users = [] }

unfoldable block : ℕ → Block
block zero = record { n = 0; stmts = 3 ∷ 0 ∷ []; ins = [] }
block (suc zero) = record { n = 1; stmts = 4 ∷ 5 ∷ 1 ∷ []; ins = 0 ∷ [] }
block (suc (suc zero)) = record { n = 2; stmts = 2 ∷ []; ins = 1 ∷ [] }
block (suc (suc (suc b))) = record { n = 0; stmts = []; ins = [] }

abbrev flow : Heap
flow = record { nodes = stmt; blocks = block }

unfoldable place : ℕ → ℕ
place zero = 0
place (suc zero) = 1
place (suc (suc zero)) = 2
place (suc (suc (suc b))) = 0

unfoldable slot : ℕ → Option ℕ
slot zero = none
slot (suc zero) = some 2
slot (suc (suc b)) = none

unfoldable target : ℕ → ℕ
target zero = 0
target (suc zero) = 2
target (suc (suc b)) = suc (suc b)

unfoldable height : ℕ → ℕ
height zero = 0
height (suc zero) = 1
height (suc (suc b)) = 0

abbrev targets : ValMap
targets = record { size = 3; slots = slot }

abbrev Live : ℕ → Type 0
Live b = b ≡ 0

height_small : (b : ℕ) → height b < 2
unfolding height
height_small zero = omega arith
height_small (suc zero) = omega arith
height_small (suc (suc b)) = omega arith

place_small : (b : ℕ) → place b < 3
unfolding place
place_small zero = omega arith
place_small (suc zero) = omega arith
place_small (suc (suc zero)) = omega arith
place_small (suc (suc (suc b))) = omega arith

targets_lower : (b c : ℕ) → slot (place b) ≡ some c → height c < height b
unfolding slot place height
targets_lower zero c e = cc
targets_lower (suc zero) c e = ground arith
targets_lower (suc (suc zero)) c e = cc
targets_lower (suc (suc (suc b))) c e = cc

targets_resolve : (b : ℕ) → Resolves place targets b (target b)
unfolding slot place target
targets_resolve zero = done refl
targets_resolve (suc zero) = follow refl (done refl)
targets_resolve (suc (suc zero)) = done refl
targets_resolve (suc (suc (suc b))) = done refl

block_places : (b : ℕ) → (block b).n ≡ place b
unfolding block place
block_places zero = refl
block_places (suc zero) = refl
block_places (suc (suc zero)) = refl
block_places (suc (suc (suc b))) = refl

-- The last statement of each block, by the block.
last_of : (b s : ℕ) → last (block b).stmts ≡ some s → b ≡ s
unfolding block last
last_of zero s e = ground arith
last_of (suc zero) s e = ground arith
last_of (suc (suc zero)) s e = ground arith
last_of (suc (suc (suc b))) s e = cc

flow-IsWired : IsWired place height target Live (record { heap = flow; map = targets })
unfolding block out last stmt is_term elem term_out
flow-IsWired = record {
  ok = record { in_range = place_small; lower = targets_lower; resolves = targets_resolve };
  nums = block_places;
  wired = λ b o e. rw e (wired_zero o);
  separate = λ b c s e f. ground (arith, last_of b s e, last_of c s f);
  terms = λ b s e f. ground (arith, last_of b s f);
}
  where
    wired_zero : (o : ℕ) → elem 0 (block o).ins ≡ elem o (out flow 0)
    wired_zero zero = refl
    wired_zero (suc zero) = refl
    wired_zero (suc (suc zero)) = refl
    wired_zero (suc (suc (suc o))) = ground arith

sub_bblks_lem_example :
    (st' : State) × (sub_bblks 2 (0 ∷ []) (record { heap = flow; map = targets }) ≡ some st')
    × IsWired place height target Live st'
    × ((b : ℕ) → out st'.heap b ≡ (if elem b (0 ∷ []) then map target (out flow b) else out flow b))
unfolding elem
sub_bblks_lem_example =
    sub_bblks_lem place height target Live 2 height_small (0 ∷ [])
      (record { heap = flow; map = targets }) (refl, tt) (λ b h. ground arith) flow-IsWired

-- A block that only jumps to itself stands for itself.
abbrev itself : ValMap
itself = record { size = 2; slots = λ i. some i }

itself-IsCyclic : IsCyclic (λ b. b) itself (λ b. b ≡ 1)
itself-IsCyclic b e = (b, refl, e)

get-IsCyclic_example : get 100 (λ b. b) 1 itself ≡ none
get-IsCyclic_example = get-IsCyclic (λ b. b) itself (λ b. b ≡ 1) itself-IsCyclic 100 1 refl

renumber-IsSorted_example :
    IsSorted
      (block_num (renumber (1 ∷ 0 ∷ []) flow).heap)
      ((renumber (1 ∷ 0 ∷ []) flow).heap.blocks 1).ins
    × ((a : ℕ) → is_in a 1 (renumber (1 ∷ 0 ∷ []) flow).heap ≡ is_in a 1 flow)
renumber-IsSorted_example = renumber-IsSorted (1 ∷ 0 ∷ []) flow 1 (unfold elem in refl)

rm_deletes_lem_example :
    ((b : ℕ)
      → elem b (rm_deletes (1 ∷ 0 ∷ []) flow).bblks
        ≡ (elem b (1 ∷ 0 ∷ []) && any_kept flow (block b).stmts))
    × ((b s : ℕ)
        → elem s ((rm_deletes (1 ∷ 0 ∷ []) flow).heap.blocks b).stmts
          ≡ (elem s (block b).stmts && (not (elem b (1 ∷ 0 ∷ [])) || keeps flow s)))
rm_deletes_lem_example = rm_deletes_lem (1 ∷ 0 ∷ []) flow (unfold elem in (refl, (refl, tt)))
