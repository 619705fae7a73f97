-- ===== src/Basic/Examples/Inside.antt =====
-- A function whose only alloc is loaded from, and so does not escape.
use pea_old.Prelude.{ℕ, zero, suc, Bool, false, [], ◌∷◌, none, some, ◌≡◌, refl, arith, In}
use pea_old.Basic.Ir.{Node, comment, alloc, load, stores_to}
use pea_old.Basic.Types.{Ty, int_type}
use pea_old.Basic.Escape.{Marking, escapes_by, is_markable, mark_all}
use pea_old.Basic.Escape.Count.{off_stack, count, stmts_of}
use pea_old.Basic.Escape.Round.{IsSafe}
use pea_old.Basic.Escape.Settles.{mark_all-Settles}

unfoldable node : ℕ → Node
node zero = record { del = false; instr = alloc false none; num = 0; typ = 0; users = 1 ∷ [] }
node (suc zero) = record { del = false; instr = load 0; num = 1; typ = 0; users = [] }
node (suc (suc s)) = record { del = false; instr = comment; num = 0; typ = 0; users = [] }

abbrev ints : ℕ → Ty
ints t = record { built_in = int_type; args = []; fields = []; cases = []; virts = []; ref = 1 }

abbrev no_ret : ℕ → Bool
no_ret f = false

abbrev start : Marking
start = record {
  heap = record { nodes = node; blocks = λ b. record { n = b; stmts = 0 ∷ 1 ∷ []; ins = [] } };
  changed = false;
  n = 0;
  allocs_to_move = 0;
}

start-IsSafe : IsSafe ints no_ret start.heap
unfolding node escapes_by stores_to
start-IsSafe v zero e = cc
start-IsSafe v (suc zero) e = cc
start-IsSafe v (suc (suc u)) e = cc

start_count : count start.heap (stmts_of start.heap.blocks (0 ∷ [])) ≡ 1
unfolding count stmts_of off_stack node
start_count = refl

mark_all-Settles_example :
    (v : Marking) × (mark_all ints no_ret 2 (0 ∷ []) start ≡ some v)
    × ((s : ℕ)
        → In s (stmts_of start.heap.blocks (0 ∷ []))
        → is_markable ints no_ret v.heap s ≡ some false)
mark_all-Settles_example =
    mark_all-Settles ints no_ret 2 (0 ∷ []) start start-IsSafe (omega (arith, start_count))
