-- ===== src/Basic/Examples/Built.antt =====
-- A store that is added to an empty block.
use pea_old.Prelude.{ℕ, zero, suc, ◌≡◌, ◌⊎◌, refl, true, false, [], none, some, arith, elem}
use pea_old.Basic.Ir.{Instr, Heap, alloc, int_lit, store, comment, uses}
use pea_old.Basic.Sub.Stmts.{IsLinked}
use pea_old.Basic.Build.{IsClosed, IsAppended, add_stmt, add_stmt-IsAppended}

-- 0 is an alloc, 1 an integer, and 2 the store.
unfoldable made : ℕ → Instr
made zero = alloc true none
made (suc zero) = int_lit 5
made (suc (suc zero)) = store 0 1
made (suc (suc (suc s))) = comment

abbrev heap : Heap
heap = record {
  nodes = λ s. record { del = false; instr = made s; num = s; typ = 0; users = [] };
  blocks = λ b. record { n = b; stmts = []; ins = [] };
}

abbrev Live : ℕ → Type 0
Live t = t ≡ 0

made-IsLinked : IsLinked Live heap
unfolding made uses elem
made-IsLinked t w e = rw e refl

add_stmt-IsAppended_example :
    (add_stmt 7 2 heap ≡ none) × IsClosed heap 7
    ⊎ (h : Heap) × (add_stmt 7 2 heap ≡ some h) × ¬ IsClosed heap 7 × IsAppended Live 7 2 heap h
unfolding elem
add_stmt-IsAppended_example =
    add_stmt-IsAppended Live 7 2 heap made-IsLinked (λ e. ground arith) (λ w. refl)
