-- ===== src/Basic/Examples/Lifted.antt =====
-- An alloc of an Int with one store and one load.
use pea_old.Prelude.{ℕ, zero, suc, false, [], ◌∷◌, none, some, ◌≡◌, ◌↔◌, refl}
use pea_old.Basic.Ir.{Node, Heap, comment, store, load, alloc}
use pea_old.Basic.Types.{Ty, int_type, ref_type, simple_type, enum_type, no_types}
use pea_old.Basic.Lift.{liftable_alloc, is_parm}
use pea_old.Basic.Lift.Liftable.{OneStore, liftable_alloc-OneStore}

unfoldable node : ℕ → Node
node zero = record { del = false; instr = alloc false none; num = 0; typ = 1; users = 1 ∷ 2 ∷ [] }
node (suc zero) = record { del = false; instr = store 0 7; num = 0; typ = 0; users = [] }
node (suc (suc zero)) = record { del = false; instr = load 0; num = 1; typ = 0; users = [] }
node (suc (suc (suc s))) = record { del = false; instr = comment; num = 0; typ = 0; users = [] }

abbrev heap : Heap
heap = record { nodes = node; blocks = λ b. record { n = b; stmts = 0 ∷ 1 ∷ 2 ∷ []; ins = [] } }

-- 0 is Int, and 1 a reference to it.
unfoldable ty : ℕ → Ty
ty zero = record { built_in = int_type; args = []; fields = []; cases = []; virts = []; ref = 1 }
ty (suc t) = record {
  built_in = ref_type;
  args = 0 ∷ [];
  fields = [];
  cases = [];
  virts = [];
  ref = 1;
}

liftable_alloc-OneStore_example :
    (liftable_alloc ty [] false heap 0 ≡ some (some 1)) ↔ OneStore heap 0 1 (1 ∷ 2 ∷ [])
unfolding node ty simple_type enum_type no_types is_parm
liftable_alloc-OneStore_example =
    liftable_alloc-OneStore ty [] false heap 0 false none refl refl refl 1
