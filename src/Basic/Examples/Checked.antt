-- ===== src/Basic/Examples/Checked.antt =====
-- Checks of statements, where type 1 is Int, 2 is &Int and 3 is [.] with no fields.
use pea_old.Prelude.{
  ℕ, zero, suc, ◌<◌, true, false, [], ◌∷◌, map, none, some, get_elem?, ◌≡◌, ◌↔◌, refl, arith, In,
  elem,
}
use pea_old.Basic.Ir.{Node, Heap, alloc, int_lit, store, call}
use pea_old.Basic.Types.{Ty, user, ref_type, int_type, empty_type, is_ref_type}
use pea_old.Basic.Types.Empty.{IsEmpty, empty_type-IsEmpty}
use pea_old.Basic.Checks.{FunTypes, typ_of, is_array}
use pea_old.Basic.Bugs.{check, bugs}
use pea_old.Basic.Bugs.Calls.{bugs-call}
use pea_old.Basic.Bugs.Safe.{IsSafe, check-IsSafe}

abbrev plain : Ty
plain = record { built_in = user; args = []; fields = []; cases = []; virts = []; ref = 0 }

-- Type 4 has two fields of type 3.
unfoldable ty : ℕ → Ty
ty zero = plain
ty (suc zero) = record plain { built_in = int_type; ref = 2 }
ty (suc (suc zero)) = record plain { built_in = ref_type; args = 1 ∷ [] }
ty (suc (suc (suc zero))) = plain
ty (suc (suc (suc (suc t)))) = record plain { fields = 3 ∷ 3 ∷ [] }

unfoldable depth : ℕ → ℕ
depth zero = 0
depth (suc zero) = 0
depth (suc (suc zero)) = 0
depth (suc (suc (suc zero))) = 0
depth (suc (suc (suc (suc t)))) = 1

ty_lower : (t f : ℕ) → In f (ty t).fields → depth f < depth t
unfolding ty depth elem
ty_lower zero f i = cc
ty_lower (suc zero) f i = cc
ty_lower (suc (suc zero)) f i = cc
ty_lower (suc (suc (suc zero))) f i = cc
ty_lower (suc (suc (suc (suc t)))) f i = ground arith

empty_type-IsEmpty_example : (empty_type ty 2 4 ≡ true) ↔ IsEmpty ty 4
unfolding depth
empty_type-IsEmpty_example = empty_type-IsEmpty ty depth ty_lower 2 4 (omega arith)

abbrev funs : ℕ → FunTypes
funs f = record { parms = 2 ∷ 1 ∷ []; ret = none }

-- 0 is an alloc, 1 an integer, and 2 a call with both.
unfoldable node : ℕ → Node
node zero = record { del = false; instr = alloc true none; num = 0; typ = 2; users = 2 ∷ [] }
node (suc zero) = record { del = false; instr = int_lit 5; num = 1; typ = 1; users = 2 ∷ [] }
node (suc (suc s)) = record {
  del = false;
  instr = call 7 (0 ∷ 1 ∷ []);
  num = 0;
  typ = 0;
  users = [];
}

abbrev heap : Heap
heap = record { nodes = node; blocks = λ b. record { n = b; stmts = []; ins = [] } }

bugs-call_example : (bugs ty funs 2 heap 2 ≡ none) ↔ (map (typ_of heap) (0 ∷ 1 ∷ []) ≡ 2 ∷ 1 ∷ [])
unfolding node
bugs-call_example = bugs-call ty funs 2 heap 2 7 (0 ∷ 1 ∷ []) refl

ty-of_ref :
    (t : ℕ) → is_ref_type (ty t).built_in ≡ true → (e : ℕ) × (get_elem? (ty t).args 0 ≡ some e)
unfolding ty
ty-of_ref zero r = cc
ty-of_ref (suc zero) r = cc
ty-of_ref (suc (suc zero)) r = (1, refl)
ty-of_ref (suc (suc (suc zero))) r = cc
ty-of_ref (suc (suc (suc (suc t)))) r = cc

ty-of_array :
    (t : ℕ) → is_array (ty t).built_in ≡ true → (e : ℕ) × (get_elem? (ty t).args 0 ≡ some e)
unfolding ty
ty-of_array zero r = cc
ty-of_array (suc zero) r = cc
ty-of_array (suc (suc zero)) r = cc
ty-of_array (suc (suc (suc zero))) r = cc
ty-of_array (suc (suc (suc (suc t)))) r = cc

-- A store of an Int where a &Int stands.
check-IsSafe_example : IsSafe (check ty funs 2 0 (store 2 1))
check-IsSafe_example =
    check-IsSafe ty funs 2 (record { of_ref = ty-of_ref; of_array = ty-of_array }) 0 (store 2 1) tt
