-- ===== src/Basic/Examples.antt =====
-- A substitution in a function with four values: the integer 1 takes the place of the load 2.
mod Flow
mod Dead
mod Built
mod Checked
mod Made
mod Inside
mod Lifted
use pea_old.Prelude.{
  ℕ, zero, suc, ◌<◌, ◌≡◌, refl, true, false, [], ◌∷◌, Option, none, some, arith, elem,
  if◌then◌else◌,
}
use pea_old.Basic.Ir.{Node, alloc, int_lit, load, op, comment, uses}
use pea_old.Basic.Ir.Users.{is_user}
use pea_old.Basic.Sub.{ValMap, State, get, sub_vals}
use pea_old.Basic.Sub.Resolve.{Resolves, done, follow, IsMap, get_lem}
use pea_old.Basic.Sub.Instrs.{map_instr}
use pea_old.Basic.Sub.Fields.{HasSelf}
use pea_old.Basic.Sub.Stmts.{IsReady, sub_vals_lem}
use pea_old.Basic.Types.{Ty, int_type}
use pea_old.Basic.Checks.{FunTypes, typ_of}
use pea_old.Basic.Bugs.{bugs}
use pea_old.Basic.Bugs.Kept.{sub_vals-bugs}

-- Values 0 (an alloc), 1 (the integer 5), 2 (a load of 0) and 3 (an op of 2 and 1).
unfoldable node : ℕ → Node
node zero = record { del = false; instr = alloc true none; num = 0; typ = 0; users = 2 ∷ [] }
node (suc zero) = record { del = false; instr = int_lit 5; num = 1; typ = 0; users = 3 ∷ [] }
node (suc (suc zero)) = record { del = false; instr = load 0; num = 2; typ = 0; users = 3 ∷ [] }
node (suc (suc (suc zero))) = record {
  del = false;
  instr = op 0 (2 ∷ 1 ∷ []);
  num = 3;
  typ = 0;
  users = [];
}
node (suc (suc (suc (suc v)))) = record {
  del = false;
  instr = comment;
  num = 0;
  typ = 0;
  users = [];
}

unfoldable number : ℕ → ℕ
number zero = 0
number (suc zero) = 1
number (suc (suc zero)) = 2
number (suc (suc (suc zero))) = 3
number (suc (suc (suc (suc v)))) = 0

unfoldable replaced : ℕ → ℕ
replaced zero = 0
replaced (suc zero) = 1
replaced (suc (suc zero)) = 1
replaced (suc (suc (suc v))) = suc (suc (suc v))

unfoldable height : ℕ → ℕ
height zero = 0
height (suc zero) = 0
height (suc (suc zero)) = 1
height (suc (suc (suc v))) = 0

unfoldable slot : ℕ → Option ℕ
slot zero = none
slot (suc zero) = none
slot (suc (suc zero)) = some 1
slot (suc (suc (suc v))) = none

abbrev replacements : ValMap
replacements = record { size = 4; slots = slot }

abbrev Live : ℕ → Type 0
Live t = t ≡ 3

abbrev before : State
before = record {
  heap = record { nodes = node; blocks = λ b. record { n = b; stmts = []; ins = [] } };
  map = replacements;
}

height_small : (v : ℕ) → height v < 2
unfolding height
height_small zero = omega arith
height_small (suc zero) = omega arith
height_small (suc (suc zero)) = omega arith
height_small (suc (suc (suc v))) = omega arith

number_small : (v : ℕ) → number v < 4
unfolding number
number_small zero = omega arith
number_small (suc zero) = omega arith
number_small (suc (suc zero)) = omega arith
number_small (suc (suc (suc zero))) = omega arith
number_small (suc (suc (suc (suc v)))) = omega arith

replacements_lower : (v u : ℕ) → slot (number v) ≡ some u → height u < height v
unfolding slot number height
replacements_lower zero u e = cc
replacements_lower (suc zero) u e = cc
replacements_lower (suc (suc zero)) u e = ground arith
replacements_lower (suc (suc (suc zero))) u e = cc
replacements_lower (suc (suc (suc (suc v)))) u e = cc

replacements_resolve : (v : ℕ) → Resolves number replacements v (replaced v)
unfolding slot number replaced
replacements_resolve zero = done refl
replacements_resolve (suc zero) = done refl
replacements_resolve (suc (suc zero)) = follow refl (done refl)
replacements_resolve (suc (suc (suc zero))) = done refl
replacements_resolve (suc (suc (suc (suc v)))) = done refl

replacements-IsMap : IsMap number height replaced replacements
replacements-IsMap = record {
  in_range = number_small;
  lower = replacements_lower;
  resolves = replacements_resolve;
}

node_numbers : (w : ℕ) → (node w).num ≡ number w
unfolding node number
node_numbers zero = refl
node_numbers (suc zero) = refl
node_numbers (suc (suc zero)) = refl
node_numbers (suc (suc (suc zero))) = refl
node_numbers (suc (suc (suc (suc v)))) = refl

before_linked : (t w : ℕ) → Live t → is_user t w before.heap ≡ elem w (uses (node t).instr)
unfolding node uses elem
before_linked t zero e = rw e refl
before_linked t (suc zero) e = rw e refl
before_linked t (suc (suc zero)) e = rw e refl
before_linked t (suc (suc (suc zero))) e = rw e refl
before_linked t (suc (suc (suc (suc v)))) e = rw e (ground arith)

before_self : (t : ℕ) → Live t → HasSelf (node t).instr
unfolding node
before_self t e = rw e tt

before-IsReady : IsReady number height replaced Live before
before-IsReady = record {
  ok = replacements-IsMap;
  nums = node_numbers;
  linked = before_linked;
  self = before_self;
}

get_lem_example :
    (m' : ValMap) × (get 2 number 2 replacements ≡ some (record { val = replaced 2; map = m' }))
    × IsMap number height replaced m'
get_lem_example =
    get_lem number height replaced 2 2 replacements replacements-IsMap (height_small 2)

sub_vals_lem_example :
    (st' : State) × (sub_vals 2 (3 ∷ []) before ≡ some st')
    × IsReady number height replaced Live st'
    × ((s : ℕ)
        → (st'.heap.nodes s).instr
          ≡ (if elem s (3 ∷ []) then map_instr replaced (node s).instr else (node s).instr))
unfolding elem
sub_vals_lem_example =
    sub_vals_lem number height replaced Live 2 height_small (3 ∷ []) before (refl, tt)
      (λ s h. ground arith) before-IsReady

node_types : (v : ℕ) → (node v).typ ≡ 0
unfolding node
node_types zero = refl
node_types (suc zero) = refl
node_types (suc (suc zero)) = refl
node_types (suc (suc (suc zero))) = refl
node_types (suc (suc (suc (suc v)))) = refl

-- All values have type 0, an integer.
abbrev ints : ℕ → Ty
ints t = record { built_in = int_type; args = []; fields = []; cases = []; virts = []; ref = 0 }

abbrev no_funs : ℕ → FunTypes
no_funs f = record { parms = []; ret = none }

sub_vals-bugs_example :
    (st' : State) × (sub_vals 2 (3 ∷ []) before ≡ some st')
    × ((s : ℕ) → bugs ints no_funs 1 st'.heap s ≡ bugs ints no_funs 1 before.heap s)
unfolding elem
sub_vals-bugs_example =
    sub_vals-bugs number height replaced Live 2 height_small ints no_funs 1 (3 ∷ []) before
      (refl, tt) (λ s h. ground arith) before-IsReady
      (λ v. rw (node_types v, node_types (replaced v)) refl)
