-- ===== src/Basic/Lift.antt =====
-- basic/lift.go: allocs that hold one value, which their loads read, are replaced by the value.
-- `none` is a panic, or that the fuel of the substitution ran out.
pub mod Liftable
use pea_old.Prelude.{
  ℕ, zero, suc, Bool, true, false, not, ◌&&◌, ◌||◌, List, [], ◌∷◌, ◌++◌, Option, none, some, ◌==◌,
  ltb, get_elem?, if◌then◌else◌,
}
use pea_old.Basic.Ir.{Instr, store, load, alloc, Heap}
use pea_old.Basic.Types.{Ty, is_ref_type, simple_type}
use pea_old.Basic.Checks.{typ_of}
use pea_old.Basic.Sub.{ValMap, make_val_map, add, State, num_of, sub_vals}
use pea_old.Basic.Deletes.{delete, deleted}

-- `parm.Var == alloc.Var`, as pointers
abbrev pub same_var : Option ℕ → Option ℕ → Bool
same_var none none = true
same_var (some a) (some b) = a == b
same_var _ _ = false

-- `isParm`, of the variables of the parameters
unfoldable pub is_parm : List (Option ℕ) → Option ℕ → Bool
is_parm [] var = false
is_parm (p ∷ ps) var = same_var p var || is_parm ps var

-- A user of the alloc: a load, its one store, or what forbids the lifting.
abbrev pub seen_store : ℕ → ℕ → ℕ → Option ℕ → Option (Option ℕ)
seen_store v u dst none = if dst == v then some (some u) else none
seen_store v u dst (some t) = none

abbrev pub see_user : ℕ → ℕ → Instr → Option ℕ → Option (Option ℕ)
see_user v u (store dst val) st = seen_store v u dst st
see_user v u (load src) st = some st
see_user v u other st = none

abbrev pub and_then : Option (Option ℕ) → (Option ℕ → Option (Option ℕ)) → Option (Option ℕ)
and_then none k = none
and_then (some st) k = k st

-- The loop of `liftableAlloc`: `none` if the alloc is not liftable, else its store if it has one.
unfoldable pub find_store : Heap → ℕ → List ℕ → Option ℕ → Option (Option ℕ)
find_store h v [] st = some st
find_store h v (u ∷ us) st =
    and_then (see_user v u (h.nodes u).instr st) λ st'. find_store h v us st'

-- The store of a liftable alloc that has one.
abbrev pub has_store : Option (Option ℕ) → Option ℕ
has_store none = none
has_store (some st) = st

-- The state of the loop of `liftAllocs`, with the number of allocs that were lifted.
pub record Lifting : Type 0 where
  pub state : State
  pub n : ℕ

module _ (ty : ℕ → Ty) (parms : List (Option ℕ)) (lift_parms : Bool) where
  -- Whether the type is a reference to a simple type; a reference has an argument, or a panic.
  abbrev pub simple_elem : Option ℕ → Option Bool
  simple_elem none = none
  simple_elem (some e) = some (simple_type (ty e))

  abbrev pub holds_simple : ℕ → Option Bool
  holds_simple t =
      if is_ref_type (ty t).built_in then simple_elem (get_elem? (ty t).args 0) else some false

  abbrev pub store_if : Heap → ℕ → Option ℕ → Option Bool → Option (Option ℕ)
  store_if h s var none = none
  store_if h s var (some false) = some none
  store_if h s var (some true) =
      if not lift_parms && is_parm parms var
      then some none
      else some (has_store (find_store h s (h.nodes s).users none))

  abbrev pub alloc_store : Heap → ℕ → Instr → Option (Option ℕ)
  alloc_store h s (alloc stack var) = store_if h s var (holds_simple (typ_of h s))
  alloc_store h s other = some none

  -- `liftableAlloc`: the store, where neither it nor the alloc is nil.
  abbrev pub liftable_alloc : Heap → ℕ → Option (Option ℕ)
  liftable_alloc h s = alloc_store h s (h.nodes s).instr

  abbrev pub put_load : Heap → Option ValMap → Option State
  put_load h none = none
  put_load h (some m) = some (record { heap = h; map = m })

  -- The loads of the alloc are deleted, and stand for the value `val`.
  abbrev pub lift_load : ℕ → ℕ → Instr → State → Option State
  lift_load val u (load src) st = put_load (delete u st.heap) (add (num_of st.heap) u val st.map)
  lift_load val u other st = some st

  abbrev pub then_state : Option State → (State → Option State) → Option State
  then_state none k = none
  then_state (some st) k = k st

  unfoldable pub lift_loads : ℕ → List ℕ → State → Option State
  lift_loads val [] st = some st
  lift_loads val (u ∷ us) st =
      then_state (lift_load val u (st.heap.nodes u).instr st) λ st'. lift_loads val us st'

  abbrev pub value_of : Instr → Option ℕ
  value_of (store dst val) = some val
  value_of other = none

  abbrev pub counted : ℕ → Option State → Option Lifting
  counted n none = none
  counted n (some st) = some (record { state = st; n = n })

  abbrev pub lift_value : ℕ → ℕ → Option ℕ → Lifting → Option Lifting
  lift_value s st none w = none
  lift_value s st (some val) w =
      let h = delete st (delete s w.state.heap) in
      counted (suc w.n) (lift_loads val (h.nodes s).users (record w.state { heap = h }))

  abbrev pub lift_found : ℕ → Lifting → Option (Option ℕ) → Option Lifting
  lift_found s w none = none
  lift_found s w (some none) = some w
  lift_found s w (some (some st)) = lift_value s st (value_of (w.state.heap.nodes st).instr) w

  -- The body of the loop.
  unfoldable pub lift_stmt : ℕ → Lifting → Option Lifting
  lift_stmt s w =
      if deleted w.state.heap s then some w else lift_found s w (liftable_alloc w.state.heap s)

  unfoldable pub lift_stmts : List ℕ → Lifting → Option Lifting
  lift_stmts [] w = some w
  lift_stmts (s ∷ ss) w = elim (lift_stmt s w) [ none ↦ none | some w' ↦ lift_stmts ss w' ]

  abbrev pub all_stmts : Heap → List ℕ → List ℕ
  all_stmts h [] = []
  all_stmts h (b ∷ bs) = (h.blocks b).stmts ++ all_stmts h bs

  abbrev pub substituted : ℕ → Option State → Option (Bool × Heap)
  substituted n none = none
  substituted n (some st) = some (ltb 0 n, st.heap)

  abbrev pub sub_lifted : ℕ → List ℕ → Option Lifting → Option (Bool × Heap)
  sub_lifted fuel bs none = none
  sub_lifted fuel bs (some w) = substituted w.n (sub_vals fuel (all_stmts w.state.heap bs) w.state)

  -- `liftAllocs`, of a function with these blocks and this `NVals`
  unfoldable pub lift_allocs : ℕ → ℕ → List ℕ → Heap → Option (Bool × Heap)
  lift_allocs fuel n_vals [] h = none
  lift_allocs fuel n_vals (b ∷ bs) h = sub_lifted fuel (b ∷ bs) (
      lift_stmts (h.blocks b).stmts
        (record { state = record { heap = h; map = make_val_map n_vals }; n = 0 }))
