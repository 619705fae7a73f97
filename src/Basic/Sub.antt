-- ===== src/Basic/Sub.antt =====
-- basic/sub.go: substitution of values. `none` stands for a panic (a number outside the map) or a
-- recursion of `get` that does not end (a cycle in the map).
pub mod Resolve
pub mod Cycle
pub mod Step
pub mod Instrs
pub mod Fields
pub mod Stmts
use pea_old.Prelude.{
  ℕ, zero, suc, Bool, true, false, List, [], ◌∷◌, Option, none, some, ltb, ◌==◌, if◌then◌else◌,
}
use pea_old.Basic.Ir.{
  Instr, comment, store, copy, make_array, new_array, make_slice, make_string, new_string, make_and,
  make_or, make_virt, call, virt_call, ret, panic, jmp, switch, int_lit, float_lit, op, load, alloc,
  arg, global, index, field, Node, Heap, update, set_node, add_user, rm_user,
}

-- A `valMap`: its length, and the value in each slot.
pub record ValMap : Type 0 where
  pub size : ℕ
  pub slots : ℕ → Option ℕ

-- `makeValMap` and `add`
unfoldable pub make_val_map : ℕ → ValMap
make_val_map n = record { size = n; slots = λ i. none }

unfoldable pub put : ℕ → ℕ → ValMap → ValMap
unfolding update
put i v m = record m { slots = update m.slots i (some v) }

unfoldable pub add : (ℕ → ℕ) → ℕ → ℕ → ValMap → Option ValMap
unfolding put
add num key val m = if ltb (num key) m.size then some (put (num key) val m) else none

-- A value, and the map that `get` leaves.
pub record Got : Type 0 where
  pub val : ℕ
  pub map : ValMap

abbrev pub compress : ℕ → Option Got → Option Got
compress i none = none
compress i (some g) = some (record g { map = put i g.val g.map })

-- What `get` does with the slot of `v`, given its recursive call.
abbrev pub get_slot : (ℕ → ValMap → Option Got) → ℕ → ℕ → ValMap → Option ℕ → Option Got
get_slot rec v i m none = some (record { val = v; map = m })
get_slot rec v i m (some u) = compress i (rec u m)

-- `get`, where `num v` is v.Num()
unfoldable pub get : ℕ → (ℕ → ℕ) → ℕ → ValMap → Option Got
get zero num v m = none
get (suc fuel) num v m =
    let found = get_slot (get fuel num) v (num v) m (m.slots (num v)) in
    if ltb (num v) m.size then found else none

pub record State : Type 0 where
  pub heap : Heap
  pub map : ValMap

abbrev pub M : Type 0 → Type 0
M A = State → Option (A × State)

abbrev pub pure : {A : Type 0} → A → M A
pure a s = some (a, s)

infixl 5 ◌>>=◌
abbrev pub ◌>>=◌ : {A B : Type 0} → M A → (A → M B) → M B
◌>>=◌ m f s = elim (m s) [ none ↦ none | some (a, s') ↦ f a s' ]

-- The numbers of the heap's values.
abbrev pub num_of : Heap → ℕ → ℕ
num_of h v = (h.nodes v).num

-- `sub1`: the new value of a field that holds `v`, in the statement `s`.
unfoldable pub replace : ℕ → ℕ → ℕ → Heap → Heap
replace s v u h = if v == u then h else add_user u s (rm_user v s h)

abbrev pub moved : ℕ → ℕ → Heap → Option Got → Option (ℕ × State)
moved s v h none = none
moved s v h (some g) = some (g.val, record { heap = replace s v g.val h; map = g.map })

unfoldable pub sub1 : ℕ → ℕ → ℕ → M ℕ
sub1 fuel s v st = moved s v st.heap (get fuel (num_of st.heap) v st.map)

module _ (fuel s : ℕ) where
  -- The loops over a slice of values, and over fields that may be nil.
  unfoldable pub sub_list : List ℕ → M (List ℕ)
  sub_list [] = pure []
  sub_list (v ∷ vs) = do v' ← sub1 fuel s v; vs' ← sub_list vs; pure (v' ∷ vs')

  unfoldable pub sub_optional : Option ℕ → M (Option ℕ)
  sub_optional none = pure none
  sub_optional (some v) = do v' ← sub1 fuel s v; pure (some v')

  unfoldable pub sub_fields : List (Option ℕ) → M (List (Option ℕ))
  sub_fields [] = pure []
  sub_fields (f ∷ fs) = do f' ← sub_optional f; fs' ← sub_fields fs; pure (f' ∷ fs')

  -- `subVals` of each kind of statement, in the order of its fields there.
  unfoldable pub sub_instr : Instr → M Instr
  sub_instr (store dst val) = do
    dst' ← sub1 fuel s dst
    val' ← sub1 fuel s val
    pure (store dst' val')
  sub_instr (copy dst src) = do
    dst' ← sub1 fuel s dst
    src' ← sub1 fuel s src
    pure (copy dst' src')
  sub_instr (make_array dst args) = do
    dst' ← sub1 fuel s dst
    args' ← sub_list args
    pure (make_array dst' args')
  sub_instr (new_array dst size) = do
    dst' ← sub1 fuel s dst
    size' ← sub1 fuel s size
    pure (new_array dst' size')
  sub_instr (make_slice dst ary from to) = do
    dst' ← sub1 fuel s dst
    ary' ← sub1 fuel s ary
    from' ← sub1 fuel s from
    to' ← sub1 fuel s to
    pure (make_slice dst' ary' from' to')
  sub_instr (make_string dst str) = do dst' ← sub1 fuel s dst; pure (make_string dst' str)
  sub_instr (new_string dst bytes) = do
    dst' ← sub1 fuel s dst
    bytes' ← sub1 fuel s bytes
    pure (new_string dst' bytes')
  sub_instr (make_and dst fields block_fun) = do
    dst' ← sub1 fuel s dst
    fields' ← sub_fields fields
    pure (make_and dst' fields' block_fun)
  sub_instr (make_or dst cas val) = do
    dst' ← sub1 fuel s dst
    val' ← sub_optional val
    pure (make_or dst' cas val')
  sub_instr (make_virt dst obj virts) = do
    dst' ← sub1 fuel s dst
    obj' ← sub_optional obj
    pure (make_virt dst' obj' virts)
  sub_instr (call fun args) = do args' ← sub_list args; pure (call fun args')
  sub_instr (virt_call self i args) = do
    self' ← sub1 fuel s self
    args' ← sub_list args
    pure (virt_call self' i args')
  sub_instr (panic v) = do v' ← sub1 fuel s v; pure (panic v')
  sub_instr (switch v dsts) = do v' ← sub1 fuel s v; pure (switch v' dsts)
  sub_instr (op code args) = do args' ← sub_list args; pure (op code args')
  sub_instr (load src) = do src' ← sub1 fuel s src; pure (load src')
  sub_instr (index ary i) = do ary' ← sub1 fuel s ary; i' ← sub1 fuel s i; pure (index ary' i')
  sub_instr (field obj i) = do obj' ← sub1 fuel s obj; pure (field obj' i)
  sub_instr other = pure other

-- A copy onto itself is deleted.
unfoldable pub self_copy : Instr → Bool
self_copy (copy dst src) = src == dst
self_copy _ = false

-- The body of the loop of `subVals`: one statement.
unfoldable pub write_back : ℕ → Instr → Heap → Heap
write_back s i h =
    let x = h.nodes s in
    set_node h s (record x { instr = i; del = if self_copy i then true else x.del })

abbrev pub finish : ℕ → Option (Instr × State) → Option State
finish s none = none
finish s (some (i, st)) = some (record st { heap = write_back s i st.heap })

unfoldable pub sub_stmt : ℕ → ℕ → State → Option State
sub_stmt fuel s st = finish s (sub_instr fuel s (st.heap.nodes s).instr st)

-- `subVals` over the statements of the blocks in order.
unfoldable pub sub_vals : ℕ → List ℕ → State → Option State
sub_vals fuel [] st = some st
sub_vals fuel (s ∷ ss) st = elim (sub_stmt fuel s st) [
  | none ↦ none
  | some st' ↦ sub_vals fuel ss st'
]
