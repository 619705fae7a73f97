-- ===== src/Basic/Escape.antt =====
-- basic/escape.go: the allocs that do not leave the frame of their function. `none` is a panic, or,
-- of `mark_all`, that the fuel ran out.
pub mod Count
pub mod Round
pub mod Settles
use pea_old.Prelude.{
  ℕ, zero, suc, Bool, true, false, not, ◌&&◌, List, [], ◌∷◌, ◌++◌, Option, none, some, ◌==◌, ltb,
  length, get_elem?, elem, if◌then◌else◌,
}
use pea_old.Prelude.Int.{ℤ, pos, negsuc, ◌-ℤ◌}
use pea_old.Basic.Ir.{
  Instr, store, copy, make_array, make_and, make_or, call, load, alloc, index, stores_to, Heap,
  set_node, set_block,
}
use pea_old.Basic.Types.{Ty, is_ref_type, simple_type}
use pea_old.Basic.Checks.{is_array, typ_of}

infixl 5 ◌>>=◌
abbrev pub ◌>>=◌ {ℓ κ} : {A : Type ℓ} {B : Type κ} → Option A → (A → Option B) → Option B
none >>= f = none
some a >>= f = f a

abbrev pub holds : ℕ → Option ℕ → Bool
holds v none = false
holds v (some f) = f == v

-- `findField`, from index `i` on: the last index where no field is the value.
unfoldable pub find_from : ℕ → ℕ → List (Option ℕ) → ℕ
find_from v i [] = i
find_from v i (f ∷ []) = i
find_from v i (f ∷ g ∷ fs) =
    let rest = find_from v (suc i) (g ∷ fs) in if holds v f then i else rest

abbrev pub find_field : ℕ → List (Option ℕ) → ℕ
find_field v fields = find_from v 0 fields

-- All but the last; of no arguments the slice is out of range.
unfoldable pub but_last : List ℕ → Option (List ℕ)
but_last [] = none
but_last (a ∷ []) = some []
but_last (a ∷ b ∷ xs) = but_last (b ∷ xs) >>= λ rest. some (a ∷ rest)

-- The first loop of `moveAllocsToStack`.
pub record Marking : Type 0 where
  pub heap : Heap
  pub changed : Bool
  pub n : ℕ
  pub allocs_to_move : ℕ

-- The second loop; the count of allocs to move may fall below 0.
pub record Moving : Type 0 where
  pub heap : Heap
  pub left : ℤ
  pub kept : List ℕ

module _ (ty : ℕ → Ty) (has_ret : ℕ → Bool) where
  abbrev pub first_arg : ℕ → Option ℕ
  first_arg t = get_elem? (ty t).args 0

  abbrev pub not_simple : Option ℕ → Option Bool
  not_simple none = none
  not_simple (some t) = some (not (simple_type (ty t)))

  -- Whether a statement that takes the value copies it.
  abbrev pub copies_elem : ℕ → Option Bool
  copies_elem e = if is_array (ty e).built_in then not_simple (first_arg e) else some false

  abbrev pub copies_field : ℕ → ℕ → Option Bool
  copies_field i e =
      if ltb i (length (ty e).fields) then not_simple (get_elem? (ty e).fields i) else some false

  abbrev pub copies_case : Option (Option ℕ) → Option Bool
  copies_case none = none
  copies_case (some none) = some false
  copies_case (some (some t)) = some (not (simple_type (ty t)))

  abbrev pub escape_unless : Option Bool → Option Bool
  escape_unless none = none
  escape_unless (some b) = some (not b)

  -- Whether the alloc `v` escapes by a user of type `own`. `typ` gives the type of a value, and
  -- `stack` says which values are allocs on the stack.
  unfoldable pub escapes_by : (ℕ → ℕ) → (ℕ → Bool) → ℕ → ℕ → Instr → Option Bool
  escapes_by typ stack v own (load src) = some false
  escapes_by typ stack v own (copy dst src) = some false
  escapes_by typ stack v own (make_array dst args) =
      escape_unless (first_arg (typ dst) >>= λ e. copies_elem e)
  escapes_by typ stack v own (make_and dst fields b) =
      escape_unless (first_arg (typ dst) >>= λ e. copies_field (find_field v fields) e)
  escapes_by typ stack v own (make_or dst cas val) =
      escape_unless (first_arg (typ dst) >>= λ e. copies_case (get_elem? (ty e).cases cas))
  escapes_by typ stack v own (store dst val) = some (not (stack dst))
  escapes_by typ stack v own (call fun args) =
      if has_ret fun then (but_last args >>= λ init. some (elem v init)) else some true
  escapes_by typ stack v own (index ary i) =
      some (not ((ary == v) && not (is_ref_type (ty own).built_in)))
  escapes_by typ stack v own other = some true

  abbrev pub is_stack : Instr → Bool
  is_stack (alloc true var) = true
  is_stack _ = false

  abbrev pub escapes_user : Heap → ℕ → ℕ → Option Bool
  escapes_user h v u =
      if stores_to (h.nodes u).instr v
      then some false
      else escapes_by (typ_of h) (λ w. is_stack (h.nodes w).instr) v (typ_of h u) (h.nodes u).instr

  abbrev pub or_rest : Option Bool → Option Bool → Option Bool
  or_rest none rest = none
  or_rest (some true) rest = some true
  or_rest (some false) rest = rest

  unfoldable pub escapes_users : Heap → ℕ → List ℕ → Option Bool
  escapes_users h v [] = some false
  escapes_users h v (u ∷ us) = or_rest (escapes_user h v u) (escapes_users h v us)

  -- `escapes`
  abbrev pub escapes : Heap → ℕ → Option Bool
  escapes h v = escapes_users h v (h.nodes v).users

  abbrev pub on_stack : Instr → Instr
  on_stack (alloc b var) = alloc true var
  on_stack other = other

  unfoldable pub set_stack : ℕ → Heap → Heap
  unfolding set_node
  set_stack s h = let x = h.nodes s in set_node h s (record x { instr = on_stack x.instr })

  abbrev pub stays_inside : Heap → ℕ → Instr → Option Bool
  stays_inside h s (alloc false var) = escape_unless (escapes h s)
  stays_inside h s other = some false

  -- Whether the statement is an alloc that is to be marked.
  abbrev pub is_markable : Heap → ℕ → Option Bool
  is_markable h s = stays_inside h s (h.nodes s).instr

  abbrev pub marked : Bool → ℕ → Marking → Marking
  marked later s w = record {
    heap = set_stack s w.heap;
    changed = true;
    n = suc w.n;
    allocs_to_move = if later then suc w.allocs_to_move else w.allocs_to_move;
  }

  abbrev pub mark_if : Bool → ℕ → Marking → Option Bool → Option Marking
  mark_if later s w none = none
  mark_if later s w (some false) = some w
  mark_if later s w (some true) = some (marked later s w)

  unfoldable pub mark_stmts : Bool → List ℕ → Marking → Option Marking
  mark_stmts later [] w = some w
  mark_stmts later (s ∷ ss) w =
      mark_if later s w (is_markable w.heap s) >>= λ w'. mark_stmts later ss w'

  unfoldable pub mark_blocks : Bool → List ℕ → Marking → Option Marking
  mark_blocks later [] w = some w
  mark_blocks later (b ∷ bs) w =
      mark_stmts later (w.heap.blocks b).stmts w >>= λ w'. mark_blocks true bs w'

  abbrev pub again : Marking → Option Marking → Option Marking
  again w rest = if w.changed then rest else some w

  unfoldable pub mark_all : ℕ → List ℕ → Marking → Option Marking
  mark_all zero bs w = none
  mark_all (suc fuel) bs w =
      mark_blocks false bs (record w { changed = false }) >>= λ w'. again w' (mark_all fuel bs w')

  -- `addAllocToEnd`, before the statement that the block ends in
  unfoldable pub before_last : ℕ → List ℕ → Option (List ℕ)
  before_last a [] = none
  before_last a (t ∷ []) = some (a ∷ t ∷ [])
  before_last a (s ∷ t ∷ ss) = before_last a (t ∷ ss) >>= λ rest. some (s ∷ rest)

  abbrev pub put_stmts : ℕ → Heap → List ℕ → Heap
  put_stmts b h ss = let x = h.blocks b in set_block h b (record x { stmts = ss })

  abbrev pub add_alloc_to_end : ℕ → ℕ → Heap → Option Heap
  add_alloc_to_end b a h = before_last a (h.blocks b).stmts >>= λ ss. some (put_stmts b h ss)

  abbrev pub move_stmt : ℕ → ℕ → Moving → Option Moving
  move_stmt first s w =
      if is_stack (w.heap.nodes s).instr
      then (add_alloc_to_end first s w.heap >>= λ h.
          some (record w { heap = h; left = w.left -ℤ pos 1 }))
      else some (record w { kept = w.kept ++ s ∷ [] })

  unfoldable pub move_stmts : ℕ → List ℕ → Moving → Option Moving
  move_stmts first [] w = some w
  move_stmts first (s ∷ ss) w = move_stmt first s w >>= λ w'. move_stmts first ss w'

  abbrev pub is_zero : ℤ → Bool
  is_zero (pos zero) = true
  is_zero _ = false

  unfoldable pub move_blocks : ℕ → List ℕ → ℤ → Heap → Option Heap
  move_blocks first [] left h = some h
  move_blocks first (b ∷ bs) left h =
      let rest =
        move_stmts first (h.blocks b).stmts (record { heap = h; left = left; kept = [] }) >>= λ w.
        move_blocks first bs w.left (put_stmts b w.heap w.kept) in
      if is_zero left then some h else rest

  abbrev pub move_rest : List ℕ → Marking → Option (Bool × Heap)
  move_rest [] w = none
  move_rest (b ∷ bs) w = move_blocks b bs (pos w.allocs_to_move) w.heap >>= λ h. some (ltb 0 w.n, h)

  -- `moveAllocsToStack`, of a function with these blocks
  unfoldable pub move_allocs_to_stack : ℕ → List ℕ → Heap → Option (Bool × Heap)
  move_allocs_to_stack fuel bs h =
      mark_all fuel bs (record { heap = h; changed = false; n = 0; allocs_to_move = 0 }) >>= λ w.
      move_rest bs w
