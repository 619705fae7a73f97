-- ===== src/Basic/Adds.antt =====
-- basic/build.go: the functions that make a statement and add it to a block. An object that Go
-- allocates is the next number; `none` is a panic. The caller gives a
-- virtual value the functions of its methods.
pub mod Built
pub mod Steps
use Prim.Native.String.{String}
use pea_old.Prelude.{
  ℕ, zero, suc, ◌<◌, Bool, true, false, List, [], ◌∷◌, Option, none, some, ◌==◌, if◌then◌else◌,
  get_elem?,
}
use mathlib.Core.Option
use text.Mathlib.Text.{◌==◌ as str_eq}
use pea_old.Prelude.Int.{ℤ, pos, negsuc}
use pea_old.Basic.Ir.{
  Instr, comment, store, copy, make_array, new_array, make_slice, make_string, new_string, make_and,
  make_or, make_virt, call, virt_call, ret, panic, jmp, switch, int_lit, float_lit, op, load, alloc,
  arg, global, index, field, Heap, set_node,
}
use pea_old.Basic.Types.{
  BuiltIn, ref_type, array_type, string_type, block_type, Ty, Virt, is_ref_type, is_nil,
}
use pea_old.Basic.Checks.{is_array, is_string, is_block, typ_of}
use pea_old.Basic.Build.{add_stmt}

-- A function that is being built: its statements and blocks, the number of objects, and `NVals`.
pub record Building : Type 0 where
  pub heap : Heap
  pub objects : ℕ
  pub n_vals : ℕ

abbrev pub Made : Type 0
Made = Option (ℕ × Building)

abbrev pub finish : ℕ → ℕ → ℕ → Option Heap → Made
finish s objects n_vals none = none
finish s objects n_vals (some h) = some (s, record { heap = h; objects = objects; n_vals = n_vals })

abbrev pub new_node : ℕ → Instr → ℕ → ℕ → Heap → Heap
new_node s i num typ h =
    set_node h s (record { del = false; instr = i; num = num; typ = typ; users = [] })

-- A statement that is no value and that keeps a type, as `Switch` its `OrType`.
unfoldable pub add_typed : ℕ → ℕ → Instr → Building → Made
add_typed b typ i f =
    let s = f.objects in finish s (suc s) f.n_vals (add_stmt b s (new_node s i 0 typ f.heap))

-- A statement that is no value, `addStmt(b, &T{…})`.
unfoldable pub add : ℕ → Instr → Building → Made
unfolding add_typed
add b i f = add_typed b 0 i f

-- A value, with `newVal`.
unfoldable pub add_val : ℕ → ℕ → Instr → Building → Made
add_val b typ i f =
    let s = f.objects in
    finish s (suc s) (suc f.n_vals) (add_stmt b s (new_node s i f.n_vals typ f.heap))

abbrev pub with_type : Option ℕ → (ℕ → Made) → Made
with_type none k = none
with_type (some t) k = k t

unfoldable pub add_comment : ℕ → Building → Made
add_comment b f = add b comment f

unfoldable pub add_store : ℕ → ℕ → ℕ → Building → Made
add_store b dst val f = add b (store dst val) f

unfoldable pub add_copy : ℕ → ℕ → ℕ → Building → Made
add_copy b dst src f = add b (copy dst src) f

unfoldable pub add_make_array : ℕ → ℕ → List ℕ → Building → Made
add_make_array b dst args f = add b (make_array dst args) f

unfoldable pub add_new_array : ℕ → ℕ → ℕ → Building → Made
add_new_array b dst size f = add b (new_array dst size) f

unfoldable pub add_make_slice : ℕ → ℕ → ℕ → ℕ → ℕ → Building → Made
add_make_slice b dst ary from to f = add b (make_slice dst ary from to) f

unfoldable pub add_make_string : ℕ → ℕ → ℕ → Building → Made
add_make_string b dst str f = add b (make_string dst str) f

unfoldable pub add_new_string : ℕ → ℕ → ℕ → Building → Made
add_new_string b dst bytes f = add b (new_string dst bytes) f

unfoldable pub add_make_and : ℕ → ℕ → List (Option ℕ) → Building → Made
add_make_and b dst args f = add b (make_and dst args none) f

unfoldable pub add_make_or : ℕ → ℕ → ℕ → Option ℕ → Building → Made
add_make_or b dst tag val f = add b (make_or dst tag val) f

unfoldable pub add_make_virt : ℕ → ℕ → Option ℕ → List ℕ → Building → Made
add_make_virt b dst obj virts f = add b (make_virt dst obj virts) f

unfoldable pub add_panic : ℕ → ℕ → Building → Made
add_panic b v f = add b (panic v) f

unfoldable pub add_call : ℕ → ℕ → List ℕ → Building → Made
add_call b called_fun args f = add b (call called_fun args) f

unfoldable pub add_virt_call_index : ℕ → ℤ → List ℕ → Building → Made
add_virt_call_index b i [] f = none
add_virt_call_index b i (self ∷ args) f = add b (virt_call self i (self ∷ args)) f

unfoldable pub add_ret : ℕ → Building → Made
add_ret b f = add b (ret false) f

unfoldable pub add_jmp : ℕ → ℕ → Building → Made
add_jmp b dst f = add b (jmp dst) f

unfoldable pub add_switch : ℕ → ℕ → List ℕ → ℕ → Building → Made
add_switch b val dsts or_type f = add_typed b or_type (switch val dsts) f

unfoldable pub add_int_lit : ℕ → ℕ → ℕ → Building → Made
add_int_lit b typ val f = add_val b typ (int_lit val) f

unfoldable pub add_float_lit : ℕ → ℕ → ℕ → Building → Made
add_float_lit b typ val f = add_val b typ (float_lit val) f

unfoldable pub add_op : ℕ → ℕ → ℕ → List ℕ → Building → Made
add_op b typ code args f = add_val b typ (op code args) f

unfoldable pub add_arg : ℕ → ℕ → ℕ → Building → Made
add_arg b typ parm f = add_val b typ (arg parm) f

module _ (ty : ℕ → Ty) (byte_type : ℕ) where
  -- The first argument of a reference type, and another type as it is.
  abbrev pub referenced : ℕ → Option ℕ
  referenced t = if is_ref_type (ty t).built_in then get_elem? (ty t).args 0 else some t

  -- The index of the first method with the selector, and -1 where there is none.
  abbrev pub find_sel : String → ℕ → List Virt → ℤ
  find_sel sel i [] = negsuc 0
  find_sel sel i (v ∷ vs) = if str_eq v.sel sel then pos i else find_sel sel (suc i) vs

  abbrev pub virt_index : String → ℕ → Option ℤ
  virt_index sel t =
      if is_ref_type (ty t).built_in
      then Option.map (λ e. find_sel sel 0 (ty e).virts) (get_elem? (ty t).args 0)
      else some (negsuc 0)

  abbrev pub add_at : ℕ → List ℕ → Building → Option ℤ → Made
  add_at b args f none = none
  add_at b args f (some i) = add_virt_call_index b i args f

  -- `sel` is the selector of the function.
  unfoldable pub add_virt_call_fun : ℕ → String → List ℕ → Building → Made
  add_virt_call_fun b sel [] f = none
  add_virt_call_fun b sel (self ∷ args) f =
      add_at b (self ∷ args) f (virt_index sel (typ_of f.heap self))

  unfoldable pub add_load : ℕ → ℕ → Building → Made
  add_load b src f = with_type (referenced (typ_of f.heap src)) λ t. add_val b t (load src) f

  -- To the first block of the function.
  unfoldable pub add_alloc : ℕ → ℕ → Building → Made
  add_alloc first typ f = add_val first (ty typ).ref (alloc false none) f

  unfoldable pub add_global : ℕ → ℕ → ℕ → Building → Made
  add_global b typ val f = add_val b (ty typ).ref (global val) f

  abbrev pub ref_to : Option ℕ → Option ℕ
  ref_to none = none
  ref_to (some t) = some (ty t).ref

  -- The type of an element, of an array or a string that `e` is.
  abbrev pub elem_type : ℕ → ℕ → Option ℕ
  elem_type t e =
      if is_array (ty e).built_in
      then ref_to (get_elem? (ty e).args 0)
      else if is_string (ty e).built_in
      then some byte_type
      else some t

  abbrev pub index_from : ℕ → Option ℕ → Option ℕ
  index_from t none = none
  index_from t (some e) = elem_type t e

  abbrev pub index_type : ℕ → Option ℕ
  index_type t =
      if is_ref_type (ty t).built_in then index_from t (get_elem? (ty t).args 0) else some t

  unfoldable pub add_index : ℕ → ℕ → ℕ → Building → Made
  add_index b ary i f = with_type (index_type (typ_of f.heap ary)) λ t. add_val b t (index ary i) f

  abbrev pub case_type : Option (Option ℕ) → Option ℕ
  case_type none = none
  case_type (some c) = c

  -- The type of a field, or a case, of the type `e`.
  abbrev pub part_type : ℕ → ℕ → Option ℕ
  part_type i e =
      if is_block (ty e).built_in
      then get_elem? (ty e).fields i
      else if is_nil (ty e).fields
      then if is_nil (ty e).cases then some e else case_type (get_elem? (ty e).cases i)
      else get_elem? (ty e).fields i

  abbrev pub field_from : ℕ → Option ℕ → Option ℕ
  field_from i none = none
  field_from i (some e) = ref_to (part_type i e)

  abbrev pub field_type : ℕ → ℕ → Option ℕ
  field_type t i =
      if is_ref_type (ty t).built_in then field_from i (get_elem? (ty t).args 0) else some t

  unfoldable pub add_field : ℕ → ℕ → ℕ → Building → Made
  add_field b obj i f =
      with_type (field_type (typ_of f.heap obj) i) λ t. add_val b t (field obj i) f
