-- ===== src/Basic/Bugs.antt =====
-- basic/bugs.go: the consistency checks of statements. A check reads of each value only its type, so
-- the statement has here, in the place of each value, the value's type. `typ` of a switch is its
-- OrType.
pub mod Kept
pub mod Calls
pub mod Safe
use pea_old.Prelude.{
  ℕ, zero, suc, ◌-◌, Bool, true, false, not, ◌&&◌, ◌||◌, List, [], ◌∷◌, ◌++◌, Option, none, some,
  ◌==◌, leb, if◌then◌else◌, length, get_elem?,
}
use pea_old.Basic.Ir.{
  Instr, store, copy, make_array, new_array, make_slice, make_string, make_and, make_or, make_virt,
  call, virt_call, switch, op, load, index, field, Heap,
}
use pea_old.Basic.Sub.Instrs.{map_instr}
use pea_old.Basic.Types.{
  BuiltIn, ref_type, array_type, string_type, block_type, int_type, uint8_type, uint16_type, Ty,
  Virt, is_nil, is_ref_type, simple_type, empty_type, enum_type,
}
use pea_old.Basic.Checks.{
  Bug, Check, FunTypes, at, bad_tag, bug, bug_if, check_case, check_elems, check_field,
  check_fields, check_index, check_nil_field, check_op_args, check_virt, check_virt_call,
  composite_type, count_mismatch, elem_of, empty_capture, fault, held, held_all, is_array, is_block,
  is_empty, is_int, is_ref, is_simple, is_string, is_tag, not_array, not_array_or_string, not_empty,
  not_int, not_reference, not_string, not_virtual, out_of_bounds, pass, recover_bug, reference_type,
  same_types, strip_last, strip_ret, too_few_args, typ_of, type_mismatch, wants_ref, with_ret,
  ◌>>=◌, ◌>>◌,
}

module _ (ty : ℕ → Ty) (funs : ℕ → FunTypes) (fuel : ℕ) where
  abbrev pub bugs_store : ℕ → ℕ → Check (Unit {0})
  bugs_store dst val = do
    e ← wants_ref ty funs fuel not_reference dst
    bug_if (not (e == val)) type_mismatch

  abbrev pub bugs_copy : ℕ → ℕ → Check (Unit {0})
  bugs_copy dst src = do
    bug_if (not (is_ref ty funs fuel dst)) not_reference
    bug_if (not (is_ref ty funs fuel src)) not_reference
    d ← elem_of ty funs fuel dst
    e ← elem_of ty funs fuel src
    bug_if (not (dst == src)) type_mismatch

  abbrev pub bugs_make_array : ℕ → List ℕ → Check (Unit {0})
  bugs_make_array dst args = do
    e ← wants_ref ty funs fuel not_reference dst
    bug_if (not (is_array (ty e).built_in)) not_array
    elm ← elem_of ty funs fuel e
    check_elems ty funs fuel elm args

  abbrev pub bugs_new_array : ℕ → ℕ → Check (Unit {0})
  bugs_new_array dst size = do
    e ← wants_ref ty funs fuel not_reference dst
    bug_if (not (is_array (ty e).built_in)) not_array
    bug_if (not (is_int (ty size).built_in)) not_int

  abbrev pub bugs_make_slice : ℕ → ℕ → ℕ → ℕ → Check (Unit {0})
  bugs_make_slice dst ary from to = do
    e ← wants_ref ty funs fuel not_reference dst
    bug_if (not (is_array (ty e).built_in)) not_array
    a ← wants_ref ty funs fuel not_reference ary
    bug_if (not (is_array (ty a).built_in)) not_array
    bug_if (not (is_int (ty from).built_in)) not_int
    bug_if (not (is_int (ty to).built_in)) not_int

  abbrev pub bugs_make_string : ℕ → Check (Unit {0})
  bugs_make_string dst = do
    e ← wants_ref ty funs fuel not_reference dst
    bug_if (not (is_string (ty e).built_in)) not_string

  abbrev pub bugs_make_and : ℕ → List (Option ℕ) → Check (Unit {0})
  bugs_make_and dst fields = do
    e ← wants_ref ty funs fuel not_reference dst
    check_fields ty funs fuel (ty e).built_in (ty e).fields fields

  abbrev pub bugs_make_or : ℕ → ℕ → Option ℕ → Check (Unit {0})
  bugs_make_or dst cas val = do
    e ← wants_ref ty funs fuel not_reference dst
    bug_if (leb (length (ty e).cases) cas) bad_tag
    c ← at (get_elem? (ty e).cases cas)
    check_case ty funs fuel c val

  abbrev pub bugs_make_virt : ℕ → Option ℕ → List ℕ → Check (Unit {0})
  bugs_make_virt dst obj virts = do
    e ← wants_ref ty funs fuel not_reference dst
    bug_if (not (length virts == length (ty e).virts)) count_mismatch
    o ← at obj
    bug_if (not (is_ref ty funs fuel o)) not_reference

  abbrev pub bugs_call : ℕ → List ℕ → Check (Unit {0})
  bugs_call fun args = do
    let parms = with_ret (funs fun).parms (funs fun).ret
    bug_if (not (length args == length parms)) count_mismatch
    same_types args parms

  abbrev pub bugs_switch : ℕ → ℕ → List ℕ → Check (Unit {0})
  bugs_switch own v dsts = do
    bug_if (not (length (ty own).cases == length dsts)) count_mismatch
    bug_if (not (is_tag (ty v).built_in) && not (enum_type (ty v))) type_mismatch

  abbrev pub bugs_load : ℕ → Check (Unit {0})
  bugs_load src = do
    e ← wants_ref ty funs fuel not_reference src
    bug_if (not (is_simple ty funs fuel e)) composite_type

  abbrev pub bugs_index : ℕ → ℕ → Check (Unit {0})
  bugs_index ary i = do
    e ← wants_ref ty funs fuel not_reference ary
    bug_if (not (is_array (ty e).built_in) && not (is_string (ty e).built_in)) not_array_or_string
    bug_if (not (is_int (ty i).built_in)) not_int

  abbrev pub bugs_field : ℕ → ℕ → Check (Unit {0})
  bugs_field obj i = do
    e ← wants_ref ty funs fuel not_reference obj
    check_index ty funs fuel (ty e) i

  -- The `bugs` methods, of a statement with types in the place of values, whose own type is `own`.
  unfoldable pub check : ℕ → Instr → Check (Unit {0})
  check own (store dst val) = bugs_store dst val
  check own (copy dst src) = bugs_copy dst src
  check own (make_array dst args) = bugs_make_array dst args
  check own (new_array dst size) = bugs_new_array dst size
  check own (make_slice dst ary from to) = bugs_make_slice dst ary from to
  check own (make_string dst str) = bugs_make_string dst
  check own (make_and dst fields block_fun) = bugs_make_and dst fields
  check own (make_or dst cas val) = bugs_make_or dst cas val
  check own (make_virt dst obj virts) = bugs_make_virt dst obj virts
  check own (call fun args) = bugs_call fun args
  check own (virt_call self i args) = check_virt_call ty funs fuel i args
  check own (switch v dsts) = bugs_switch own v dsts
  check own (op code args) = check_op_args ty funs fuel code args
  check own (load src) = bugs_load src
  check own (index ary i) = bugs_index ary i
  check own (field obj i) = bugs_field obj i
  check own other = pass tt

  -- `bugs`, of the statement `s`
  unfoldable pub bugs : Heap → ℕ → Option Bug
  bugs h s = recover_bug (check (typ_of h s) (map_instr (typ_of h) (h.nodes s).instr))
