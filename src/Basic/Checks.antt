-- ===== src/Basic/Checks.antt =====
-- basic/bugs.go: what the checks of statements are made of. A check reads of each value only its type.
use pea_old.Prelude.{
  ℕ, Bool, true, false, not, ◌&&◌, ◌||◌, List, [], ◌∷◌, ◌++◌, Option, none, some, ◌==◌, leb,
  if◌then◌else◌, length, get_elem?,
}
use pea_old.Prelude.Int.{ℤ, pos, negsuc, ltb_ℤ}
use pea_old.Basic.Ir.{Heap}
use pea_old.Basic.Types.{
  BuiltIn, array_type, string_type, block_type, int_type, uint8_type, uint16_type, Ty, Virt, is_nil,
  is_ref_type, simple_type, empty_type,
}

-- The bugs, one for each message.
pub data Bug : Type 0 where
  not_reference not_array not_int not_string not_virtual not_empty : Bug
  not_array_or_string bad_tag composite_type reference_type : Bug
  type_mismatch count_mismatch out_of_bounds too_few_args : Bug

-- A check passes, stops at a bug, or panics of itself.
pub data Check {ℓ} (A : Type ℓ) : Type ℓ where
  pass : A → Check A
  bug : Bug → Check A
  fault : Check A

infixl 5 ◌>>=◌ ◌>>◌
abbrev pub ◌>>=◌ {ℓ κ} : {A : Type ℓ} {B : Type κ} → Check A → (A → Check B) → Check B
pass a >>= f = f a
bug b >>= f = bug b
fault >>= f = fault

abbrev pub ◌>>◌ {ℓ} : {B : Type ℓ} → Check (Unit {0}) → Check B → Check B
m >> k = m >>= λ _. k

-- `bugIf`
abbrev pub bug_if : Bool → Bug → Check (Unit {0})
bug_if true b = bug b
bug_if false b = pass tt

-- `recoverBug`: any panic that is not a bug is recovered too, and reported as no bug.
abbrev pub recover_bug : Check (Unit {0}) → Option Bug
recover_bug (pass u) = none
recover_bug (bug b) = some b
recover_bug fault = none

abbrev pub at {ℓ} : {A : Type ℓ} → Option A → Check A
at none = fault
at (some a) = pass a

abbrev pub is_array : BuiltIn → Bool
is_array array_type = true
is_array _ = false

abbrev pub is_string : BuiltIn → Bool
is_string string_type = true
is_string _ = false

abbrev pub is_block : BuiltIn → Bool
is_block block_type = true
is_block _ = false

abbrev pub is_int : BuiltIn → Bool
is_int int_type = true
is_int _ = false

abbrev pub is_tag : BuiltIn → Bool
is_tag uint8_type = true
is_tag uint16_type = true
is_tag _ = false

-- A function: the types of its parameters, and of its return parameter.
pub record FunTypes : Type 0 where
  pub parms : List ℕ
  pub ret : Option ℕ

abbrev pub with_ret : List ℕ → Option ℕ → List ℕ
with_ret ts none = ts
with_ret ts (some t) = ts ++ t ∷ []

-- Two lists of types, of which the second is no shorter; else the index is out of range.
unfoldable pub same_types : List ℕ → List ℕ → Check (Unit {0})
same_types [] ts = pass tt
same_types (a ∷ xs) [] = fault
same_types (a ∷ xs) (t ∷ ts) = do bug_if (not (a == t)) type_mismatch; same_types xs ts

-- The type of a value, from the heap.
abbrev pub typ_of : Heap → ℕ → ℕ
typ_of h v = (h.nodes v).typ

module _ (ty : ℕ → Ty) (funs : ℕ → FunTypes) (fuel : ℕ) where
  abbrev pub is_empty : ℕ → Bool
  is_empty t = empty_type ty fuel t

  abbrev pub is_simple : ℕ → Bool
  is_simple t = simple_type (ty t)

  -- `isRefType` and `refElemType`
  abbrev pub is_ref : ℕ → Bool
  is_ref t = is_ref_type (ty t).built_in

  abbrev pub elem_of : ℕ → Check ℕ
  elem_of t = at (get_elem? (ty t).args 0)

  abbrev pub wants_ref : Bug → ℕ → Check ℕ
  wants_ref b t = do bug_if (not (is_ref t)) b; elem_of t

  -- The type that a value of type `t` is held in: itself, or a reference to it.
  abbrev pub held : ℕ → ℕ
  held t = if is_simple t then t else (ty t).ref

  unfoldable pub check_elems : ℕ → List ℕ → Check (Unit {0})
  check_elems elm [] = pass tt
  check_elems elm (a ∷ xs) = do
    bug_if (is_simple elm && not (a == elm)) type_mismatch
    bug_if (not (is_simple elm) && not (a == (ty elm).ref)) type_mismatch
    check_elems elm xs

  -- A field of a block literal may have been left out if it captures a variable of an empty type.
  abbrev pub empty_capture : BuiltIn → ℕ → Check Bool
  empty_capture b f =
      if not (is_block b)
      then pass false
      else if not (is_ref f)
      then pass false
      else elem_of f >>= λ e. pass (is_empty e)

  abbrev pub check_nil_field : BuiltIn → ℕ → Check (Unit {0})
  check_nil_field b f =
      if is_empty f
      then pass tt
      else empty_capture b f >>= λ captured. bug_if (not captured) type_mismatch

  abbrev pub check_field : BuiltIn → ℕ → Option ℕ → Check (Unit {0})
  check_field b f none = check_nil_field b f
  check_field b f (some a) = do
    bug_if (is_empty f) type_mismatch
    bug_if (is_simple f && not (f == a)) type_mismatch
    bug_if (not (is_simple f) && not ((ty f).ref == a)) type_mismatch

  unfoldable pub check_fields : BuiltIn → List ℕ → List (Option ℕ) → Check (Unit {0})
  check_fields b [] xs = pass tt
  check_fields b (f ∷ fs) [] = bug too_few_args
  check_fields b (f ∷ fs) (a ∷ xs) = do check_field b f a; check_fields b fs xs

  -- The case of an or-type, and the value.
  abbrev pub check_case : Option ℕ → Option ℕ → Check (Unit {0})
  check_case none none = pass tt
  check_case (some c) none = bug_if (not (is_empty c)) type_mismatch
  check_case none (some a) = bug type_mismatch
  check_case (some c) (some a) = do
    bug_if (is_simple c && not (c == a)) type_mismatch
    bug_if (not (is_simple c) && not ((ty c).ref == a)) type_mismatch

  -- The arguments behind the receiver, without the location of the result.
  unfoldable pub strip_last : List ℕ → Check (List ℕ)
  strip_last [] = fault
  strip_last (a ∷ []) = pass []
  strip_last (a ∷ b ∷ xs) = strip_last (b ∷ xs) >>= λ rest. pass (a ∷ rest)

  abbrev pub strip_ret : Option ℕ → List ℕ → Check (List ℕ)
  strip_ret none xs = pass xs
  strip_ret (some r) xs = if is_empty r then pass xs else strip_last xs

  unfoldable pub held_all : List ℕ → List ℕ
  held_all [] = []
  held_all (t ∷ ts) = held t ∷ held_all ts

  abbrev pub check_virt : Virt → List ℕ → Check (Unit {0})
  check_virt virt args = do
    checked ← strip_ret virt.ret args
    bug_if (not (length checked == length virt.parms)) count_mismatch
    same_types checked (held_all virt.parms)

  -- A missing method has the index -1.
  abbrev pub get_virt : List Virt → ℤ → Option Virt
  get_virt virts (pos i) = get_elem? virts i
  get_virt virts (negsuc i) = none

  abbrev pub check_virt_call : ℤ → List ℕ → Check (Unit {0})
  check_virt_call i [] = fault
  check_virt_call i (recv ∷ args) = do
    virt_type ← wants_ref not_reference recv
    bug_if (is_nil (ty virt_type).virts) not_virtual
    bug_if (ltb_ℤ i (pos 0) || not (ltb_ℤ i (pos (length (ty virt_type).virts)))) out_of_bounds
    virt ← at (get_virt (ty virt_type).virts i)
    check_virt virt args

  unfoldable pub check_op_args : ℕ → List ℕ → Check (Unit {0})
  check_op_args code [] = pass tt
  check_op_args code (a ∷ xs) = do
    bug_if (is_empty a) not_empty
    bug_if (not (is_simple a)) composite_type
    bug_if (not (code == 1) && not (code == 21) && is_ref a) reference_type
    check_op_args code xs

  abbrev pub check_index : Ty → ℕ → Check (Unit {0})
  check_index t i =
      if is_block t.built_in
      then bug_if (leb (length t.fields) i) out_of_bounds
      else if not (is_nil t.cases)
      then bug_if (leb (length t.cases) i) out_of_bounds
      else if not (is_nil t.fields)
      then bug_if (leb (length t.fields) i) out_of_bounds
      else pass tt
