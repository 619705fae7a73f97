-- ===== src/Basic/Types.antt =====
-- basic/basic.go: what the package asks of the types of values. A `*types.Type` is a number, and a
-- table says what it points to.
pub mod Empty
use Prim.Native.String.{String}
use pea_old.Prelude.{
  ℕ, zero, suc, Bool, true, false, not, ◌&&◌, ◌||◌, List, [], ◌∷◌, Option, none, some,
}

-- `BuiltInType`; `user` is 0.
pub data BuiltIn : Type 0 where
  user ref_type nil_type bool_type string_type array_type fun_type : BuiltIn
  int_type int8_type int16_type int32_type int64_type : BuiltIn
  uint_type uint8_type uint16_type uint32_type uint64_type : BuiltIn
  float_type float32_type float64_type block_type : BuiltIn

-- A virtual method: its selector, the types of its parameters, and of its result where one is written.
pub record Virt : Type 0 where
  pub sel : String
  pub parms : List ℕ
  pub ret : Option ℕ

-- What basic reads of a `types.Type`: its arguments, the types of its fields, those of its cases
-- (a case may have none), its virtual methods, and the type `Ref()` of references to it.
pub record Ty : Type 0 where
  pub built_in : BuiltIn
  pub args : List ℕ
  pub fields : List ℕ
  pub cases : List (Option ℕ)
  pub virts : List Virt
  pub ref : ℕ

abbrev pub no_built_in : BuiltIn → Bool
no_built_in user = true
no_built_in nil_type = true
no_built_in _ = false

-- The built-in types that are held in registers.
abbrev pub simple_built_in : BuiltIn → Bool
simple_built_in user = false
simple_built_in bool_type = false
simple_built_in string_type = false
simple_built_in array_type = false
simple_built_in fun_type = false
simple_built_in _ = true

abbrev pub is_ref_type : BuiltIn → Bool
is_ref_type ref_type = true
is_ref_type _ = false

abbrev pub is_nil {ℓ} : {A : Type ℓ} → List A → Bool
is_nil [] = true
is_nil (x ∷ xs) = false

unfoldable pub no_types : List (Option ℕ) → Bool
no_types [] = true
no_types (none ∷ cs) = no_types cs
no_types (some t ∷ cs) = false

-- `enumType`
unfoldable pub enum_type : Ty → Bool
unfolding no_types
enum_type t = no_types t.cases && not (is_nil t.cases)

-- `pointerType`
unfoldable pub pointer_cases : List (Option ℕ) → Bool
pointer_cases (none ∷ some t ∷ []) = true
pointer_cases (some t ∷ none ∷ []) = true
pointer_cases _ = false

-- `SimpleType`
unfoldable pub simple_type : Ty → Bool
unfolding enum_type
simple_type t = enum_type t || simple_built_in t.built_in

-- What `EmptyType` asks of a type that has no fields.
unfoldable pub empty_leaf : Ty → Bool
empty_leaf t = is_nil t.cases && is_nil t.virts && no_built_in t.built_in

unfoldable pub all_empty : (ℕ → Bool) → List ℕ → Bool
all_empty f [] = true
all_empty f (t ∷ ts) = f t && all_empty f ts

abbrev pub empty_by : (ℕ → Bool) → Ty → List ℕ → Bool
empty_by f t [] = empty_leaf t
empty_by f t (x ∷ xs) = all_empty f (x ∷ xs)

module _ (ty : ℕ → Ty) where
  -- `EmptyType`; the fuel bounds the depth of fields in fields.
  unfoldable pub empty_type : ℕ → ℕ → Bool
  empty_type zero t = false
  empty_type (suc fuel) t = empty_by (empty_type fuel) (ty t) (ty t).fields
