-- ===== src/Types/Ground.antt =====
-- types/inst.go: types and functions without type variables, the comparison of type arguments, and
-- the map from type parameters to arguments. A number stands for a pointer; `none` is nil, or, of
-- `add_sub_map`, the panic where an argument is not there.
pub mod Kept
use pea_old.Prelude.{
  ℕ, zero, suc, Bool, true, false, ◌&&◌, List, [], ◌∷◌, ◌++◌, Option, none, some, ◌==◌,
  if◌then◌else◌, length,
}
use pea_old.Types.Tree.{TypeDef}
use pea_old.Types.Unify.{SubMap, put, same_pointer}

-- `typeNamesEq`: the types of the names, as pointers.
unfoldable pub type_names_eq : List (Option ℕ) → List (Option ℕ) → Bool
type_names_eq [] [] = true
type_names_eq (a ∷ xs) (b ∷ ys) = same_pointer a b && type_names_eq xs ys
type_names_eq _ _ = false

-- `addSubMap`, of parameters with their arguments
unfoldable pub add_sub_map : List ℕ → List (Option ℕ) → SubMap → Option SubMap
unfolding put
add_sub_map [] args sub = some sub
add_sub_map (v ∷ parms) [] sub = none
add_sub_map (v ∷ parms) (a ∷ args) sub = add_sub_map parms args (put sub v a)

-- `newSubMap`
abbrev pub new_sub_map : List ℕ → List (Option ℕ) → Option SubMap
new_sub_map parms args = add_sub_map parms args (λ v. none)

unfoldable pub all_types : (Option ℕ → Bool) → List (Option ℕ) → Bool
all_types f [] = true
all_types f (t ∷ ts) = f t && all_types f ts

abbrev pub no_var : Option ℕ → Bool
no_var none = true
no_var (some v) = false

-- What is read of a `Fun`: its type arguments, the number of its type parameters, and the type of its
-- receiver where it has one.
pub record FunInst : Type 0 where
  pub targs : List (Option ℕ)
  pub tparms : ℕ
  pub recv : Option (Option ℕ)

module _ (ty : ℕ → TypeDef) where
  -- `isGroundType`; the fuel bounds the depth of arguments in arguments.
  unfoldable pub is_ground_type : ℕ → Option ℕ → Bool
  is_ground_type zero t = false
  is_ground_type (suc fuel) none = false
  is_ground_type (suc fuel) (some t) =
      no_var (ty t).var && all_types (is_ground_type fuel) (ty t).args

  abbrev pub is_ground_recv : ℕ → Option (Option ℕ) → Bool
  is_ground_recv fuel none = true
  is_ground_recv fuel (some t) = is_ground_type fuel t

  -- `isGroundFun`
  unfoldable pub is_ground_fun : ℕ → FunInst → Bool
  is_ground_fun fuel f =
      all_types (is_ground_type fuel) f.targs
      && ((f.tparms == length f.targs) && is_ground_recv fuel f.recv)

  -- `rmLiftedFunInsts`, of the instances of one function
  unfoldable pub rm_lifted_fun_insts : ℕ → List FunInst → List FunInst
  rm_lifted_fun_insts fuel [] = []
  rm_lifted_fun_insts fuel (f ∷ fs) =
      let rest = rm_lifted_fun_insts fuel fs in if is_ground_fun fuel f then f ∷ rest else rest
