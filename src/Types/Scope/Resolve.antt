-- ===== src/Types/Scope/Resolve.antt =====
-- types/scope.go: `findType`, `findIdent`, `findFun` and `use`: names with a module or without, and
-- who uses what. `none` is a panic: a use outside every definition. Locations are left out.
use mathlib.Core.Option
use pea_old.Prelude.{
  ℕ, Bool, false, ◌||◌, List, [], ◌∷◌, ◌++◌, Option, none, some, ◌==◌, if◌then◌else◌, text_eq,
}
use pea_old.Utf8.{Bytes}
use pea_old.Types.Tree.{TypeDef}
use pea_old.Types.Scope.{
  Def, type_def, fun_def, val_def, FunDef, ValDef, Ident, of_fun, of_val, Imp, Level, file,
  def_level, Answer, missing, found, ambiguous, Step, stop, next, marked, walk,
}
use pea_old.Types.Scope.Find.{
  imp_find_type, imp_find_ident, imp_find_fun, type_at, ident_at, fun_at,
}

-- The error for a name.
pub data NameError : Type 0 where
  no_module : NameError
  not_found : NameError
  is_ambiguous : List Bytes → NameError

pub data Outcome {ℓ} (A : Type ℓ) : Type ℓ where
  resolved : A → Outcome A
  refused : NameError → Outcome A

abbrev pub outcome {ℓ} : {A : Type ℓ} → Answer A → Outcome A
outcome missing = refused not_found
outcome (found a) = resolved a
outcome (ambiguous names) = refused (is_ambiguous names)

abbrev pub or_not_found {ℓ} : {A : Type ℓ} → Option A → Outcome A
or_not_found none = refused not_found
or_not_found (some a) = resolved a

abbrev pub keep_import : Imp → Option (Imp × List Imp) → Option (Imp × List Imp)
keep_import i none = none
keep_import i (some (j, is)) = some (j, i ∷ is)

-- The first import of this name, marked.
unfoldable pub import_named : Bytes → List Imp → Option (Imp × List Imp)
import_named name [] = none
import_named name (i ∷ is) =
    let rest = keep_import i (import_named name is) in
    if text_eq i.name name then some (marked i, marked i ∷ is) else rest

abbrev pub import_step : Option (Imp × List Imp) → Step Imp
import_step none = next
import_step (some (i, is)) = stop (found i) (file is)

-- One level of `scope.findImport`
unfoldable pub import_at : Bytes → Level → Step Imp
import_at name (file is) = import_step (import_named name is)
import_at name _ = next

abbrev pub find_import : Bytes → List Level → Answer Imp × List Level
find_import name x = walk (import_at name) x

-- A name in the import of a module.
abbrev pub in_import {ℓ} : {A : Type ℓ} → (Imp → Option A) → Answer Imp → Outcome A
in_import find missing = refused no_module
in_import find (found i) = or_not_found (find i)
in_import find (ambiguous names) = refused no_module

abbrev pub with_deps {ℓ κ} : {A : Type ℓ} {D : Type κ} → A → Option D → Option (A × D)
with_deps a none = none
with_deps a (some d) = some (a, d)

unfoldable pub def_eq : Def → Def → Bool
def_eq (type_def a) (type_def b) = a == b
def_eq (fun_def a) (fun_def b) = a == b
def_eq (val_def a) (val_def b) = a == b
def_eq _ _ = false

-- `initDeps`: for each definition, those that use it.
abbrev pub InitDeps : Type 0
InitDeps = Def → List Def

unfoldable pub has_def : Def → List Def → Bool
has_def d [] = false
has_def d (w ∷ ws) = def_eq w d || has_def d ws

-- The definition that the scope is in.
unfoldable pub user_of : List Level → Option Def
user_of [] = none
user_of (def_level d ∷ x) = some d
user_of (_ ∷ x) = user_of x

unfoldable pub add_user : Def → Def → InitDeps → InitDeps
unfolding has_def
add_user d user deps e =
    if def_eq e d then if has_def user (deps d) then deps d else deps d ++ user ∷ [] else deps e

module _ (ty : ℕ → TypeDef) (funs : ℕ → FunDef) (vals : ℕ → ValDef) (vars : ℕ → Bytes)
    (fun_of : ℕ → ℕ) (in_module : Def → Bool) where
  -- `fun_of` is Fun.Def: the function that a function is an instance of.
  abbrev pub original : Def → Def
  original (fun_def f) = fun_def (fun_of f)
  original d = d

  -- `use`, where `in_module` says what `defFiles` has
  unfoldable pub use_def : List Level → Def → InitDeps → Option InitDeps
  use_def x d deps =
      if in_module d
      then Option.map (λ user. add_user (original d) user deps) (user_of x)
      else some deps

  unfoldable pub find_type : Option Bytes → ℕ → Bytes → List Level → Outcome ℕ × List Level
  find_type (some m) arity name x =
      let i = find_import m x in (in_import (imp_find_type ty funs vals vars arity name) i.0, i.1)
  find_type none arity name x =
      let a = walk (type_at ty funs vals vars arity name) x in (outcome a.0, a.1)

  abbrev pub use_ident : List Level → Outcome Ident → InitDeps → Option InitDeps
  use_ident x (resolved (of_val v)) deps = use_def x (val_def v) deps
  use_ident x (resolved (of_fun f)) deps = use_def x (fun_def f) deps
  use_ident x _ deps = some deps

  abbrev pub look_up_ident : Option Bytes → Bytes → List Level → Outcome Ident × List Level
  look_up_ident (some m) name x =
      let i = find_import m x in (in_import (imp_find_ident ty funs vals vars name) i.0, i.1)
  look_up_ident none name x = let a = walk (ident_at ty funs vals vars name) x in (outcome a.0, a.1)

  unfoldable pub find_ident :
      Option Bytes
      → Bytes
      → List Level
      → InitDeps
      → Option ((Outcome Ident × List Level) × InitDeps)
  find_ident m name x deps = let a = look_up_ident m name x in with_deps a (use_ident x a.0 deps)

  abbrev pub meth_of : Option ℕ → Bytes → Answer Imp → Answer ℕ
  meth_of recv sel (found i) = elim (imp_find_fun ty funs vals vars recv sel i) [
    | none ↦ missing
    | some f ↦ found f
  ]
  meth_of recv sel _ = missing

  -- `findDefModMeth`: the module of the receiver's type has its import under `#` and its path.
  abbrev pub find_def_mod_meth : Option ℕ → Bytes → List Level → Answer ℕ × List Level
  find_def_mod_meth none sel x = (missing, x)
  find_def_mod_meth (some r) sel x =
      let i = find_import (b'#' ∷ (ty r).mod_path) x in (meth_of (some r) sel i.0, i.1)

  abbrev pub or_method : Option ℕ → Bytes → Answer ℕ × List Level → Answer ℕ × List Level
  or_method recv sel (missing, x) = find_def_mod_meth recv sel x
  or_method recv sel (a, x) = (a, x)

  abbrev pub look_up_fun : Option ℕ → Option Bytes → Bytes → List Level → Outcome ℕ × List Level
  look_up_fun recv (some m) sel x =
      let i = find_import m x in (in_import (imp_find_fun ty funs vals vars recv sel) i.0, i.1)
  look_up_fun recv none sel x =
      let a = or_method recv sel (walk (fun_at ty funs vals vars recv sel) x) in (outcome a.0, a.1)

  abbrev pub use_fun : List Level → Outcome ℕ → InitDeps → Option InitDeps
  use_fun x (resolved f) deps = use_def x (fun_def f) deps
  use_fun x (refused e) deps = some deps

  unfoldable pub find_fun :
      Option ℕ
      → Option Bytes
      → Bytes
      → List Level
      → InitDeps
      → Option ((Outcome ℕ × List Level) × InitDeps)
  find_fun recv m sel x deps = let a = look_up_fun recv m sel x in with_deps a (use_fun x a.0 deps)
