-- ===== src/Types/Scope/Find.antt =====
-- types/scope.go: the searches for types, identifiers, functions and imports.
use pea_old.Prelude.{
  ℕ, suc, Bool, true, false, ◌&&◌, List, [], ◌∷◌, Option, none, some, ◌==◌, if◌then◌else◌, text_eq,
}
use pea_old.Utf8.{Bytes}
use pea_old.Types.Tree.{TypeDef}
use pea_old.Types.Scope.{
  Def, type_def, fun_def, val_def, FunDef, ValDef, Ident, of_var, of_field, of_fun, of_val, Imp,
  Level, univ, module_defs, file, type_var, fun_level, variable, found, Step, stop, next, or_next,
  search_file,
}

-- The first definition that is sought.
unfoldable pub first_def {ℓ} : {A : Type ℓ} → (Def → Option A) → List Def → Option A
first_def f [] = none
first_def f (d ∷ ds) = elim (f d) [ none ↦ first_def f ds | some a ↦ some a ]

module _ (ty : ℕ → TypeDef) (funs : ℕ → FunDef) (vals : ℕ → ValDef) (vars : ℕ → Bytes) where
  abbrev pub type_named : ℕ → Bytes → Def → Option ℕ
  type_named arity name (type_def t) =
      if ((ty t).arity == arity) && text_eq (ty t).name name then some t else none
  type_named arity name _ = none

  -- `findTypeInDefs`
  abbrev pub find_type_in_defs : ℕ → Bytes → List Def → Option ℕ
  find_type_in_defs arity name defs = first_def (type_named arity name) defs

  abbrev pub public_type : Option ℕ → Option ℕ
  public_type none = none
  public_type (some t) = if (ty t).priv then none else some t

  -- `imp.findType`
  abbrev pub imp_find_type : ℕ → Bytes → Imp → Option ℕ
  imp_find_type arity name imp = public_type (find_type_in_defs arity name imp.defs)

  abbrev pub is_fun : Option (Option ℕ) → Bool
  is_fun none = true
  is_fun (some t) = false

  abbrev pub ident_named : Bytes → Def → Option Ident
  ident_named name (type_def t) = none
  ident_named name (fun_def f) =
      if is_fun (funs f).recv && text_eq (funs f).sel name then some (of_fun f) else none
  ident_named name (val_def v) = if text_eq (vals v).name name then some (of_val v) else none

  -- `findIdentInDefs`
  abbrev pub find_ident_in_defs : Bytes → List Def → Option Ident
  find_ident_in_defs name defs = first_def (ident_named name) defs

  abbrev pub is_priv : Def → Bool
  is_priv (type_def t) = (ty t).priv
  is_priv (fun_def f) = (funs f).priv
  is_priv (val_def v) = (vals v).priv

  abbrev pub public_ident : Bytes → Def → Option Ident
  public_ident name d = if is_priv d then none else ident_named name d

  -- `imp.findIdent`
  abbrev pub imp_find_ident : Bytes → Imp → Option Ident
  imp_find_ident name imp = first_def (public_ident name) imp.defs

  -- The receivers agree: there is none, or the types have one arity and name.
  abbrev pub same_recv : Option ℕ → Option (Option ℕ) → Bool
  same_recv recv (some none) = false
  same_recv none none = true
  same_recv none (some (some t)) = false
  same_recv (some r) none = false
  same_recv (some r) (some (some t)) =
      ((ty r).arity == (ty t).arity) && text_eq (ty r).name (ty t).name

  abbrev pub fun_named : Option ℕ → Bytes → Def → Option ℕ
  fun_named recv sel (fun_def f) =
      if same_recv recv (funs f).recv && text_eq (funs f).sel sel then some f else none
  fun_named recv sel _ = none

  -- `findFunInDefs`
  abbrev pub find_fun_in_defs : Option ℕ → Bytes → List Def → Option ℕ
  find_fun_in_defs recv sel defs = first_def (fun_named recv sel) defs

  abbrev pub public_fun : Option ℕ → Option ℕ
  public_fun none = none
  public_fun (some f) = if (funs f).priv then none else some f

  -- `imp.findFun`
  abbrev pub imp_find_fun : Option ℕ → Bytes → Imp → Option ℕ
  imp_find_fun recv sel imp = public_fun (find_fun_in_defs recv sel imp.defs)

  -- One level of `scope.findType`
  unfoldable pub type_at : ℕ → Bytes → Level → Step ℕ
  type_at arity name (type_var t) =
      if (arity == 0) && text_eq (ty t).name name then stop (found t) (type_var t) else next
  type_at arity name (file is) = search_file (imp_find_type arity name) is
  type_at arity name (module_defs ds) = or_next (module_defs ds) (find_type_in_defs arity name ds)
  type_at arity name (univ ds) = or_next (univ ds) (find_type_in_defs arity name ds)
  type_at arity name _ = next

  -- The field of this name, from index `i` on.
  unfoldable pub field_named : ℕ → ℕ → Bytes → List Bytes → Option Ident
  field_named t i name [] = none
  field_named t i name (f ∷ fs) =
      let rest = field_named t (suc i) name fs in
      if text_eq f name then some (of_field t i) else rest

  abbrev pub recv_field : Bytes → Option (Option ℕ) → Option Ident
  recv_field name (some (some t)) = field_named t 0 name (ty t).fields
  recv_field name _ = none

  -- One level of `scope.findIdent`
  unfoldable pub ident_at : Bytes → Level → Step Ident
  ident_at name (variable v) =
      if text_eq (vars v) name then stop (found (of_var v)) (variable v) else next
  ident_at name (fun_level f) = or_next (fun_level f) (recv_field name (funs f).recv)
  ident_at name (file is) = search_file (imp_find_ident name) is
  ident_at name (module_defs ds) = or_next (module_defs ds) (find_ident_in_defs name ds)
  ident_at name (univ ds) = or_next (univ ds) (find_ident_in_defs name ds)
  ident_at name _ = next

  -- One level of `scope.findFun`
  unfoldable pub fun_at : Option ℕ → Bytes → Level → Step ℕ
  fun_at recv sel (file is) = search_file (imp_find_fun recv sel) is
  fun_at recv sel (module_defs ds) = or_next (module_defs ds) (find_fun_in_defs recv sel ds)
  fun_at recv sel (univ ds) = or_next (univ ds) (find_fun_in_defs recv sel ds)
  fun_at recv sel _ = next
