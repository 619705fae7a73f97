-- ===== src/Types/Unify.antt =====
-- types/inst.go: the unification of a pattern with a type. Of a `TypeName` it reads the type alone.
-- `none` stands for a panic (a nil pattern, or an argument that is not there) or for fuel run out.
pub mod Matches
pub mod Complete
use pea_old.Prelude.{
  ℕ, zero, suc, Bool, true, false, ◌&&◌, List, [], ◌∷◌, ◌++◌, Option, none, some, ◌==◌,
  if◌then◌else◌, text_eq,
}
use pea_old.Types.Tree.{TypeDef}

-- An error: a variable that is bound to another type already, or types with different heads.
pub data Mismatch : Type 0 where
  bound : Option ℕ → Option ℕ → Mismatch
  different : ℕ → ℕ → Mismatch

-- `sub`: what a type variable is bound to, where it is.
abbrev pub SubMap : Type 0
SubMap = ℕ → Option (Option ℕ)

unfoldable pub put : SubMap → ℕ → Option ℕ → SubMap
put sub v t w = if w == v then some t else sub w

-- The errors at the leaves, none if `unify` returns nil, and the bindings.
pub record Unified : Type 0 where
  pub errs : List Mismatch
  pub sub : SubMap

abbrev pub ok : SubMap → Option Unified
ok sub = some (record { errs = []; sub = sub })

abbrev pub failed : Mismatch → SubMap → Option Unified
failed e sub = some (record { errs = e ∷ []; sub = sub })

infixl 5 ◌>>=◌
abbrev pub ◌>>=◌ : Option Unified → (Unified → Option Unified) → Option Unified
none >>= f = none
some u >>= f = f u

abbrev pub same_pointer : Option ℕ → Option ℕ → Bool
same_pointer none none = true
same_pointer (some a) (some b) = a == b
same_pointer _ _ = false

abbrev pub same_head : TypeDef → TypeDef → Bool
same_head p t = text_eq p.mod_path t.mod_path && text_eq p.name t.name && (p.arity == t.arity)

-- A type parameter, with what it is bound to.
abbrev pub bind_parm : ℕ → Option ℕ → SubMap → Option (Option ℕ) → Option Unified
bind_parm v t sub none = ok (put sub v t)
bind_parm v t sub (some prev) = if same_pointer prev t then ok sub else failed (bound prev t) sub

-- The arguments of the pattern one by one; an error does not stop the loop.
unfoldable pub unify_args :
    (Option ℕ → Option ℕ → SubMap → Option Unified)
    → List (Option ℕ)
    → List (Option ℕ)
    → SubMap
    → Option Unified
unify_args rec [] ts sub = ok sub
unify_args rec (p ∷ ps) [] sub = none
unify_args rec (p ∷ ps) (t ∷ ts) sub = do
  u ← rec p t sub
  w ← unify_args rec ps ts u.sub
  some (record { errs = u.errs ++ w.errs; sub = w.sub })

module _ (ty : ℕ → TypeDef) (tparms : ℕ → Bool) where
  abbrev pub is_parm : Option ℕ → Bool
  is_parm none = false
  is_parm (some v) = tparms v

  unfoldable pub unify_heads :
      (Option ℕ → Option ℕ → SubMap → Option Unified) → ℕ → Option ℕ → SubMap → Option Unified
  unify_heads rec p none sub = ok sub
  unify_heads rec p (some t) sub =
      if same_head (ty p) (ty t)
      then unify_args rec (ty p).args (ty t).args sub
      else failed (different p t) sub

  abbrev pub unify_var : Option ℕ → Option ℕ → SubMap → Option Unified → Option Unified
  unify_var none t sub heads = heads
  unify_var (some v) t sub heads = if tparms v then bind_parm v t sub (sub v) else heads

  -- `unify`; the fuel bounds the depth of the pattern.
  unfoldable pub unify : ℕ → Option ℕ → Option ℕ → SubMap → Option Unified
  unfolding unify_heads
  unify zero p t sub = none
  unify (suc fuel) none t sub = none
  unify (suc fuel) (some p) t sub = unify_var (ty p).var t sub (unify_heads (unify fuel) p t sub)
