-- ===== src/Types/Scope/Uses.antt =====
-- types/scope.go: who uses what, after a search for a function.
use mathlib.Core.Option
use pea_old.Prelude.{
  ℕ, Bool, true, false, ◌||◌, List, [], ◌∷◌, ◌++◌, Option, none, some, ◌≡◌, refl, ap, arith,
  Bool-cases, inl, inr, some_cancel,
}
use mathlib.Core.Path.{◌∙◌, subst}
use pea_old.Utf8.{Bytes}
use pea_old.Types.Tree.{TypeDef}
use pea_old.Types.Scope.{
  Def, type_def, fun_def, val_def, FunDef, ValDef, Level, Answer, missing, found, ambiguous, walk,
}
use pea_old.Types.Scope.Find.{fun_at}
use pea_old.Types.Scope.Resolve.{
  Outcome, resolved, refused, InitDeps, def_eq, has_def, user_of, add_user, original, use_def,
  find_def_mod_meth, or_method, with_deps, look_up_fun, use_fun, find_fun,
}
use pea_old.Types.Scope.Marks.{
  MarksScope, MarksScope-refl, MarksScope-trans, walk-MarksScope, find_import-MarksScope,
  fun_at-MarksStep,
}

-- Each definition stands once.
abbrev pub UniqueDefs : List Def → Type 0
UniqueDefs [] = Unit
UniqueDefs (d ∷ ds) = (has_def d ds ≡ false) × UniqueDefs ds

def_eq_refl : (d : Def) → def_eq d d ≡ true
unfolding def_eq
def_eq_refl (type_def a) = ground arith
def_eq_refl (fun_def a) = ground arith
def_eq_refl (val_def a) = ground arith

def_eq_comm : (d e : Def) → def_eq d e ≡ def_eq e d
unfolding def_eq
def_eq_comm (type_def a) (type_def b) = ground arith
def_eq_comm (type_def a) (fun_def b) = refl
def_eq_comm (type_def a) (val_def b) = refl
def_eq_comm (fun_def a) (type_def b) = refl
def_eq_comm (fun_def a) (fun_def b) = ground arith
def_eq_comm (fun_def a) (val_def b) = refl
def_eq_comm (val_def a) (type_def b) = refl
def_eq_comm (val_def a) (fun_def b) = refl
def_eq_comm (val_def a) (val_def b) = ground arith

has_def-concat :
    (d u : Def) (ws : List Def) → has_def d (ws ++ u ∷ []) ≡ (has_def d ws || def_eq u d)
unfolding has_def
has_def-concat d u [] = ground arith
has_def-concat d u (w ∷ ws) = ground (arith, has_def-concat d u ws)

UniqueDefs-concat :
    (u : Def) (ws : List Def) → UniqueDefs ws → has_def u ws ≡ false → UniqueDefs (ws ++ u ∷ [])
unfolding has_def
UniqueDefs-concat u [] h n = (refl, tt)
UniqueDefs-concat u (w ∷ ws) (first, rest) n = (
  ground (arith, has_def-concat w u ws, def_eq_comm u w),
  UniqueDefs-concat u ws rest (ground arith),
)

add_user-UniqueDefs :
    (d u : Def) (deps : InitDeps)
    → ((e : Def) → UniqueDefs (deps e))
    → (e : Def) → UniqueDefs (add_user d u deps e)
unfolding add_user
add_user-UniqueDefs d u deps h e = elim (Bool-cases (def_eq e d)) [
  | inr other ↦ rw other (h e)
  | inl same ↦ rw same (elim (Bool-cases (has_def u (deps d))) [
    | inl there ↦ rw there (h d)
    | inr n ↦ rw n (UniqueDefs-concat u (deps d) (h d) n)
  ])
]

has_def-add_user : (d u : Def) (deps : InitDeps) → has_def u (add_user d u deps d) ≡ true
unfolding add_user
has_def-add_user d u deps = rw (def_eq_refl d) (elim (Bool-cases (has_def u (deps d))) [
  | inl there ↦ rw (there, there) refl
  | inr n ↦ rw (n, has_def-concat u u (deps d), n, def_eq_refl u) refl
])

module _ (ty : ℕ → TypeDef) (funs : ℕ → FunDef) (vals : ℕ → ValDef) (vars : ℕ → Bytes)
    (fun_of : ℕ → ℕ) (in_module : Def → Bool) where
  use_def-UniqueDefs :
      (x : List Level) (d : Def) (deps deps' : InitDeps)
      → ((e : Def) → UniqueDefs (deps e))
      → use_def ty funs vals vars fun_of in_module x d deps ≡ some deps'
      → (e : Def) → UniqueDefs (deps' e)
  unfolding use_def
  use_def-UniqueDefs x d deps deps' h e = elim (Bool-cases (in_module d)) [
    | inr n ↦ subst (λ w. (e : Def) → UniqueDefs (w e)) (some_cancel (rw n at e)) h
    | inl y ↦ by_user (user_of x) (rw y at e)
  ]
    where
      by_user :
          (o : Option Def)
          → Option.map (λ u. add_user (original ty funs vals vars fun_of in_module d) u deps) o
            ≡ some deps'
          → (e : Def) → UniqueDefs (deps' e)
      by_user none e = cc
      by_user (some u) e =
          subst (λ w. (e : Def) → UniqueDefs (w e)) (some_cancel e) (add_user-UniqueDefs _ u deps h)

  use_def-has :
      (x : List Level) (d u : Def) (deps deps' : InitDeps)
      → in_module d ≡ true
      → user_of x ≡ some u
      → use_def ty funs vals vars fun_of in_module x d deps ≡ some deps'
      → has_def u (deps' (original ty funs vals vars fun_of in_module d)) ≡ true
  unfolding use_def
  use_def-has x d u deps deps' y user e =
      subst (λ (w : InitDeps). has_def u (w (original ty funs vals vars fun_of in_module d)) ≡ true)
        (some_cancel (rw (y, user) at e)) (has_def-add_user _ u deps)

  find_def_mod_meth-MarksScope :
      (recv : Option ℕ) (sel : Bytes) (x : List Level)
      → MarksScope x (find_def_mod_meth ty funs vals vars fun_of in_module recv sel x).1
  find_def_mod_meth-MarksScope none sel x = MarksScope-refl x
  find_def_mod_meth-MarksScope (some r) sel x = find_import-MarksScope _ x

  or_method-MarksScope :
      (recv : Option ℕ) (sel : Bytes) (x : List Level) (a : Answer ℕ) (y : List Level)
      → MarksScope x y
      → MarksScope x (or_method ty funs vals vars fun_of in_module recv sel (a, y)).1
  or_method-MarksScope recv sel x missing y h =
      MarksScope-trans h (find_def_mod_meth-MarksScope recv sel y)
  or_method-MarksScope recv sel x (found f) y h = h
  or_method-MarksScope recv sel x (ambiguous names) y h = h

  look_up_fun-MarksScope :
      (recv : Option ℕ) (m : Option Bytes) (sel : Bytes) (x : List Level)
      → MarksScope x (look_up_fun ty funs vals vars fun_of in_module recv m sel x).1
  look_up_fun-MarksScope recv (some m) sel x = find_import-MarksScope m x
  look_up_fun-MarksScope recv none sel x =
      let w = walk (fun_at ty funs vals vars recv sel) x in
      or_method-MarksScope recv sel x w.0 w.1 (
        walk-MarksScope (fun_at ty funs vals vars recv sel)
          (fun_at-MarksStep ty funs vals vars recv sel) x)

  use_fun-UniqueDefs :
      (x : List Level) (o : Outcome ℕ) (deps deps' : InitDeps)
      → ((e : Def) → UniqueDefs (deps e))
      → use_fun ty funs vals vars fun_of in_module x o deps ≡ some deps'
      → (e : Def) → UniqueDefs (deps' e)
  use_fun-UniqueDefs x (resolved f) deps deps' h e = use_def-UniqueDefs x (fun_def f) deps deps' h e
  use_fun-UniqueDefs x (refused r) deps deps' h e =
      subst (λ w. (e : Def) → UniqueDefs (w e)) (some_cancel e) h

  -- After a search for a function the scope is the same but for imports marked as used, each
  -- definition still lists each of its users once, and where the function that was found is one of
  -- the module's, the function that it is an instance of lists the definition that the scope is in.
  pub find_fun-Uses :
      (recv : Option ℕ) (m : Option Bytes) (sel : Bytes) (x y : List Level) (o : Outcome ℕ)
      (deps deps' : InitDeps)
      → ((d : Def) → UniqueDefs (deps d))
      → find_fun ty funs vals vars fun_of in_module recv m sel x deps ≡ some ((o, y), deps')
      → MarksScope x y
        × ((d : Def) → UniqueDefs (deps' d))
        × ((f : ℕ) (u : Def)
            → o ≡ resolved f
            → in_module (fun_def f) ≡ true
            → user_of x ≡ some u
            → has_def u (deps' (fun_def (fun_of f))) ≡ true)
  unfolding find_fun
  find_fun-Uses recv m sel x y o deps deps' h e =
      by_use (look_up_fun ty funs vals vars fun_of in_module recv m sel x)
        (look_up_fun-MarksScope recv m sel x) (use_fun ty funs vals vars fun_of in_module x _ deps)
        refl e
    where
      by_use :
          (a : Outcome ℕ × List Level)
          → MarksScope x a.1
          → (r : Option InitDeps) → use_fun ty funs vals vars fun_of in_module x a.0 deps ≡ r
          → with_deps a r ≡ some ((o, y), deps')
          → MarksScope x y
            × ((d : Def) → UniqueDefs (deps' d))
            × ((f : ℕ) (u : Def)
                → o ≡ resolved f
                → in_module (fun_def f) ≡ true
                → user_of x ≡ some u
                → has_def u (deps' (fun_def (fun_of f))) ≡ true)
      by_use a marks none used e = cc
      by_use a marks (some w) used e =
          let outcome_eq : a.0 ≡ o = ap (λ p. p.0.0) (some_cancel e) in
          let scope_eq : a.1 ≡ y = ap (λ p. p.0.1) (some_cancel e) in
          let deps_eq : w ≡ deps' = ap (λ p. p.1) (some_cancel e) in
          let run : use_fun ty funs vals vars fun_of in_module x o deps ≡ some deps' =
            subst (λ t. use_fun ty funs vals vars fun_of in_module x t deps ≡ some deps') outcome_eq
              (used ∙ ap some deps_eq) in
          (
            subst (MarksScope x) scope_eq marks,
            use_fun-UniqueDefs x o deps deps' h run,
            λ f u is_f here user. use_def-has x (fun_def f) u deps deps' here user (
                subst (λ t. use_fun ty funs vals vars fun_of in_module x t deps ≡ some deps') is_f
                  run),
          )
