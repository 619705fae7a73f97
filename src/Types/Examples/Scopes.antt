-- ===== src/Types/Examples/Scopes.antt =====
-- A scope in which the block 4 stands in the block 3 of the function 0.
use pea_old.Prelude.{
  ℕ, zero, suc, Bool, true, false, List, [], ◌∷◌, map, Option, none, some, text_eq, ◌≡◌, ◌↔◌, ◌⊎◌,
  refl, In, IsUnique,
}
use pea_old.Utf8.{Bytes}
use pea_old.Types.Tree.{TypeDef}
use pea_old.Types.Scope.{
  Def, fun_def, FunDef, ValDef, Imp, Level, file, def_level, fun_level, block_level, missing, found,
  search_imports, verdict, walk,
}
use pea_old.Types.Scope.Find.{imp_find_fun, first_def, fun_at}
use pea_old.Types.Scope.Imports.{NoneOffers, OneOffers, mark_offer, search_imports_lem}
use pea_old.Types.Scope.Marks.{MarksScope}
use pea_old.Types.Scope.Resolve.{
  Outcome, resolved, InitDeps, has_def, user_of, add_user, use_def, find_fun,
}
use pea_old.Types.Scope.Uses.{UniqueDefs, find_fun-Uses}
use pea_old.Types.Capture.{VarDef, Captures, mark_capture}
use pea_old.Types.Capture.Marked.{Crosses, mark_capture_lem}

abbrev ty : ℕ → TypeDef
ty t = record {
  var = none;
  priv = false;
  mod_path = [];
  name = [];
  arity = 0;
  args = [];
  fields = [];
}

-- Function 1 is `p`, all others are `f`.
unfoldable funs : ℕ → FunDef
funs zero = record { recv = none; sel = b'f' ∷ []; priv = false }
funs (suc zero) = record { recv = none; sel = b'p' ∷ []; priv = false }
funs (suc (suc f)) = record { recv = none; sel = b'f' ∷ []; priv = false }

abbrev vals : ℕ → ValDef
vals v = record { name = []; priv = false }

abbrev vars : ℕ → Bytes
vars v = []

-- Two imports, of which the second has `p`.
abbrev imports : List Imp
imports =
    record { used = false; all = true; path = []; name = b'a' ∷ []; defs = fun_def 2 ∷ [] }
    ∷ record { used = false; all = true; path = []; name = b'b' ∷ []; defs = fun_def 1 ∷ [] }
    ∷ []

abbrev seek_p : Imp → Option ℕ
seek_p i = imp_find_fun ty funs vals vars none (b'p' ∷ []) i

search_imports_lem_example :
    ((verdict (search_imports seek_p imports).hits ≡ missing) ↔ NoneOffers seek_p imports)
    × ((a : ℕ)
        → (verdict (search_imports seek_p imports).hits ≡ found a) ↔ OneOffers seek_p a imports)
    × ((search_imports seek_p imports).imports ≡ map (mark_offer seek_p) imports)
search_imports_lem_example = search_imports_lem seek_p imports

abbrev scope : List Level
scope = block_level 4 ∷ block_level 3 ∷ fun_level 0 ∷ def_level (fun_def 0) ∷ file imports ∷ []

abbrev unused : InitDeps
unused d = []

abbrev outcome : (Outcome ℕ × List Level) × InitDeps
outcome = (
  (
    resolved 1,
    block_level 4
        ∷ block_level 3
        ∷ fun_level 0
        ∷ def_level (fun_def 0)
        ∷ file (search_imports seek_p imports).imports
        ∷ [],
  ),
  add_user (fun_def 1) (fun_def 0) unused,
)

find_p :
    find_fun ty funs vals vars (λ f. f) (λ d. true) none none (b'p' ∷ []) scope unused
    ≡ some outcome
unfolding find_fun walk fun_at search_imports first_def funs text_eq use_def user_of
find_p = refl

find_fun-Uses_example :
    MarksScope scope outcome.0.1
    × ((d : Def) → UniqueDefs (outcome.1 d))
    × ((f : ℕ) (u : Def)
        → outcome.0.0 ≡ resolved f
        → ◌≡◌ {A = Bool} true true
        → user_of scope ≡ some u
        → has_def u (outcome.1 (fun_def f)) ≡ true)
find_fun-Uses_example =
    find_fun-Uses ty funs vals vars (λ f. f) (λ d. true) none none (b'p' ∷ []) scope outcome.0.1
      outcome.0.0 unused outcome.1 (λ d. tt) find_p

-- A parameter of block 3.
abbrev parm : VarDef
parm = record { in_val = false; in_case = false; blk_parm = some 3; local = none }

abbrev nothing : Captures
nothing c = []

mark_capture_lem_example :
    ((c w : ℕ)
      → In w ((mark_capture 8 parm scope nothing).captures c)
        ↔ (In w [] ⊎ ((w ≡ 8) × Crosses parm scope c)))
    × (((mark_capture 8 parm scope nothing).captured ≡ true) ↔ ((c : ℕ) × Crosses parm scope c))
    × ((c : ℕ) → IsUnique ((mark_capture 8 parm scope nothing).captures c))
mark_capture_lem_example = mark_capture_lem 8 parm scope nothing refl (λ c. tt)
