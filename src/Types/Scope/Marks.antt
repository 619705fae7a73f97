-- ===== src/Types/Scope/Marks.antt =====
-- types/scope.go: a search changes nothing of a scope but the marks of imports.
use pea_old.Prelude.{
  ℕ, Bool, true, false, List, [], ◌∷◌, Option, none, some, ◌≡◌, ◌⊎◌, refl, ap, if◌then◌else◌,
  text_eq, Bool-cases, inl, inr, some_cancel,
}
use mathlib.Core.Path.{◌∙◌, subst}
use pea_old.Utf8.{Bytes}
use pea_old.Types.Tree.{TypeDef}
use pea_old.Types.Scope.{
  FunDef, ValDef, Imp, Level, univ, module_defs, file, type_var, fun_level, variable, Answer,
  missing, found, ambiguous, marked, note_hit, search_imports, verdict, Step, stop, next, or_next,
  file_step, search_file, walk_on, walk,
}
use pea_old.Types.Scope.Find.{type_at, ident_at, fun_at}
use pea_old.Types.Scope.Resolve.{keep_import, import_named, import_step, import_at, find_import}

abbrev pub Marks : Imp → Imp → Type 0
Marks i j = (j ≡ i) ⊎ (j ≡ marked i)

pub data MarksAll : List Imp → List Imp → Type 0 where
  end : MarksAll [] []
  more : {i j : Imp} {is js : List Imp} → Marks i j → MarksAll is js → MarksAll (i ∷ is) (j ∷ js)

pub data MarksLevel : Level → Level → Type 0 where
  same : {l : Level} → MarksLevel l l
  in_file : {is js : List Imp} → MarksAll is js → MarksLevel (file is) (file js)

-- Level by level the same scope, but that some imports of files may have been marked as used.
pub data MarksScope : List Level → List Level → Type 0 where
  top : MarksScope [] []
  level :
      {l m : Level} {x y : List Level}
      → MarksLevel l m
      → MarksScope x y
      → MarksScope (l ∷ x) (m ∷ y)

MarksAll-refl : (is : List Imp) → MarksAll is is
MarksAll-refl [] = end
MarksAll-refl (i ∷ is) = more (inl refl) (MarksAll-refl is)

pub MarksScope-refl : (x : List Level) → MarksScope x x
MarksScope-refl [] = top
MarksScope-refl (l ∷ x) = level same (MarksScope-refl x)

Marks-trans : (i j k : Imp) → Marks i j → Marks j k → Marks i k
Marks-trans i j k (inl a) (inl b) = inl (b ∙ a)
Marks-trans i j k (inl a) (inr b) = inr (b ∙ ap marked a)
Marks-trans i j k (inr a) (inl b) = inr (b ∙ a)
Marks-trans i j k (inr a) (inr b) = inr (b ∙ ap marked a)

MarksAll-trans : {is js ks : List Imp} → MarksAll is js → MarksAll js ks → MarksAll is ks
MarksAll-trans end end = end
MarksAll-trans (more a p) (more b q) = more (Marks-trans _ _ _ a b) (MarksAll-trans p q)

MarksLevel-trans : {l m n : Level} → MarksLevel l m → MarksLevel m n → MarksLevel l n
MarksLevel-trans same q = q
MarksLevel-trans (in_file p) same = in_file p
MarksLevel-trans (in_file p) (in_file q) = in_file (MarksAll-trans p q)

pub MarksScope-trans : {x y z : List Level} → MarksScope x y → MarksScope y z → MarksScope x z
MarksScope-trans top top = top
MarksScope-trans (level a p) (level b q) = level (MarksLevel-trans a b) (MarksScope-trans p q)

module _ {ℓ} {A : Type ℓ} where
  -- A step that ends the search leaves the level the same but for marks.
  pub data MarksStep : Level → Step A → Type ℓ where
    stops : {l m : Level} {a : Answer A} → MarksLevel l m → MarksStep l (stop a m)
    goes_on : {l : Level} → MarksStep l next

  pub walk-MarksScope :
      (at : Level → Step A)
      → ((l : Level) → MarksStep l (at l))
      → (x : List Level) → MarksScope x (walk at x).1
  unfolding walk
  walk-MarksScope at h [] = top
  walk-MarksScope at h (l ∷ x) = by_step (at l) (h l) (walk-MarksScope at h x)
    where
      by_step :
          (s : Step A)
          → MarksStep l s
          → MarksScope x (walk at x).1
          → MarksScope (l ∷ x) (walk_on l x s (walk at x)).1
      by_step (stop a m) (stops p) ih = level p (MarksScope-refl x)
      by_step next p ih = level same ih

  or_next-MarksStep : (l : Level) (o : Option A) → MarksStep l (or_next l o)
  or_next-MarksStep l none = goes_on
  or_next-MarksStep l (some a) = stops same

  search_imports-MarksAll :
      (find : Imp → Option A) (is : List Imp) → MarksAll is (search_imports find is).imports
  unfolding search_imports
  search_imports-MarksAll find [] = end
  search_imports-MarksAll find (i ∷ is) =
      by_offer (if i.all then find i else none) (search_imports-MarksAll find is)
    where
      by_offer :
          (o : Option A)
          → MarksAll is (search_imports find is).imports
          → MarksAll (i ∷ is) (note_hit i o (search_imports find is)).imports
      by_offer none ih = more (inl refl) ih
      by_offer (some a) ih = more (inr refl) ih

  search_file-MarksStep :
      (find : Imp → Option A) (is : List Imp) → MarksStep (file is) (search_file find is)
  search_file-MarksStep find is = by_verdict (verdict (search_imports find is).hits)
    where
      by_verdict :
          (v : Answer A) → MarksStep (file is) (file_step (search_imports find is).imports v)
      by_verdict missing = goes_on
      by_verdict (found a) = stops (in_file (search_imports-MarksAll find is))
      by_verdict (ambiguous names) = stops (in_file (search_imports-MarksAll find is))

  if-MarksStep : (l : Level) (b : Bool) (a : Answer A) → MarksStep l (if b then stop a l else next)
  if-MarksStep l true a = stops same
  if-MarksStep l false a = goes_on

import_named-MarksAll :
    (name : Bytes) (is : List Imp) (i : Imp) (js : List Imp)
    → import_named name is ≡ some (i, js)
    → MarksAll is js
unfolding import_named
import_named-MarksAll name [] i js e = cc
import_named-MarksAll name (k ∷ is) i js e = elim (Bool-cases (text_eq k.name name)) [
  | inl y ↦
      subst (MarksAll (k ∷ is)) (ap (λ p. p.1) (some_cancel (rw y at e)))
        (more (inr refl) (MarksAll-refl is))
  | inr n ↦ rest (import_named name is) (import_named-MarksAll name is) (rw n at e)
]
  where
    rest :
        (r : Option (Imp × List Imp))
        → ((i : Imp) (js : List Imp) → r ≡ some (i, js) → MarksAll is js)
        → keep_import k r ≡ some (i, js)
        → MarksAll (k ∷ is) js
    rest none ih e = cc
    rest (some (j, ls)) ih e =
        subst (MarksAll (k ∷ is)) (ap (λ p. p.1) (some_cancel e)) (more (inl refl) (ih j ls refl))

import_at-MarksStep : (name : Bytes) (l : Level) → MarksStep l (import_at name l)
unfolding import_at
import_at-MarksStep name (file is) =
    by_import (import_named name is) (import_named-MarksAll name is)
  where
    by_import :
        (r : Option (Imp × List Imp))
        → ((i : Imp) (js : List Imp) → r ≡ some (i, js) → MarksAll is js)
        → MarksStep (file is) (import_step r)
    by_import none h = goes_on
    by_import (some (i, js)) h = stops (in_file (h i js refl))
import_at-MarksStep name other = goes_on

pub find_import-MarksScope : (name : Bytes) (x : List Level) → MarksScope x (find_import name x).1
find_import-MarksScope name x = walk-MarksScope (import_at name) (import_at-MarksStep name) x

module _ (ty : ℕ → TypeDef) (funs : ℕ → FunDef) (vals : ℕ → ValDef) (vars : ℕ → Bytes) where
  pub type_at-MarksStep :
      (arity : ℕ) (name : Bytes) (l : Level) → MarksStep l (type_at ty funs vals vars arity name l)
  unfolding type_at
  type_at-MarksStep arity name (type_var t) = if-MarksStep (type_var t) _ (found t)
  type_at-MarksStep arity name (file is) = search_file-MarksStep _ is
  type_at-MarksStep arity name (module_defs ds) = or_next-MarksStep (module_defs ds) _
  type_at-MarksStep arity name (univ ds) = or_next-MarksStep (univ ds) _
  type_at-MarksStep arity name other = goes_on

  pub ident_at-MarksStep :
      (name : Bytes) (l : Level) → MarksStep l (ident_at ty funs vals vars name l)
  unfolding ident_at
  ident_at-MarksStep name (variable v) = if-MarksStep (variable v) _ _
  ident_at-MarksStep name (fun_level f) = or_next-MarksStep (fun_level f) _
  ident_at-MarksStep name (file is) = search_file-MarksStep _ is
  ident_at-MarksStep name (module_defs ds) = or_next-MarksStep (module_defs ds) _
  ident_at-MarksStep name (univ ds) = or_next-MarksStep (univ ds) _
  ident_at-MarksStep name other = goes_on

  pub fun_at-MarksStep :
      (recv : Option ℕ) (sel : Bytes) (l : Level)
      → MarksStep l (fun_at ty funs vals vars recv sel l)
  unfolding fun_at
  fun_at-MarksStep recv sel (file is) = search_file-MarksStep _ is
  fun_at-MarksStep recv sel (module_defs ds) = or_next-MarksStep (module_defs ds) _
  fun_at-MarksStep recv sel (univ ds) = or_next-MarksStep (univ ds) _
  fun_at-MarksStep recv sel other = goes_on
