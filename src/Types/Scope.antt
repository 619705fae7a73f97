-- ===== src/Types/Scope.antt =====
-- types/scope.go: definitions by name, in lists of definitions, in imports and in scopes. A `*Type`,
-- `*Fun` or `*Val` is a number, and tables say what they point to. A scope is the list of its levels
-- from the innermost on; a search returns it with the imports that it marks as used.
pub mod Find
pub mod Resolve
pub mod Imports
pub mod Uses
pub mod Marks
use mathlib.Core.Option
use pea_old.Prelude.{
  ℕ, Bool, true, false, ◌&&◌, List, [], ◌∷◌, map, Option, none, some, ◌==◌, if◌then◌else◌, text_eq,
}
use pea_old.Utf8.{Bytes}
use pea_old.Types.Tree.{TypeDef}

pub data Def : Type 0 where
  type_def : ℕ → Def
  fun_def : ℕ → Def
  val_def : ℕ → Def

-- What is read of a `*Fun`: its receiver, where it has one, and the receiver's type, which may be nil.
pub record FunDef : Type 0 where
  pub recv : Option (Option ℕ)
  pub sel : Bytes
  pub priv : Bool

pub record ValDef : Type 0 where
  pub name : Bytes
  pub priv : Bool

-- An identifier: a variable, a field by its index in a type, a function, or the variable of a value.
pub data Ident : Type 0 where
  of_var : ℕ → Ident
  of_field : ℕ → ℕ → Ident
  of_fun : ℕ → Ident
  of_val : ℕ → Ident

-- `imp`
pub record Imp : Type 0 where
  pub used : Bool
  pub all : Bool
  pub path : Bytes
  pub name : Bytes
  pub defs : List Def

-- A level of a `scope`, by which of its fields is not nil.
pub data Level : Type 0 where
  univ : List Def → Level
  module_defs : List Def → Level
  file : List Imp → Level
  def_level : Def → Level
  type_var : ℕ → Level
  val_level : ℕ → Level
  fun_level : ℕ → Level
  block_level : ℕ → Level
  variable : ℕ → Level

-- What a search finds; where it is ambiguous, in the imports of these names.
pub data Answer {ℓ} (A : Type ℓ) : Type ℓ where
  missing : Answer A
  found : A → Answer A
  ambiguous : List Bytes → Answer A

-- What the imports of a file provide, each with the import's name, and the imports with marks.
pub record Hits {ℓ} (A : Type ℓ) : Type ℓ where
  pub hits : List (A × Bytes)
  pub imports : List Imp

abbrev pub marked : Imp → Imp
marked i = record i { used = true }

abbrev pub note_hit {ℓ} : {A : Type ℓ} → Imp → Option A → Hits A → Hits A
note_hit i none rest = record rest { imports = i ∷ rest.imports }
note_hit i (some a) rest = record {
  hits = (a, i.name) ∷ rest.hits;
  imports = marked i ∷ rest.imports;
}

-- The loop of `findType`, `findIdent` and `findFun` of a file, by what each seeks in an import.
unfoldable pub search_imports {ℓ} : {A : Type ℓ} → (Imp → Option A) → List Imp → Hits A
search_imports find [] = record { hits = []; imports = [] }
search_imports find (i ∷ is) = note_hit i (if i.all then find i else none) (search_imports find is)

abbrev pub hit_names {ℓ} : {A : Type ℓ} → List (A × Bytes) → List Bytes
hit_names hits = map (λ h. h.1) hits

abbrev pub verdict {ℓ} : {A : Type ℓ} → List (A × Bytes) → Answer A
verdict [] = missing
verdict (h ∷ []) = found h.0
verdict (h ∷ k ∷ rest) = ambiguous (hit_names (h ∷ k ∷ rest))

-- A level ends the search, with its marks, or passes it on.
pub data Step {ℓ} (A : Type ℓ) : Type ℓ where
  stop : Answer A → Level → Step A
  next : Step A

abbrev pub or_next {ℓ} : {A : Type ℓ} → Level → Option A → Step A
or_next l none = next
or_next l (some a) = stop (found a) l

abbrev pub file_step {ℓ} : {A : Type ℓ} → List Imp → Answer A → Step A
file_step is missing = next
file_step is (found a) = stop (found a) (file is)
file_step is (ambiguous names) = stop (ambiguous names) (file is)

abbrev pub search_file {ℓ} : {A : Type ℓ} → (Imp → Option A) → List Imp → Step A
search_file find is = let s = search_imports find is in file_step s.imports (verdict s.hits)

abbrev pub walk_on {ℓ} :
    {A : Type ℓ} → Level → List Level → Step A → Answer A × List Level → Answer A × List Level
walk_on l ls (stop a l') rest = (a, l' ∷ ls)
walk_on l ls next rest = (rest.0, l ∷ rest.1)

-- From a scope up.
unfoldable pub walk {ℓ} : {A : Type ℓ} → (Level → Step A) → List Level → Answer A × List Level
walk at [] = (missing, [])
walk at (l ∷ ls) = walk_on l ls (at l) (walk at ls)
