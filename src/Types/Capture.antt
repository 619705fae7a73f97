-- ===== src/Types/Capture.antt =====
-- types/scope.go: what a scope is enclosed by, and the variables that its blocks capture. A `*Block`
-- and a `*Var` is a number; `none` is nil, or the panic where nothing encloses the scope.
pub mod Marked
use pea_old.Prelude.{
  ℕ, Bool, true, false, ◌||◌, List, [], ◌∷◌, ◌++◌, Option, none, some, ◌==◌, if◌then◌else◌, elem,
}
use pea_old.Types.Tree.{TypeDef}
use pea_old.Types.Scope.{FunDef, ValDef, Imp, Level, univ, file, val_level, fun_level, block_level}
use pea_old.Types.Scope.Find.{find_type_in_defs}
use pea_old.Utf8.{Bytes}

-- `curFile`
unfoldable pub cur_file : List Level → Option (List Imp)
cur_file [] = none
cur_file (file is ∷ x) = some is
cur_file (l ∷ x) = cur_file x

-- `function`
unfoldable pub function : List Level → Option ℕ
function [] = none
function (fun_level f ∷ x) = some f
function (l ∷ x) = function x

-- The slices of local variables.
pub data Locals : Type 0 where
  of_fun : ℕ → Locals
  of_block : ℕ → Locals
  of_val : ℕ → Locals

-- `locals`
unfoldable pub locals : List Level → Option Locals
locals [] = none
locals (fun_level f ∷ x) = some (of_fun f)
locals (block_level b ∷ x) = some (of_block b)
locals (val_level v ∷ x) = some (of_val v)
locals (l ∷ x) = locals x

module _ (ty : ℕ → TypeDef) (funs : ℕ → FunDef) (vals : ℕ → ValDef) (vars : ℕ → Bytes) where
  -- `refTypeDef`
  unfoldable pub ref_type_def : List Level → Option ℕ
  ref_type_def [] = none
  ref_type_def (univ ds ∷ x) = find_type_in_defs ty funs vals vars 1 (b'&' ∷ []) ds
  ref_type_def (l ∷ x) = ref_type_def x

-- What `markCapture` reads of a `*Var`: whether Val or Case is set, the block that it is a parameter
-- of, and the slice of locals that it is in.
pub record VarDef : Type 0 where
  pub in_val : Bool
  pub in_case : Bool
  pub blk_parm : Option ℕ
  pub local : Option Locals

-- Captures, by block.
abbrev pub Captures : Type 0
Captures = ℕ → List ℕ

-- `addCapture`
unfoldable pub add_capture : ℕ → ℕ → Captures → Captures
add_capture b v caps c =
    if c == b then if elem v (caps b) then caps b else caps b ++ v ∷ [] else caps c

abbrev pub parm_of : ℕ → Option ℕ → Bool
parm_of b none = false
parm_of b (some c) = c == b

abbrev pub local_of : ℕ → Option Locals → Bool
local_of b (some (of_block c)) = c == b
local_of b _ = false

-- Whether the block defines the variable.
abbrev pub defines : ℕ → VarDef → Bool
defines b d = parm_of b d.blk_parm || local_of b d.local

pub record Marking : Type 0 where
  pub captured : Bool
  pub captures : Captures

-- The loop of `markCapture`
unfoldable pub mark_from : ℕ → VarDef → Bool → List Level → Captures → Marking
unfolding add_capture
mark_from v d captured [] caps = record { captured = captured; captures = caps }
mark_from v d captured (block_level b ∷ x) caps =
    let outer = mark_from v d true x (add_capture b v caps) in
    if defines b d then record { captured = captured; captures = caps } else outer
mark_from v d captured (l ∷ x) caps = mark_from v d captured x caps

-- `markCapture`
unfoldable pub mark_capture : ℕ → VarDef → List Level → Captures → Marking
unfolding mark_from
mark_capture v d x caps =
    if d.in_val || d.in_case
    then record { captured = false; captures = caps }
    else mark_from v d false x caps
