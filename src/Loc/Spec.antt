-- ===== src/Loc/Spec.antt =====
-- What loc/loc.go promises, said of the texts themselves: a walk that counts lines and columns,
-- and the file that an offset falls in.
use Prim.Native.String.{String}
use pea_old.Prelude.{ℕ, zero, suc, ◌+◌, ◌-◌, List, [], ◌∷◌, ◌==◌, ltb, if◌then◌else◌, length}
use pea_old.Loc.{Files, newline, add}

pub record Source : Type 0 where
  pub path : String
  pub text : List ℕ

-- Line and column, both from 1, in a text.
pub record Spot : Type 0 where
  pub line : ℕ
  pub col : ℕ

-- `k` steps through the text from a given line and column; past its end only columns are counted.
unfoldable pub walk : List ℕ → ℕ → ℕ → ℕ → Spot
walk [] k line col = record { line = line; col = col + k }
walk (c ∷ text) zero line col = record { line = line; col = col }
walk (c ∷ text) (suc k) line col =
    if c == newline then walk text k (line + 1) 1 else walk text k line (col + 1)

-- The way back: the number of steps that lead from one line and column to a later one.
unfoldable pub steps : List ℕ → ℕ → ℕ → Spot → ℕ
steps [] line col t = t.col - col
steps (c ∷ text) line col t =
    let down = suc (steps text (line + 1) 1 t) in
    let along = suc (steps text line (col + 1) t) in
    if t.line == line then t.col - col else if c == newline then down else along

pub record Place : Type 0 where
  pub source : Source
  pub offset : ℕ

-- The source that the offset `p` falls in. An offset past the end belongs to the last source.
unfoldable pub place : Source → List Source → ℕ → Place
place s [] p = record { source = s; offset = p }
place s (t ∷ rest) p =
    if ltb p (length s.text)
    then record { source = s; offset = p }
    else place t rest (p - length s.text)

unfoldable pub total : List Source → ℕ
total [] = 0
total (s ∷ rest) = length s.text + total rest

-- `Files.Add` for each source in turn.
unfoldable pub add_all : Files → List Source → Files
unfolding add
add_all fs [] = fs
add_all fs (s ∷ rest) = add_all (add fs s.path s.text) rest
