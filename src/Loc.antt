-- ===== src/Loc.antt =====
-- loc/loc.go: byte offsets of a set of files, and the file, line and column of an offset.
-- A text is the list of its bytes. `for i, r := range text` visits a newline byte exactly at its
-- byte offset, since in UTF-8 that byte stands for itself alone.
pub mod Spec
pub mod Lines
pub mod Layout
pub mod Lookup
mod Examples
use Prim.Native.String.{String}
use pea_old.Prelude.{
  ℕ, ◌+◌, ◌||◌, List, [], ◌∷◌, ◌++◌, Option, none, some, ◌==◌, if◌then◌else◌, length,
}
use pea_old.Prelude.Int.{ℤ, pos, ltb_ℤ, ◌-ℤ◌}
use text.Mathlib.Text.{◌==◌ as str_eq}

-- A half-open range of byte offsets, counted over all files.
pub record Range : Type 0 where
  pub start : ℤ
  pub stop : ℤ

pub record Loc : Type 0 where
  pub path : String
  pub start_line : ℕ
  pub start_col : ℤ
  pub stop_line : ℕ
  pub stop_col : ℤ

pub record File : Type 0 where
  pub path : String
  pub offs : ℕ
  pub len : ℕ
  pub lines : List ℕ

abbrev pub Files : Type 0
Files = List File

abbrev pub newline : ℕ
newline = b'\n'

-- `Files.Len`: the end of the last file.
unfoldable pub files_len : Files → ℕ
files_len [] = 0
files_len (f ∷ []) = f.offs + f.len
files_len (f ∷ g ∷ fs) = files_len (g ∷ fs)

-- The loop of `Files.Add`, from the offset of the text's first byte.
unfoldable pub newlines : ℕ → List ℕ → List ℕ
newlines o [] = []
newlines o (c ∷ text) = if c == newline then o ∷ newlines (o + 1) text else newlines (o + 1) text

-- `Files.Add`
unfoldable pub add : Files → String → List ℕ → Files
unfolding newlines files_len
add fs path text =
    fs
    ++ record {
      path = path;
      offs = files_len fs;
      len = length text;
      lines = newlines (files_len fs) text;
    }
      ∷ []

-- The first loop of `loc1`: the last file whose offset is at most `p`, up to the first that is not.
pub find_file : File → Files → ℤ → File
find_file file [] p = file
find_file file (f ∷ fs) p = if ltb_ℤ p (pos f.offs) then file else find_file f fs p

-- The second loop of `loc1`, and its return: the line, and the column `p - col1`.
pub record LineCol : Type 0 where
  pub line : ℕ
  pub col : ℤ

pub scan_lines : List ℕ → ℤ → ℕ → ℤ → LineCol
scan_lines [] p line col1 = record { line = line; col = p -ℤ col1 }
scan_lines (nl ∷ lines) p line col1 =
    if ltb_ℤ (pos nl) p
    then scan_lines lines p (line + 1) (pos nl)
    else record { line = line; col = p -ℤ col1 }

-- `loc1` within the file that the first loop found.
pub line_col : File → ℤ → LineCol
unfolding scan_lines ◌-ℤ◌
line_col file p = scan_lines file.lines p 1 (pos file.offs -ℤ pos 1)

-- `Files.Loc` returns nil, returns a location, panics as impossible, or reads the first file of none.
pub data Found : Type 0 where
  no_loc : Found
  loc : Loc → Found
  impossible : Found
  no_file : Found

pub join : File → File → Range → Found
join s e r =
    let a = line_col s r.start in
    let b = line_col e r.stop in
    if str_eq s.path e.path
    then loc (record {
      path = s.path;
      start_line = a.line;
      start_col = a.col;
      stop_line = b.line;
      stop_col = b.col;
    })
    else impossible

-- `fs[0]` of `loc1` is out of range for a slice with no file.
pub locate : Files → Range → Found
locate [] r = no_file
locate (f ∷ fs) r = join (find_file f (f ∷ fs) r.start) (find_file f (f ∷ fs) r.stop) r

-- `Files.Loc`, of a slice that is nil or not.
pub find_loc : Option Files → Range → Found
unfolding locate
find_loc none r = no_loc
find_loc (some fs) r =
    if ltb_ℤ r.start (pos 0) || ltb_ℤ (pos (files_len fs)) r.stop then no_loc else locate fs r
