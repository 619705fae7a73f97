-- ===== src/Loc/Lines.antt =====
-- loc/loc.go: the line loop of `loc1`, and the walk through the text.
use pea_old.Prelude.{ℕ, zero, suc, ◌+◌, ◌≤◌, ◌≡◌, List, [], ◌∷◌, arith, ap, sym, refl, ◌∙◌}
use pea_old.Prelude.Int.{ℤ, pos, ◌-ℤ◌, -ℤ_parts, eq_of_parts, pos_part, neg_part}
use pea_old.Loc.{newlines, scan_lines, LineCol, line_col, File}
use pea_old.Loc.Spec.{Spot, walk, steps}

abbrev pub as_line_col : Spot → LineCol
as_line_col t = record { line = t.line; col = pos t.col }

-- No newline of a text lies before its first byte, so the loop stops there.
scan_lines-newlines_stop :
    (text : List ℕ) (o q line : ℕ) (col1 : ℤ)
    → q ≤ o
    → scan_lines (newlines o text) (pos q) line col1 ≡ record { line = line; col = pos q -ℤ col1 }
unfolding scan_lines newlines
scan_lines-newlines_stop [] o q line col1 h = refl
scan_lines-newlines_stop (c ∷ text) o q line col1 h =
    ground (arith, scan_lines-newlines_stop text (o + 1) q line col1)

parts : (col1 : ℤ) (o col : ℕ) → pos o -ℤ col1 ≡ pos col → o + neg_part col1 ≡ col + pos_part col1
parts col1 o col h = omega (arith, -ℤ_parts (pos o) col1, ap pos_part h, ap neg_part h)

-- The column counted from `col1` is known by its parts.
col_of_parts :
    (q : ℕ) (col1 : ℤ) (n : ℕ) → q + neg_part col1 ≡ n + pos_part col1 → pos q -ℤ col1 ≡ pos n
col_of_parts q col1 n h = eq_of_parts _ _ (omega (arith, -ℤ_parts (pos q) col1))

pub scan_lines-walk :
    (text : List ℕ) (o k line col : ℕ) (col1 : ℤ)
    → pos o -ℤ col1 ≡ pos col
    → scan_lines (newlines o text) (pos (o + k)) line col1 ≡ as_line_col (walk text k line col)
unfolding scan_lines newlines walk
scan_lines-walk [] o k line col col1 h =
    ap (λ c. record { line = line; col = c })
      (col_of_parts (o + k) col1 (col + k) (omega (arith, parts col1 o col h)))
scan_lines-walk (c ∷ text) o zero line col col1 h =
    let e : o + 0 ≡ o = omega arith in
    let stop = scan_lines-newlines_stop (c ∷ text) o o line col1 (omega arith) in
    rw e (stop ∙ ap (λ c. record { line = line; col = c }) h)
scan_lines-walk (c ∷ text) o (suc k) line col col1 h =
    let e : o + suc k ≡ o + 1 + k = omega arith in
    rw e (
      ground (
        arith,
        scan_lines-walk text (o + 1) k (line + 1) 1 (pos o)
            (col_of_parts (o + 1) (pos o) 1 (omega arith)),
        scan_lines-walk text (o + 1) k line (col + 1) col1
            (col_of_parts (o + 1) col1 (col + 1) (omega (arith, parts col1 o col h))),
      ))

-- Within a file that holds `text`, the loop of `loc1` finds the line and the column that the walk
-- from the first byte finds.
pub line_col-walk :
    (file : File) (text : List ℕ) (k : ℕ)
    → file.lines ≡ newlines file.offs text
    → line_col file (pos (file.offs + k)) ≡ as_line_col (walk text k 1 1)
unfolding line_col
line_col-walk file text k h = rw h (
    scan_lines-walk text file.offs k 1 1 (pos file.offs -ℤ pos 1) (
      col_of_parts file.offs (pos file.offs -ℤ pos 1) 1
        (omega (arith, -ℤ_parts (pos file.offs) (pos 1)))))

-- A walk never goes back, and on its first line the column counts the steps.
walk_bounds :
    (text : List ℕ) (k line col : ℕ)
    → (line ≤ (walk text k line col).line)
      × ((walk text k line col).line ≡ line → (walk text k line col).col ≡ col + k)
unfolding walk
walk_bounds [] k line col = (omega arith, λ e. refl)
walk_bounds (c ∷ text) zero line col = (omega arith, λ e. omega arith)
walk_bounds (c ∷ text) (suc k) line col =
    ground (arith, walk_bounds text k (line + 1) 1, walk_bounds text k line (col + 1))

-- The line and the column of an offset determine the offset.
pub steps-walk : (text : List ℕ) (k line col : ℕ) → steps text line col (walk text k line col) ≡ k
unfolding walk steps
steps-walk [] k line col = omega arith
steps-walk (c ∷ text) zero line col = ground arith
steps-walk (c ∷ text) (suc k) line col = ground (
  arith,
  steps-walk text k (line + 1) 1,
  steps-walk text k line (col + 1),
  walk_bounds text k (line + 1) 1,
  walk_bounds text k line (col + 1),
)

as_line_col_cancel : {s t : Spot} → as_line_col s ≡ as_line_col t → s ≡ t
as_line_col_cancel e = ground arith

-- Within a file, different offsets have different lines or columns.
pub line_col_injective :
    (file : File) (text : List ℕ) (j k : ℕ)
    → file.lines ≡ newlines file.offs text
    → line_col file (pos (file.offs + j)) ≡ line_col file (pos (file.offs + k))
    → j ≡ k
line_col_injective file text j k h e =
    let same : walk text j 1 1 ≡ walk text k 1 1 =
      as_line_col_cancel (sym (line_col-walk file text j h) ∙ e ∙ line_col-walk file text k h) in
    sym (steps-walk text j 1 1) ∙ ap (steps text 1 1) same ∙ steps-walk text k 1 1
