-- ===== src/Loc/Lookup.antt =====
-- loc/loc.go: `Files.Loc` on the files that `Files.Add` made.
use pea_old.Prelude.{
  ℕ, ◌+◌, ◌-◌, ◌≤◌, ◌<◌, ◌≡◌, ◌↔◌, ◌≢◌, ◌⊎◌, refl, ap, ◌∙◌, List, [], ◌∷◌, some, length, arith,
  if◌then◌else◌, false,
}
use text.Mathlib.Text.{◌==◌ as str_eq}
use text.Mathlib.TextPositions.{eq_refl}
use pea_old.Prelude.Int.{pos, ◌<ℤ◌}
use pea_old.Loc.{
  File, Range, Found, no_loc, loc, impossible, find_file, join, line_col, locate, find_loc,
}
use pea_old.Loc.Spec.{Source, Spot, Place, walk, add_all, place, total}
use pea_old.Loc.Lines.{as_line_col, line_col-walk}
use pea_old.Loc.Layout.{file_at, lay, add_all-lay, files_len-total, find_file-place}

-- The line and column of a place in its own text.
pub spot : Place → Spot
spot x = walk x.source.text x.offset 1 1

-- The location that two places stand for; places in files of different paths have none.
pub between : Place → Place → Found
unfolding spot
between x y =
    if str_eq x.source.path y.source.path
    then loc (record {
      path = x.source.path;
      start_line = (spot x).line;
      start_col = pos (spot x).col;
      stop_line = (spot y).line;
      stop_col = pos (spot y).col;
    })
    else impossible

-- Within a file laid at `r`, the loops of `loc1` find the walk's line and column.
line_col-file_at :
    (r p : ℕ) (x : Place)
    → r + x.offset ≡ p
    → line_col (file_at r x.source) (pos p) ≡ as_line_col (spot x)
unfolding file_at spot
line_col-file_at r p x e = rw (← e) (line_col-walk (file_at r x.source) x.source.text x.offset refl)

join-between :
    (r q a b : ℕ) (x y : Place)
    → r + x.offset ≡ a
    → q + y.offset ≡ b
    → join (file_at r x.source) (file_at q y.source) (record { start = pos a; stop = pos b })
      ≡ between x y
unfolding join between
join-between r q a b x y ea eb =
    rw (line_col-file_at r a x ea, line_col-file_at q b y eb) (unfold file_at in refl)

find_loc-lay :
    (s : Source) (rest : List Source) (a b : ℕ)
    → b ≤ total (s ∷ rest)
    → find_loc (some (lay 0 (s ∷ rest))) (record { start = pos a; stop = pos b })
      ≡ join
          (find_file (file_at 0 s) (lay (0 + length s.text) rest) (pos (0 + a)))
          (find_file (file_at 0 s) (lay (0 + length s.text) rest) (pos (0 + b)))
          (record { start = pos a; stop = pos b })
unfolding find_loc locate lay find_file
find_loc-lay s rest a b h = ground (arith, files_len-total 0 s rest)

-- The location of a range of offsets, in files that were added one after the other, is the line
-- and column of its two ends in the texts that they fall in. Ends in files of different paths are
-- the panic. The range must not end behind the last text.
pub find_loc-add_all :
    (s : Source) (rest : List Source) (a b : ℕ)
    → b ≤ total (s ∷ rest)
    → find_loc (some (add_all [] (s ∷ rest))) (record { start = pos a; stop = pos b })
      ≡ between (place s rest a) (place s rest b)
find_loc-add_all s rest a b h =
    let (r, fr, er) = find_file-place 0 a s rest in
    let (q, fq, eq) = find_file-place 0 b s rest in
    rw (add_all-lay (s ∷ rest)) (
      find_loc-lay s rest a b h
      ∙ rw (fr, fq)
          (join-between r q a b (place s rest a) (place s rest b) (omega arith) (omega arith)))

-- `Starts s rest r x`: among `s ∷ rest` laid from 0, the source `x` begins at the offset `r`.
pub data Starts : Source → List Source → ℕ → Source → Type 0 where
  here : {s : Source} {rest : List Source} → Starts s rest 0 s
  there :
      {s t x : Source} {rest : List Source} {r p : ℕ}
      → Starts t rest r x
      → p ≡ length s.text + r
      → Starts s (t ∷ rest) p x

place-Starts :
    {s x : Source} {rest : List Source} {r : ℕ}
    → Starts s rest r x
    → (k : ℕ) → k < length x.text
    → place s rest (r + k) ≡ record { source = x; offset = k }
unfolding place
place-Starts {s} {rest = []} here k h = ap (λ n. record { source = s; offset = n }) (omega arith)
place-Starts {rest = t ∷ rest} here k h = ground arith
place-Starts (there {s} {t} {x} {rest} {r} {p} st e) k h =
    let past : p + k - length s.text ≡ r + k = omega arith in
    let rest_of = place-Starts st k h in ground arith

Starts-total :
    {s x : Source} {rest : List Source} {r : ℕ}
    → Starts s rest r x
    → r + length x.text ≤ total (s ∷ rest)
unfolding total
Starts-total here = omega arith
Starts-total (there st e) = omega (arith, Starts-total st)

-- Both ends of a range in one file: the location is found, it names that file, and its lines and
-- columns are those of the file's own text.
find_loc-within :
    {s x : Source} {rest : List Source} {r : ℕ} (st : Starts s rest r x) (a b : ℕ)
    → a < length x.text
    → b < length x.text
    → find_loc (some (add_all [] (s ∷ rest))) (record { start = pos (r + a); stop = pos (r + b) })
      ≡ loc (record {
        path = x.path;
        start_line = (walk x.text a 1 1).line;
        start_col = pos (walk x.text a 1 1).col;
        stop_line = (walk x.text b 1 1).line;
        stop_col = pos (walk x.text b 1 1).col;
      })
find_loc-within {s} {x} {rest} {r} st a b ha hb =
    find_loc-add_all s rest (r + a) (r + b) (omega (arith, Starts-total st))
    ∙ rw (place-Starts st a ha, place-Starts st b hb) (unfold between spot in rw (eq_refl x.path))

-- A range that ends where its file ends, at the first byte of a file of another path, is the panic.
pub find_loc-straddle :
    {s x y : Source} {rest : List Source} {r : ℕ}
    → Starts s rest r x
    → Starts s rest (r + length x.text) y
    → (a : ℕ) → a < length x.text
    → 0 < length y.text
    → str_eq x.path y.path ≡ false
    → find_loc
        (some (add_all [] (s ∷ rest)))
        (record { start = pos (r + a); stop = pos (r + length x.text) })
      ≡ impossible
find_loc-straddle {s} {x} {y} {rest} {r} sx sy a ha hy e =
    let edge : r + length x.text + 0 ≡ r + length x.text = omega arith in
    find_loc-add_all s rest (r + a) (r + length x.text) (omega (arith, Starts-total sx))
    ∙ rw (place-Starts sx a ha, rw edge at (place-Starts sy 0 hy)) (unfold between in rw e)

join-ne-no_loc : (f g : File) (r : Range) → join f g r ≢ no_loc
unfolding join
join-ne-no_loc f g r = ground arith

find_loc-lay_no_loc :
    (s : Source) (rest : List Source) (r : Range)
    → (find_loc (some (lay 0 (s ∷ rest))) r ≡ no_loc)
      ↔ ((r.start <ℤ pos 0) ⊎ (pos (total (s ∷ rest)) <ℤ r.stop))
unfolding find_loc locate lay
find_loc-lay_no_loc s rest r = grind (arith, files_len-total 0 s rest, join-ne-no_loc)

-- There is no location exactly when the range begins below 0 or ends behind the last text.
pub find_loc-no_loc :
    (s : Source) (rest : List Source) (r : Range)
    → (find_loc (some (add_all [] (s ∷ rest))) r ≡ no_loc)
      ↔ ((r.start <ℤ pos 0) ⊎ (pos (total (s ∷ rest)) <ℤ r.stop))
find_loc-no_loc s rest r = rw (add_all-lay (s ∷ rest)) (find_loc-lay_no_loc s rest r)
