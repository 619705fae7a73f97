-- ===== src/Loc/Examples.antt =====
-- Locations in two small files.
use pea_old.Prelude.{ℕ, ◌+◌, ◌≡◌, ◌↔◌, ◌⊎◌, refl, [], ◌∷◌, some, length, arith}
use pea_old.Prelude.Int.{pos, negsuc, ◌<ℤ◌}
use pea_old.Loc.{no_loc, loc, impossible, add, line_col, find_loc, locate, find_file, join}
use pea_old.Loc.Spec.{Source, add_all, place, total}
use pea_old.Loc.Lines.{line_col_injective}
use pea_old.Loc.Layout.{IsContiguous, add-IsContiguous, file_at}
use pea_old.Loc.Lookup.{between, here, there, find_loc-add_all, find_loc-straddle, find_loc-no_loc}

-- "a\nb" and "c"
abbrev first : Source
first = record { path = "first.pea"; text = b'a' ∷ b'\n' ∷ b'b' ∷ [] }

abbrev second : Source
second = record { path = "second.pea"; text = b'c' ∷ [] }

find_loc-add_all_example :
    find_loc (some (add_all [] (first ∷ second ∷ []))) (record { start = pos 0; stop = pos 2 })
    ≡ between (place first (second ∷ []) 0) (place first (second ∷ []) 2)
unfolding total
find_loc-add_all_example = find_loc-add_all first (second ∷ []) 0 2 (omega arith)

find_loc-straddle_example :
    find_loc
      (some (add_all [] (first ∷ second ∷ [])))
      (record { start = pos (0 + 2); stop = pos (0 + length first.text) })
    ≡ impossible
find_loc-straddle_example =
    find_loc-straddle (here {s = first} {rest = second ∷ []}) (there here refl) 2 (omega arith)
      (omega arith) refl

find_loc-no_loc_example :
    (find_loc (some (add_all [] (first ∷ []))) (record { start = negsuc 0; stop = pos 1 }) ≡ no_loc)
    ↔ ((negsuc 0 <ℤ pos 0) ⊎ (pos (total (first ∷ [])) <ℤ pos 1))
find_loc-no_loc_example = find_loc-no_loc first [] (record { start = negsuc 0; stop = pos 1 })

add-IsContiguous_example : IsContiguous 0 (add [] "first.pea" first.text)
add-IsContiguous_example = add-IsContiguous [] "first.pea" first.text tt

line_col_injective_example : ◌≡◌ {A = ℕ} 2 2
line_col_injective_example =
    line_col_injective (file_at 0 first) first.text 2 2 (unfold file_at in refl) refl

-- The last byte of the first file stands on line 2, column 1.
last_byte :
    find_loc (some (add_all [] (first ∷ second ∷ []))) (record { start = pos 2; stop = pos 2 })
    ≡ loc (record {
      path = "first.pea";
      start_line = 2;
      start_col = pos 1;
      stop_line = 2;
      stop_col = pos 1;
    })
unfolding find_loc locate find_file join line_col add_all
last_byte = refl
