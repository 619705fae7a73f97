-- ===== src/Loc/Layout.antt =====
-- loc/loc.go: where `Files.Add` puts the files.
use pea_old.Prelude.{
  ℕ, ◌+◌, ◌-◌, ◌≡◌, refl, sym, ap, ◌∙◌, List, [], ◌∷◌, ◌++◌, length, arith, ltb, Bool-cases, inl,
  inr,
}
use mathlib.Core.List.{append_assoc, append-nil}
use Prim.Native.String.{String}
use pea_old.Prelude.Int.{pos}
use pea_old.Loc.{File, Files, add, files_len, newlines, find_file}
use pea_old.Loc.Spec.{Source, add_all, place, total}

unfoldable pub file_at : ℕ → Source → File
file_at o s = record { path = s.path; offs = o; len = length s.text; lines = newlines o s.text }

unfoldable pub lay : ℕ → List Source → Files
unfolding file_at
lay o [] = []
lay o (s ∷ rest) = file_at o s ∷ lay (o + length s.text) rest

abbrev pub IsContiguous : ℕ → Files → Type 0
IsContiguous o [] = Unit {0}
IsContiguous o (f ∷ fs) = (f.offs ≡ o) × IsContiguous (o + f.len) fs

abbrev end_of : ℕ → Files → ℕ
end_of o [] = o
end_of o (f ∷ fs) = end_of (o + f.len) fs

IsContiguous-append :
    (o : ℕ) (fs : Files) (f : File)
    → IsContiguous o fs
    → f.offs ≡ end_of o fs
    → IsContiguous o (fs ++ f ∷ [])
IsContiguous-append o [] f h e = (e, tt)
IsContiguous-append o (g ∷ fs) f (h, hs) e = (h, IsContiguous-append (o + g.len) fs f hs e)

files_len-end_of :
    (o : ℕ) (f : File) (fs : Files)
    → IsContiguous o (f ∷ fs)
    → files_len (f ∷ fs) ≡ end_of o (f ∷ fs)
unfolding files_len
files_len-end_of o f [] (e, hs) = omega arith
files_len-end_of o f (g ∷ fs) (e, hs) = files_len-end_of (o + f.len) g fs hs

-- `Files.Add` puts the new file where the last one ends, so the files stay contiguous from 0.
pub add-IsContiguous :
    (fs : Files) (path : String) (text : List ℕ)
    → IsContiguous 0 fs
    → IsContiguous 0 (add fs path text)
unfolding add
add-IsContiguous [] path text h = (refl, tt)
add-IsContiguous (f ∷ fs) path text h =
    IsContiguous-append 0 (f ∷ fs) _ h (files_len-end_of 0 f fs h)

files_len-lay :
    (fs : Files) (o : ℕ) (s : Source) → files_len (fs ++ file_at o s ∷ []) ≡ o + length s.text
unfolding files_len file_at
files_len-lay [] o s = refl
files_len-lay (f ∷ []) o s = refl
files_len-lay (f ∷ g ∷ fs) o s = files_len-lay (g ∷ fs) o s

pub add_all-append :
    (fs : Files) (sources : List Source) → add_all fs sources ≡ fs ++ lay (files_len fs) sources
unfolding add_all lay
add_all-append fs [] = sym (append-nil fs)
add_all-append fs (s ∷ rest) =
    add_all-append (add fs s.path s.text) rest
    ∙ unfold add file_at in
      ap (λ n. (fs ++ file_at (files_len fs) s ∷ []) ++ lay n rest)
        (files_len-lay fs (files_len fs) s)
      ∙ append_assoc fs (file_at (files_len fs) s ∷ []) (lay (files_len fs + length s.text) rest)

pub add_all-lay : (sources : List Source) → add_all [] sources ≡ lay 0 sources
unfolding files_len
add_all-lay sources = add_all-append [] sources

pub files_len-total :
    (o : ℕ) (s : Source) (rest : List Source) → files_len (lay o (s ∷ rest)) ≡ o + total (s ∷ rest)
unfolding files_len lay total file_at
files_len-total o s [] = omega arith
files_len-total o s (t ∷ rest) = omega (arith, files_len-total (o + length s.text) t rest)

-- The file loop of `loc1` finds the file of the source that the offset falls in.
pub find_file-place :
    (o k : ℕ) (s : Source) (rest : List Source)
    → (r : ℕ) × (find_file (file_at o s) (lay (o + length s.text) rest) (pos (o + k))
        ≡ file_at r (place s rest k).source)
      × (r + (place s rest k).offset ≡ o + k)
unfolding find_file lay place
find_file-place o k s [] = (o, refl, refl)
find_file-place o k s (t ∷ rest) = elim (Bool-cases (ltb k (length s.text))) [
  | inl here ↦ (o, ground arith, ground arith)
  | inr later ↦
      let (r, found, sum) = find_file-place (o + length s.text) (k - length s.text) t rest in
      let past : o + length s.text + (k - length s.text) ≡ o + k = ground arith in
      let there = rw past at found in (r, ground arith, ground arith)
]
