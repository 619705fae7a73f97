-- ===== src/Basic/Cleanup/Sorted.antt =====
-- basic/cleanup.go: the sorting of predecessors in `renumber`.
use pea_old.Prelude.{
  ℕ, ◌≤◌, true, false, ◌||◌, List, [], ◌∷◌, ltb, ◌==◌, ◌≡◌, refl, ap, ◌∙◌, arith, elem, In,
  Bool-cases, inl, inr, if◌then◌else◌,
}
use mathlib.Core.Path.{fun_ext}
use pea_old.Basic.Ir.{Heap, update}
use pea_old.Basic.Blocks.{block_num}
use pea_old.Basic.Blocks.Ins.{is_in}
use pea_old.Basic.Cleanup.{Count, insert, sort, sort_in, sort_ins, number_blocks, renumber}
use pea_old.Basic.Cleanup.Renumber.{sort_ins-num, blocks-ins}

-- No number is below the one in front of it.
abbrev IsFrom : (ℕ → ℕ) → ℕ → List ℕ → Type 0
IsFrom key x [] = Unit
IsFrom key x (y ∷ ys) = (key x ≤ key y) × IsFrom key y ys

abbrev pub IsSorted : (ℕ → ℕ) → List ℕ → Type 0
IsSorted key [] = Unit
IsSorted key (x ∷ xs) = IsFrom key x xs

elem-insert :
    (key : ℕ → ℕ) (a x : ℕ) (ys : List ℕ) → elem a (insert key x ys) ≡ (a == x || elem a ys)
unfolding insert elem
elem-insert key a x [] = refl
elem-insert key a x (y ∷ ys) = ground (arith, elem-insert key a x ys)

elem-sort : (key : ℕ → ℕ) (a : ℕ) (xs : List ℕ) → elem a (sort key xs) ≡ elem a xs
unfolding sort elem
elem-sort key a [] = refl
elem-sort key a (x ∷ xs) =
    elem-insert key a x (sort key xs) ∙ ap (λ t. a == x || t) (elem-sort key a xs)

insert-IsFrom :
    (key : ℕ → ℕ) (x y : ℕ) (ys : List ℕ)
    → key y ≤ key x
    → IsFrom key y ys
    → IsFrom key y (insert key x ys)
unfolding insert
insert-IsFrom key x y [] h s = (h, tt)
insert-IsFrom key x y (z ∷ zs) h (hz, s) = elim (Bool-cases (ltb (key z) (key x))) [
  | inl less ↦ rw less (hz, insert-IsFrom key x z zs (ground arith) s)
  | inr more ↦ rw more (h, (ground arith, s))
]

insert-IsSorted :
    (key : ℕ → ℕ) (x : ℕ) (ys : List ℕ) → IsSorted key ys → IsSorted key (insert key x ys)
unfolding insert
insert-IsSorted key x [] s = tt
insert-IsSorted key x (y ∷ ys) s = elim (Bool-cases (ltb (key y) (key x))) [
  | inl less ↦ rw less (insert-IsFrom key x y ys (ground arith) s)
  | inr more ↦ rw more (ground arith, s)
]

sort-IsSorted : (key : ℕ → ℕ) (xs : List ℕ) → IsSorted key (sort key xs)
unfolding sort
sort-IsSorted key [] = tt
sort-IsSorted key (x ∷ xs) = insert-IsSorted key x (sort key xs) (sort-IsSorted key xs)

sort_in-ins :
    (b c : ℕ) (h : Heap)
    → ((sort_in b h).blocks c).ins
      ≡ (if c == b then sort (block_num h) (h.blocks b).ins else (h.blocks c).ins)
unfolding sort_in update
sort_in-ins b c h = ground arith

is_in-sort_in : (a b c : ℕ) (h : Heap) → is_in a c (sort_in b h) ≡ is_in a c h
is_in-sort_in a b c h = elim (Bool-cases (c == b)) [
  | inl hit ↦
      let q : c ≡ b = ground arith in
      ground (arith, ap (elem a) (sort_in-ins b c h), elem-sort (block_num h) a (h.blocks b).ins)
  | inr miss ↦ ground (arith, ap (elem a) (sort_in-ins b c h))
]

is_in-sort_ins : (a c : ℕ) (bs : List ℕ) (h : Heap) → is_in a c (sort_ins bs h) ≡ is_in a c h
unfolding sort_ins
is_in-sort_ins a c [] h = refl
is_in-sort_ins a c (b ∷ bs) h = is_in-sort_ins a c bs (sort_in b h) ∙ is_in-sort_in a b c h

sort_in-num : (b : ℕ) (h : Heap) → block_num (sort_in b h) ≡ block_num h
unfolding sort_ins
sort_in-num b h = fun_ext λ c. sort_ins-num (b ∷ []) c h

abbrev InOrder : ℕ → Heap → Type 0
InOrder c h = IsSorted (block_num h) (h.blocks c).ins

sort_in-InOrder : (b c : ℕ) (h : Heap) → (c == b) ≡ true → InOrder c (sort_in b h)
sort_in-InOrder b c h hit =
    rw (sort_in-ins b c h, hit, sort_in-num b h) (sort-IsSorted (block_num h) (h.blocks b).ins)

sort_in-InOrder_other :
    (b c : ℕ) (h : Heap) → (c == b) ≡ false → InOrder c h → InOrder c (sort_in b h)
sort_in-InOrder_other b c h miss s = rw (sort_in-ins b c h, miss, sort_in-num b h) s

sort_ins-InOrder_kept : (c : ℕ) (bs : List ℕ) (h : Heap) → InOrder c h → InOrder c (sort_ins bs h)
unfolding sort_ins
sort_ins-InOrder_kept c [] h s = s
sort_ins-InOrder_kept c (b ∷ bs) h s = elim (Bool-cases (c == b)) [
  | inl hit ↦ sort_ins-InOrder_kept c bs (sort_in b h) (sort_in-InOrder b c h hit)
  | inr miss ↦ sort_ins-InOrder_kept c bs (sort_in b h) (sort_in-InOrder_other b c h miss s)
]

sort_ins-InOrder : (c : ℕ) (bs : List ℕ) (h : Heap) → In c bs → InOrder c (sort_ins bs h)
unfolding sort_ins elem
sort_ins-InOrder c [] h i = cc
sort_ins-InOrder c (b ∷ bs) h i = elim (Bool-cases (c == b)) [
  | inl hit ↦ sort_ins-InOrder_kept c bs (sort_in b h) (sort_in-InOrder b c h hit)
  | inr miss ↦ sort_ins-InOrder c bs (sort_in b h) (ground arith)
]

-- After `renumber` each of the blocks has the predecessors that it had, in the order of their new
-- numbers.
pub renumber-IsSorted :
    (bs : List ℕ) (h : Heap) (c : ℕ)
    → In c bs
    → IsSorted (block_num (renumber bs h).heap) ((renumber bs h).heap.blocks c).ins
      × ((a : ℕ) → is_in a c (renumber bs h).heap ≡ is_in a c h)
unfolding renumber
renumber-IsSorted bs h c i =
    let w : Count = record { next = 0; heap = h } in
    (
      sort_ins-InOrder c bs (number_blocks bs 0 w).heap i,
      λ a. is_in-sort_ins a c bs (number_blocks bs 0 w).heap ∙ ap (elem a) (blocks-ins bs 0 c w),
    )
