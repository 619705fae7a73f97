-- ===== src/Basic/Sub/Fields.antt =====
-- basic/sub.go: the fields that `subVals` visits, against `Uses`.
use pea_old.Prelude.{
  ℕ, ◌<◌, true, ◌||◌, List, [], ◌∷◌, ◌++◌, map, Option, none, some, ◌==◌, ◌≡◌, refl, ap, arith,
  elem, elem-append, In,
}
use mathlib.Core.Option
use mathlib.Core.List.{append-nil}
use pea_old.Basic.Ir.{
  Instr, make_array, make_slice, make_and, make_or, make_virt, virt_call, Heap, present, optional,
  uses,
}
use pea_old.Basic.Sub.Instrs.{map_instr, visits, finals}

-- The receiver of a virtual call is also one of its arguments, as `addVirtCallIndex` makes it.
abbrev pub HasSelf : Instr → Type 0
HasSelf (virt_call self i args) = In self args
HasSelf _ = Unit

elem_of_eq : (a w : ℕ) (xs : List ℕ) → In a xs → (w == a) ≡ true → In w xs
elem_of_eq a w xs h e = let same : w ≡ a = ground arith in rw same h

visits-uses : (w : ℕ) (i : Instr) → HasSelf i → elem w (visits i) ≡ elem w (uses i)
unfolding visits uses elem
visits-uses w (make_array dst args) h = ground (arith, elem-append w args (dst ∷ []))
visits-uses w (make_slice dst ary from to) h = ground arith
visits-uses w (virt_call self k args) h = ground (arith, elem_of_eq self w args h)
visits-uses w other h = refl

-- The visited fields are the values used.
pub elem-visits : (w : ℕ) (i : Instr) → HasSelf i → elem w (visits i ++ []) ≡ elem w (uses i)
elem-visits w i h = rw (append-nil (visits i)) (visits-uses w i h)

pub In-map : (f : ℕ → ℕ) (a : ℕ) (xs : List ℕ) → In a xs → In (f a) (map f xs)
unfolding elem
In-map f a [] h = cc
In-map f a (x ∷ xs) h = ground (arith, In-map f a xs)

pub HasSelf-map_instr : (f : ℕ → ℕ) (i : Instr) → HasSelf i → HasSelf (map_instr f i)
unfolding map_instr
HasSelf-map_instr f (virt_call self k args) h = In-map f self args h
HasSelf-map_instr f other h = tt

present-map :
    (f : ℕ → ℕ) (fs : List (Option ℕ)) → present (map (Option.map f) fs) ≡ map f (present fs)
unfolding present
present-map f [] = refl
present-map f (none ∷ fs) = present-map f fs
present-map f (some v ∷ fs) = ap (λ t. f v ∷ t) (present-map f fs)

optional-map : (f : ℕ → ℕ) (o : Option ℕ) → optional (Option.map f o) ≡ map f (optional o)
optional-map f none = refl
optional-map f (some v) = refl

pub visits-map_instr : (f : ℕ → ℕ) (i : Instr) → visits (map_instr f i) ≡ map f (visits i)
unfolding visits map_instr
visits-map_instr f (make_and dst fields b) = ap (λ t. f dst ∷ t) (present-map f fields)
visits-map_instr f (make_or dst cas val) = ap (λ t. f dst ∷ t) (optional-map f val)
visits-map_instr f (make_virt dst obj virts) = ap (λ t. f dst ∷ t) (optional-map f obj)
visits-map_instr f other = refl

pub elem-finals :
    (num rank final : ℕ → ℕ) (fuel s : ℕ) (enough : (v : ℕ) → rank v < fuel) (before : Heap) (w : ℕ)
    (vs seen : List ℕ)
    → elem w (finals num rank final fuel s enough before vs seen)
      ≡ (elem w (map final vs) || elem w seen)
unfolding elem
elem-finals num rank final fuel s enough before w [] seen = refl
elem-finals num rank final fuel s enough before w (v ∷ vs) seen =
    ground (arith, elem-finals num rank final fuel s enough before w vs (final v ∷ seen))
