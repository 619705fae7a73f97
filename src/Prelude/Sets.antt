-- ===== src/Prelude/Sets.antt =====
-- Membership of numbers in lists, as a test.
use Prim.Native.Nat.{ℕ}
use mathlib.Core.Path.{◌≡◌, refl}
use mathlib.Core.Logic.{◌⊎◌, inl, inr}
use mathlib.Core.Bool.{Bool, true, false, ◌||◌}
use mathlib.Core.List.{List, [], ◌∷◌, ◌++◌}
use native.Mathlib.Omega.{arith}
use pea_old.Prelude.Tests.{◌==◌}

unfoldable pub elem : ℕ → List ℕ → Bool
elem a [] = false
elem a (x ∷ xs) = a == x || elem a xs

abbrev pub In : ℕ → List ℕ → Type 0
In a xs = elem a xs ≡ true

abbrev pub AllIn : List ℕ → List ℕ → Type 0
AllIn [] ys = Unit
AllIn (x ∷ xs) ys = In x ys × AllIn xs ys

abbrev pub IsUnique : List ℕ → Type 0
IsUnique [] = Unit
IsUnique (x ∷ xs) = (elem x xs ≡ false) × IsUnique xs

pub elem-append : (a : ℕ) (xs ys : List ℕ) → elem a (xs ++ ys) ≡ (elem a xs || elem a ys)
unfolding elem
elem-append a [] ys = refl
elem-append a (x ∷ xs) ys = ground (arith, elem-append a xs ys)

pub elem-concat : (a x : ℕ) (xs : List ℕ) → elem a (xs ++ x ∷ []) ≡ (elem a xs || a == x)
unfolding elem
elem-concat a x [] = ground arith
elem-concat a x (y ∷ xs) = ground (arith, elem-concat a x xs)

pub IsUnique-concat :
    (x : ℕ) (xs : List ℕ) → IsUnique xs → elem x xs ≡ false → IsUnique (xs ++ x ∷ [])
unfolding elem
IsUnique-concat x [] h e = (refl, tt)
IsUnique-concat x (y ∷ xs) (h, hs) e =
    (ground (arith, elem-concat y x xs), IsUnique-concat x xs hs (ground arith))

pub In-head : (a : ℕ) (xs : List ℕ) → In a (a ∷ xs)
unfolding elem
In-head a xs = ground arith

pub In-tail : (a x : ℕ) (xs : List ℕ) → In a xs → In a (x ∷ xs)
unfolding elem
In-tail a x xs h = ground arith

==-or : (a x : ℕ) (b : Bool) → (a == x || b) ≡ true → (a ≡ x) ⊎ (b ≡ true)
==-or a x b h = ground arith

pub In-cons_cases : (a x : ℕ) (xs : List ℕ) → In a (x ∷ xs) → (a ≡ x) ⊎ In a xs
unfolding elem
In-cons_cases a x xs h = ==-or a x (elem a xs) h

pub AllIn-In : (a : ℕ) (xs ys : List ℕ) → AllIn xs ys → In a xs → In a ys
unfolding elem
AllIn-In a [] ys h i = cc
AllIn-In a (x ∷ xs) ys (h, hs) i = elim (==-or a x (elem a xs) i) [
  | inl e ↦ rw e h
  | inr later ↦ AllIn-In a xs ys hs later
]

pub AllIn-append_right : (zs xs ys : List ℕ) → AllIn zs xs → AllIn zs (xs ++ ys)
AllIn-append_right [] xs ys h = tt
AllIn-append_right (z ∷ zs) xs ys (h, hs) =
    (ground (arith, elem-append z xs ys), AllIn-append_right zs xs ys hs)

pub AllIn-of : (xs ys : List ℕ) → ((a : ℕ) → In a xs → In a ys) → AllIn xs ys
AllIn-of [] ys f = tt
AllIn-of (x ∷ xs) ys f = (f x (In-head x xs), AllIn-of xs ys (λ a h. f a (In-tail a x xs h)))
