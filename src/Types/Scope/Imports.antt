-- ===== src/Types/Scope/Imports.antt =====
-- types/scope.go: what a search of the imports of a file finds and marks.
use pea_old.Prelude.{
  List, [], ◌∷◌, map, Option, none, some, ◌≡◌, ◌↔◌, refl, ap, if◌then◌else◌, Option-cases, inl, inr,
}
use mathlib.Core.Path.{◌∙◌}
use pea_old.Utf8.{Bytes}
use pea_old.Types.Scope.{Imp, missing, found, marked, search_imports, verdict}

module _ {ℓ} {A : Type ℓ} (find : Imp → Option A) where
  -- What an import provides, if all its names are taken.
  abbrev pub offer : Imp → Option A
  offer i = if i.all then find i else none

  pub data NoneOffers : List Imp → Type ℓ where
    end : NoneOffers []
    skip : {i : Imp} {is : List Imp} → offer i ≡ none → NoneOffers is → NoneOffers (i ∷ is)

  -- One import offers `a`, and no other offers anything.
  pub data OneOffers : A → List Imp → Type ℓ where
    here :
        {a : A} {i : Imp} {is : List Imp} → offer i ≡ some a → NoneOffers is → OneOffers a (i ∷ is)
    there :
        {a : A} {i : Imp} {is : List Imp} → offer i ≡ none → OneOffers a is → OneOffers a (i ∷ is)

  abbrev pub mark_by : Imp → Option A → Imp
  mark_by i none = i
  mark_by i (some a) = marked i

  abbrev pub mark_offer : Imp → Imp
  mark_offer i = mark_by i (offer i)

  abbrev hits_of : List Imp → List (A × Bytes)
  hits_of is = (search_imports find is).hits

  nil_of_missing : (hs : List (A × Bytes)) → verdict hs ≡ missing → hs ≡ []
  nil_of_missing [] e = refl
  nil_of_missing (h ∷ []) e = cc
  nil_of_missing (h ∷ k ∷ hs) e = cc

  one_of_found :
      (hs : List (A × Bytes)) (a : A) → verdict hs ≡ found a → (n : Bytes) × (hs ≡ (a, n) ∷ [])
  one_of_found [] a e = cc
  one_of_found ((b, n) ∷ []) a e = (n, cc)
  one_of_found (h ∷ k ∷ hs) a e = cc

  none_sound : (is : List Imp) → hits_of is ≡ [] → NoneOffers is
  unfolding search_imports
  none_sound [] e = end
  none_sound (i ∷ is) e = elim (Option-cases (offer i)) [
    | inl n ↦ skip n (none_sound is (rw (n, hits_of) at e))
    | inr (a, s) ↦ absurd (not_nil (rw (s, hits_of) at e))
  ]
    where
      not_nil : {h : A × Bytes} {hs : List (A × Bytes)} → h ∷ hs ≡ [] → ⊥
      not_nil e = cc

  none_complete : (is : List Imp) → NoneOffers is → hits_of is ≡ []
  unfolding search_imports
  none_complete [] end = refl
  none_complete (i ∷ is) (skip n rest) = rw (n, hits_of) (none_complete is rest)

  one_sound : (is : List Imp) (a : A) (n : Bytes) → hits_of is ≡ (a, n) ∷ [] → OneOffers a is
  unfolding search_imports
  one_sound [] a n e = cc
  one_sound (i ∷ is) a n e = elim (Option-cases (offer i)) [
    | inl nothing ↦ there nothing (one_sound is a n (rw (nothing, hits_of) at e))
    | inr (b, s) ↦
        let same = split (rw (s, hits_of) at e) in here (s ∙ ap some same.0) (none_sound is same.1)
  ]
    where
      split :
          {b : A} {m : Bytes} {hs : List (A × Bytes)}
          → (b, m) ∷ hs ≡ (a, n) ∷ []
          → (b ≡ a) × (hs ≡ [])
      split e = (cc, cc)

  one_complete : (is : List Imp) (a : A) → OneOffers a is → (n : Bytes) × (hits_of is ≡ (a, n) ∷ [])
  unfolding search_imports
  one_complete [] a o = elim o [ ]
  one_complete (i ∷ is) a (here s rest) =
      rw (s, hits_of) (i.name, ap (λ t. (a, i.name) ∷ t) (none_complete is rest))
  one_complete (i ∷ is) a (there nothing rest) = rw (nothing, hits_of) (one_complete is a rest)

  imports_marked : (is : List Imp) → (search_imports find is).imports ≡ map mark_offer is
  unfolding search_imports
  imports_marked [] = refl
  imports_marked (i ∷ is) = elim (Option-cases (offer i)) [
    | inl nothing ↦ rw nothing (ap (λ t. i ∷ t) (imports_marked is))
    | inr (a, s) ↦ rw s (ap (λ t. marked i ∷ t) (imports_marked is))
  ]

  -- A search of the imports of a file finds nothing exactly if no import that gives all its names has
  -- the name, and finds `a` exactly if one has it, as `a`, and no other has it; anything else is
  -- ambiguous. It marks those imports, and changes nothing else.
  pub search_imports_lem :
      (is : List Imp)
      → ((verdict (search_imports find is).hits ≡ missing) ↔ NoneOffers is)
        × ((a : A) → (verdict (search_imports find is).hits ≡ found a) ↔ OneOffers a is)
        × ((search_imports find is).imports ≡ map mark_offer is)
  search_imports_lem is = (
    (λ e. none_sound is (nil_of_missing (hits_of is) e), λ n. ap verdict (none_complete is n)),
    (λ a. (
      λ e. let (n, one) = one_of_found (hits_of is) a e in one_sound is a n one,
      λ o. let (n, one) = one_complete is a o in ap verdict one,
    )),
    imports_marked is,
  )
