-- ===== src/Basic/Lift/Liftable.antt =====
-- basic/lift.go: the allocs that `liftableAlloc` finds.
use pea_old.Prelude.{
  ℕ, Bool, true, false, not, ◌&&◌, List, [], ◌∷◌, Option, none, some, ◌==◌, ◌≡◌, ◌↔◌, refl, sym, ap,
  ◌∙◌, arith, In, elem, In-head, In-tail, In-cons_cases, Bool-cases, inl, inr, if◌then◌else◌,
  some_cancel,
}
use pea_old.Basic.Ir.{Instr, comment, store, load, alloc, Heap}
use mathlib.Core.Path.{subst}
use pea_old.Basic.Types.{Ty}
use pea_old.Basic.Checks.{typ_of}
use pea_old.Basic.Lift.{
  is_parm, has_store, holds_simple, liftable_alloc, store_if, alloc_store, seen_store, see_user,
  and_then, find_store,
}

module _ (h : Heap) (v : ℕ) where
  -- A load, or a store to the alloc.
  pub data IsLoad (u : ℕ) : Type 0 where
    a_load : {src : ℕ} → (h.nodes u).instr ≡ load src → IsLoad u

  pub data IsStore (u : ℕ) : Type 0 where
    a_store : {val : ℕ} → (h.nodes u).instr ≡ store v val → IsStore u

  -- The users are loads, except one store to the alloc.
  pub data OneStore (st : ℕ) : List ℕ → Type 0 where
    here : {us : List ℕ} → IsStore st → ((u : ℕ) → In u us → IsLoad u) → OneStore st (st ∷ us)
    there : {u : ℕ} {us : List ℕ} → IsLoad u → OneStore st us → OneStore st (u ∷ us)

  -- What is seen of one user.
  data Seen (u : ℕ) (st : Option ℕ) : Option (Option ℕ) → Type 0 where
    loads : IsLoad u → Seen u st (some st)
    stores : IsStore u → st ≡ none → Seen u st (some (some u))
    forbids : Seen u st none

  by_dst :
      (u dst val : ℕ) (st : Option ℕ)
      → (h.nodes u).instr ≡ store dst val
      → Seen u st (seen_store v u dst st)
  by_dst u dst val (some t) e = forbids
  by_dst u dst val none e = elim (Bool-cases (dst == v)) [
    | inr n ↦ rw n forbids
    | inl y ↦
        let same : dst ≡ v = ground arith in
        rw y (stores (a_store (e ∙ ap (λ d. store d val) same)) refl)
  ]

  see : (u : ℕ) (st : Option ℕ) (i : Instr) → (h.nodes u).instr ≡ i → Seen u st (see_user v u i st)
  see u st (store dst val) e = by_dst u dst val st e
  see u st (load src) e = loads (a_load e)
  see u st comment e = forbids
  see u st other e = forbids

  after_sound :
      (us : List ℕ) (st : ℕ) (r : Option ℕ)
      → find_store h v us (some st) ≡ some r
      → (r ≡ some st) × ((u : ℕ) → In u us → IsLoad u)
  unfolding find_store elem
  after_sound [] st r e = (sym (some_cancel e), λ u i. cc)
  after_sound (u ∷ us) st r e =
      step (see_user v u (h.nodes u).instr (some st)) (see u (some st) (h.nodes u).instr refl)
        (after_sound us st r) e
    where
      step :
          (q : Option (Option ℕ))
          → Seen u (some st) q
          → (find_store h v us (some st) ≡ some r → (r ≡ some st) × ((t : ℕ) → In t us → IsLoad t))
          → and_then q (λ st'. find_store h v us st') ≡ some r
          → (r ≡ some st) × ((t : ℕ) → In t (u ∷ us) → IsLoad t)
      step none forbids ih e = cc
      step (some q) (stores s bad) ih e = cc
      step (some q) (loads l) ih e =
          let (same, all) = ih e in
          (
            same,
            λ t i. elim (In-cons_cases t u us i) [ inl hit ↦ rw hit l | inr tail ↦ all t tail ],
          )

  found_sound : (us : List ℕ) (st : ℕ) → find_store h v us none ≡ some (some st) → OneStore st us
  unfolding find_store
  found_sound [] st e = absurd (impossible e)
    where
      impossible : ◌≡◌ {A = Option (Option ℕ)} (some none) (some (some st)) → ⊥
      impossible e = cc
  found_sound (u ∷ us) st e =
      step (see_user v u (h.nodes u).instr none) (see u none (h.nodes u).instr refl)
        (found_sound us st) e
    where
      step :
          (q : Option (Option ℕ))
          → Seen u none q
          → (find_store h v us none ≡ some (some st) → OneStore st us)
          → and_then q (λ st'. find_store h v us st') ≡ some (some st)
          → OneStore st (u ∷ us)
      step none forbids ih e = cc
      step (some q) (loads l) ih e = there l (ih e)
      step (some q) (stores s fresh) ih e =
          let (same, all) = after_sound us u (some st) e in
          subst (λ t. OneStore t (u ∷ us)) (some_cancel (sym same)) (here s all)

  see-load : (u : ℕ) (st : Option ℕ) → IsLoad u → see_user v u (h.nodes u).instr st ≡ some st
  see-load u st (a_load e) = rw e refl

  see-store : (u : ℕ) → IsStore u → see_user v u (h.nodes u).instr none ≡ some (some u)
  see-store u (a_store e) = rw e (ground arith)

  after_complete :
      (us : List ℕ) (st : Option ℕ)
      → ((u : ℕ) → In u us → IsLoad u)
      → find_store h v us st ≡ some st
  unfolding find_store
  after_complete [] st all = refl
  after_complete (u ∷ us) st all =
      rw (see-load u st (all u (In-head u us)))
        (after_complete us st (λ t i. all t (In-tail t u us i)))

  found_complete : (st : ℕ) (us : List ℕ) → OneStore st us → find_store h v us none ≡ some (some st)
  unfolding find_store
  found_complete st _ (here {us} s all) = rw (see-store st s) (after_complete us (some st) all)
  found_complete st _ (there {u} {us} l one) = rw (see-load u none l) (found_complete st us one)

-- An alloc of a simple type, which is no parameter unless parameters are lifted too, is liftable
-- with the store `st` exactly if its users are loads, except `st`, which stores to it.
pub liftable_alloc-OneStore :
    (ty : ℕ → Ty) (parms : List (Option ℕ)) (lift_parms : Bool) (h : Heap) (s : ℕ) (stack : Bool)
    (var : Option ℕ)
    → (h.nodes s).instr ≡ alloc stack var
    → holds_simple ty parms lift_parms (typ_of h s) ≡ some true
    → (not lift_parms && is_parm parms var) ≡ false
    → (st : ℕ)
    → (liftable_alloc ty parms lift_parms h s ≡ some (some st)) ↔ OneStore h s st (h.nodes s).users
liftable_alloc-OneStore ty parms lift_parms h s stack var is_alloc simple other st = (
  λ e. found_sound h s us st (of_has_store (find_store h s us none) (some_cancel (sym asked ∙ e))),
  λ one. asked ∙ ap (λ r. some (has_store r)) (found_complete h s st us one),
)
  where
    us : List ℕ
    us = (h.nodes s).users

    asked : liftable_alloc ty parms lift_parms h s ≡ some (has_store (find_store h s us none))
    asked =
        ap (alloc_store ty parms lift_parms h s) is_alloc
        ∙ ap (store_if ty parms lift_parms h s var) simple
        ∙ ap (λ c. if c then some none else some (has_store (find_store h s us none))) other

    of_has_store : (r : Option (Option ℕ)) → has_store r ≡ some st → r ≡ some (some st)
    of_has_store none e = cc
    of_has_store (some none) e = cc
    of_has_store (some (some t)) e = ap some e
