-- ===== src/Mod/Topological/Correct.antt =====
-- mod/mod.go: the result of `TopologicalDeps`, and reachability.
use pea_old.Prelude.{
  ℕ, zero, suc, ◌<◌, ◌≡◌, ◌↔◌, List, [], ◌∷◌, ◌++◌, Option, some, elem, In, AllIn, IsUnique,
  elem-concat, AllIn-In, AllIn-append_right, In-cons_cases, In-head, In-tail, arith, Bool-cases,
  Option-cases, some_cancel, inl, inr,
}
use mathlib.Core.Path.{subst}
use mathlib.Core.List.{append_assoc}
use pea_old.Mod.Topological.{Walk, mark, each, add, topological_deps, start}
use pea_old.Mod.Topological.Returns.{AllBelow, topological_deps_returns}
use pea_old.Mod.Topological.Order.{IsOrdered, topological, stuck_absurd}

module _ (deps : ℕ → List ℕ) where
  -- What can be reached from the roots by dependencies.
  pub data Reach (roots : List ℕ) : ℕ → Type 0 where
    root : {m : ℕ} → In m roots → Reach roots m
    step : {m d : ℕ} → Reach roots m → In d (deps m) → Reach roots d

  ordered_closed :
      (before ms : List ℕ) (m : ℕ)
      → IsOrdered deps before ms
      → In m ms
      → AllIn (deps m) (before ++ ms)
  unfolding elem
  ordered_closed before [] m h i = cc
  ordered_closed before (x ∷ ms) m (h, hs) i = elim (In-cons_cases m x ms i) [
    | inl e ↦ rw e (AllIn-append_right (deps x) before (x ∷ ms) h)
    | inr later ↦ rw append_assoc at (ordered_closed (before ++ x ∷ []) ms m hs later)
  ]

  -- Whatever is reached is sorted.
  reached_sorted :
      (roots ms : List ℕ) (m : ℕ) → IsOrdered deps [] ms → AllIn roots ms → Reach roots m → In m ms
  reached_sorted roots ms m o h (root i) = AllIn-In m roots ms h i
  reached_sorted roots ms m o h (step {m = p} {d} r i) =
      AllIn-In d (deps p) ms (ordered_closed [] ms p o (reached_sorted roots ms p o h r)) i

  module _ (roots : List ℕ) where
    abbrev AllReached : Walk → Type 0
    AllReached w = (a : ℕ) → In a w.sorted → Reach roots a

    abbrev Rule : (ℕ → Walk → Option Walk) → Type 0
    Rule call =
        (m : ℕ) (w w' : Walk) → AllReached w → Reach roots m → call m w ≡ some w' → AllReached w'

    each-reached :
        (call : ℕ → Walk → Option Walk)
        → Rule call
        → (ms : List ℕ) (w w' : Walk) → AllReached w
        → ((m : ℕ) → In m ms → Reach roots m)
        → each call ms w ≡ some w'
        → AllReached w'
    unfolding each
    each-reached call rule [] w w' s ab e = subst AllReached (some_cancel e) s
    each-reached call rule (m ∷ ms) w w' s ab e = elim (Option-cases (call m w)) [
      | inl stuck ↦ absurd (stuck_absurd (rw (stuck, each) at e))
      | inr (w1, e1) ↦
          each-reached call rule ms w1 w' (rule m w w1 s (ab m (In-head m ms)) e1)
            (λ x h. ab x (In-tail x m ms h)) (rw (e1, each) at e)
    ]

    emit-reached :
        (m : ℕ) (w : Walk)
        → AllReached w
        → Reach roots m
        → AllReached (record w { sorted = w.sorted ++ m ∷ [] })
    emit-reached m w s r a h = elim (Bool-cases (elem a w.sorted)) [
      | inl old ↦ s a old
      | inr new ↦ let e : a ≡ m = ground (arith, elem-concat a m w.sorted) in rw e r
    ]

    add-reached : (fuel : ℕ) → Rule (add deps fuel)
    unfolding add
    add-reached zero m w w' s r e = cc
    add-reached (suc fuel) m w w' s r e = elim (Bool-cases (elem m w.seen)) [
      | inl old ↦ subst AllReached (some_cancel (rw (old, add) at e)) s
      | inr new ↦ elim (Option-cases (each (add deps fuel) (deps m) (mark m w))) [
        | inl stuck ↦ absurd (stuck_absurd (rw (new, stuck, add) at e))
        | inr (w1, e1) ↦ subst AllReached (some_cancel (rw (new, e1, add) at e)) (
            emit-reached m w1
              (each-reached (add deps fuel) (add-reached fuel) (deps m) (mark m w) w1 s
                (λ d h. step r h) e1)
              r)
      ]
    ]

  -- For modules numbered below `n` whose dependencies are among them and have no cycle (each
  -- dependency is below its dependent in some rank), `TopologicalDeps` returns. In its result each
  -- module stands behind all its dependencies and stands once, and the modules of the result are
  -- exactly those that can be reached from the roots.
  pub topological_deps_correct :
      (n : ℕ) (roots : List ℕ) (rank : ℕ → ℕ)
      → ((m : ℕ) → m < n → AllBelow n (deps m))
      → AllBelow n roots
      → ((m d : ℕ) → In d (deps m) → rank d < rank m)
      → (w : Walk) × (topological_deps deps (suc n) roots ≡ some w)
        × IsOrdered deps [] w.sorted
        × IsUnique w.sorted
        × ((m : ℕ) → In m w.sorted ↔ Reach roots m)
  unfolding topological_deps elem
  topological_deps_correct n roots rank closed below acyclic =
      let (w, e) = topological_deps_returns deps n closed roots below in
      let (s, h) = topological deps rank acyclic (suc n) roots w e in
      (
        w,
        e,
        s.ordered,
        s.unique,
        λ m. (
          each-reached roots (add deps (suc n)) (add-reached roots (suc n)) roots start w
              (λ a i. cc) (λ x i. root i) e m,
          reached_sorted roots w.sorted m s.ordered h,
        ),
      )
