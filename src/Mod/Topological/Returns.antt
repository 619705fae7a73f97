-- ===== src/Mod/Topological/Returns.antt =====
-- mod/mod.go: the recursion of `add` in `TopologicalDeps`.
use pea_old.Prelude.{
  ℕ, zero, suc, ◌≤◌, ◌<◌, ◌≡◌, refl, false, List, [], ◌∷◌, ◌++◌, Option, some, elem, if◌then◌else◌,
  arith, Bool-cases, inl, inr,
}
use pea_old.Mod.Topological.{Walk, mark, each, add, topological_deps, start}

-- How many of the modules below `n` are not seen.
unseen : ℕ → List ℕ → ℕ
unseen zero seen = 0
unseen (suc n) seen = if elem n seen then unseen n seen else suc (unseen n seen)

abbrev pub AllBelow : ℕ → List ℕ → Type 0
AllBelow n [] = Unit
AllBelow n (m ∷ ms) = (m < n) × AllBelow n ms

unseen-mark_ge : (n m : ℕ) (seen : List ℕ) → n ≤ m → unseen n (m ∷ seen) ≡ unseen n seen
unfolding unseen elem
unseen-mark_ge zero m seen h = refl
unseen-mark_ge (suc n) m seen h = ground (arith, unseen-mark_ge n m seen)

unseen-mark :
    (n m : ℕ) (seen : List ℕ)
    → m < n
    → elem m seen ≡ false
    → suc (unseen n (m ∷ seen)) ≡ unseen n seen
unfolding unseen elem
unseen-mark zero m seen h e = absurd (omega arith)
unseen-mark (suc n) m seen h e = ground (arith, unseen-mark n m seen, unseen-mark_ge n m seen)

unseen-nil : (n : ℕ) → unseen n [] ≡ n
unfolding unseen elem
unseen-nil zero = refl
unseen-nil (suc n) = omega (arith, unseen-nil n)

module _ (deps : ℕ → List ℕ) (n : ℕ) (closed : (m : ℕ) → m < n → AllBelow n (deps m)) where
  -- A call returns, and the modules not seen get no more.
  abbrev Ends : Walk → Option Walk → Type 0
  Ends w o = (w' : Walk) × (o ≡ some w') × (unseen n w'.seen ≤ unseen n w.seen)

  each-Ends :
      (call : ℕ → Walk → Option Walk) (bound : ℕ)
      → ((m : ℕ) (w : Walk) → m < n → unseen n w.seen < bound → Ends w (call m w))
      → (ms : List ℕ) (w : Walk) → AllBelow n ms
      → unseen n w.seen < bound
      → Ends w (each call ms w)
  unfolding each
  each-Ends call bound ends [] w h b = (w, refl, omega arith)
  each-Ends call bound ends (m ∷ ms) w (h, hs) b =
      let (w1, e1, u1) = ends m w h b in
      let (w2, e2, u2) = each-Ends call bound ends ms w1 hs (omega arith) in
      (w2, rw (e1, each) e2, omega arith)

  add-Ends : (fuel m : ℕ) (w : Walk) → m < n → unseen n w.seen < fuel → Ends w (add deps fuel m w)
  unfolding add
  add-Ends zero m w h b = absurd (omega arith)
  add-Ends (suc fuel) m w h b = elim (Bool-cases (elem m w.seen)) [
    | inl old ↦ (w, rw old, omega arith)
    | inr new ↦
        let less = unseen-mark n m w.seen h new in
        let (w', e, u) =
          each-Ends (add deps fuel) fuel (add-Ends fuel) (deps m) (mark m w) (closed m h)
            (omega arith) in
        (record w' { sorted = w'.sorted ++ m ∷ [] }, rw (new, e), omega arith)
  ]

  -- With n modules, all dependencies among them, n calls deep are enough: `TopologicalDeps`
  -- returns for every list of these modules.
  pub topological_deps_returns :
      (roots : List ℕ)
      → AllBelow n roots
      → (w : Walk) × (topological_deps deps (suc n) roots ≡ some w)
  unfolding topological_deps
  topological_deps_returns roots h =
      let (w, e, u) =
        each-Ends (add deps (suc n)) (suc n) (add-Ends (suc n)) roots start h
          (omega (arith, unseen-nil n)) in
      (w, e)
