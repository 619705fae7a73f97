-- ===== src/Mod/Examples.antt =====
-- Three modules: 2 needs 0 and 1, and 1 needs 0.
use pea_old.Prelude.{
  ℕ, zero, suc, ◌<◌, ◌≡◌, ◌↔◌, refl, List, [], ◌∷◌, some, In, IsUnique, arith, elem,
}
use pea_old.Mod.Topological.{Walk, topological_deps, add, each}
use pea_old.Mod.Topological.Returns.{AllBelow}
use pea_old.Mod.Topological.Order.{IsOrdered}
use pea_old.Mod.Topological.Correct.{Reach, topological_deps_correct}

unfoldable needs : ℕ → List ℕ
needs zero = []
needs (suc zero) = 0 ∷ []
needs (suc (suc zero)) = 0 ∷ 1 ∷ []
needs (suc (suc (suc m))) = []

needs-below : (m : ℕ) → m < 3 → AllBelow 3 (needs m)
unfolding needs
needs-below zero h = tt
needs-below (suc zero) h = ground arith
needs-below (suc (suc zero)) h = ground arith
needs-below (suc (suc (suc m))) h = tt

needs-acyclic : (m d : ℕ) → In d (needs m) → d < m
unfolding needs elem
needs-acyclic zero d h = cc
needs-acyclic (suc zero) d h = ground arith
needs-acyclic (suc (suc zero)) d h = ground arith
needs-acyclic (suc (suc (suc m))) d h = cc

topological_deps_correct_example :
    (w : Walk) × (topological_deps needs 4 (2 ∷ 1 ∷ []) ≡ some w)
    × IsOrdered needs [] w.sorted
    × IsUnique w.sorted
    × ((m : ℕ) → In m w.sorted ↔ Reach needs (2 ∷ 1 ∷ []) m)
topological_deps_correct_example =
    topological_deps_correct needs 3 (2 ∷ 1 ∷ []) (λ m. m) needs-below (ground arith) needs-acyclic

-- The modules in the order in which they are loaded.
loaded :
    topological_deps needs 4 (2 ∷ 1 ∷ [])
    ≡ some (record { seen = 1 ∷ 0 ∷ 2 ∷ []; sorted = 0 ∷ 1 ∷ 2 ∷ [] })
unfolding topological_deps add each needs elem
loaded = refl
