-- ===== src/Mod/Topological.antt =====
-- `TopologicalDeps` of mod/mod.go. A `*Mod` is a number, and `deps m` are the modules of m.Deps.
pub mod Returns
pub mod Order
pub mod Correct
use pea_old.Prelude.{
  ℕ, zero, suc, ◌+◌, Bool, List, [], ◌∷◌, ◌++◌, Option, none, some, elem, if◌then◌else◌,
}

-- The map `seen`, by the modules that it holds, and the slice `sorted`.
pub record Walk : Type 0 where
  pub seen : List ℕ
  pub sorted : List ℕ

abbrev pub mark : ℕ → Walk → Walk
mark m w = record w { seen = m ∷ w.seen }

abbrev pub emit : ℕ → Option Walk → Option Walk
emit m none = none
emit m (some w) = some (record w { sorted = w.sorted ++ m ∷ [] })

-- A loop of calls; `none` means that the fuel of a call ran out.
unfoldable pub each : (ℕ → Walk → Option Walk) → List ℕ → Walk → Option Walk
each call [] w = some w
each call (m ∷ ms) w = elim (call m w) [ none ↦ none | some w' ↦ each call ms w' ]

abbrev pub start : Walk
start = record { seen = []; sorted = [] }

module _ (deps : ℕ → List ℕ) where
  -- The closure `add`.
  unfoldable pub add : ℕ → ℕ → Walk → Option Walk
  add zero m w = none
  add (suc fuel) m w =
      let visit = emit m (each (add fuel) (deps m) (mark m w)) in
      if elem m w.seen then some w else visit

  unfoldable pub topological_deps : ℕ → List ℕ → Option Walk
  topological_deps fuel roots = each (add fuel) roots start
