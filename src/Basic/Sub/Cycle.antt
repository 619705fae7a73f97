-- ===== src/Basic/Sub/Cycle.antt =====
-- basic/sub.go: `valMap.get` on a map with a cycle.
use pea_old.Prelude.{ℕ, zero, suc, none, some, ◌≡◌, refl, arith}
use pea_old.Basic.Sub.{ValMap, get}

-- A set of values that the slots lead from value to value within: it holds no end of a chain.
abbrev pub IsCyclic : (ℕ → ℕ) → ValMap → (ℕ → Type 0) → Type 0
IsCyclic num m C = (v : ℕ) → C v → (u : ℕ) × (m.slots (num v) ≡ some u) × C u

-- From a value whose chain has no end, `get` returns with no amount of fuel: it recurses forever.
pub get-IsCyclic :
    (num : ℕ → ℕ) (m : ValMap) (C : ℕ → Type 0)
    → IsCyclic num m C
    → (fuel v : ℕ) → C v
    → get fuel num v m ≡ none
unfolding get
get-IsCyclic num m C cyclic zero v c = refl
get-IsCyclic num m C cyclic (suc fuel) v c =
    let (u, e, d) = cyclic v c in let deeper = get-IsCyclic num m C cyclic fuel u d in ground arith
