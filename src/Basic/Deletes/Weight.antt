-- ===== src/Basic/Deletes/Weight.antt =====
-- basic/cleanup.go: the work that is left to `propagateDeletes`.
use pea_old.Prelude.{
  ℕ, zero, suc, ◌+◌, ◌≤◌, ◌<◌, false, List, [], ◌∷◌, length, ◌==◌, ◌≡◌, refl, arith, Bool-cases,
  inl, inr, if◌then◌else◌,
}
use pea_old.Basic.Ir.{Heap, update, rm_all, rm_user}
use pea_old.Basic.Deletes.{delete, deleted, Work, delete_users, delete_value_and_users}

abbrev pub cost : Heap → ℕ → ℕ
cost h v = if deleted h v then 0 else suc (length (h.nodes v).users)

unfoldable pub weight : ℕ → Heap → ℕ
weight zero h = 0
weight (suc n) h = weight n h + cost h n

pub weight-le : (n : ℕ) (h k : Heap) → ((v : ℕ) → cost k v ≤ cost h v) → weight n k ≤ weight n h
unfolding weight
weight-le zero h k le = omega arith
weight-le (suc n) h k le = omega (arith, weight-le n h k le, le n)

pub weight-drop :
    (n v : ℕ) (h k : Heap)
    → v < n
    → ((x : ℕ) → cost k x ≤ cost h x)
    → cost k v ≡ 0
    → weight n k + cost h v ≤ weight n h
unfolding weight
weight-drop zero v h k small le none_left = absurd (omega arith)
weight-drop (suc n) v h k small le none_left = elim (Bool-cases (v == n)) [
  | inl hit ↦
      let q : v ≡ n = ground arith in rw q (omega (arith, weight-le n h k le, rw q at none_left))
  | inr miss ↦
      let less : v < n = ground arith in omega (arith, weight-drop n v h k less le none_left, le n)
]

cost-delete : (s v : ℕ) (h : Heap) → cost (delete s h) v ≤ cost h v
unfolding delete update
cost-delete s v h = ground arith

cost-delete_users :
    (us : List ℕ) (v : ℕ) (w : Work) → cost (delete_users us w).heap v ≤ cost w.heap v
unfolding delete_users
cost-delete_users [] v w = omega arith
cost-delete_users (u ∷ us) v w = omega (
  arith,
  cost-delete_users us v (record w { ds = u ∷ w.ds; heap = delete u w.heap }),
  cost-delete u v w.heap,
)

length-rm_all : (s : ℕ) (xs : List ℕ) → length (rm_all s xs) ≤ length xs
unfolding rm_all
length-rm_all s [] = omega arith
length-rm_all s (x ∷ xs) = ground (arith, length-rm_all s xs)

pub cost-rm_user : (v s x : ℕ) (h : Heap) → cost (rm_user v s h) x ≤ cost h x
unfolding rm_user update
cost-rm_user v s x h = ground (arith, length-rm_all s (h.nodes v).users)

delete_users-length :
    (us : List ℕ) (w : Work) → length (delete_users us w).ds ≡ length us + length w.ds
unfolding delete_users
delete_users-length [] w = omega arith
delete_users-length (u ∷ us) w =
    omega (arith, delete_users-length us (record w { ds = u ∷ w.ds; heap = delete u w.heap }))

deleted_delete_self : (v : ℕ) (h : Heap) → cost (delete v h) v ≡ 0
unfolding delete update
deleted_delete_self v h = ground arith

-- What is pushed with a value is no more than what the value weighed.
pub delete_value_and_users-weight :
    (n v : ℕ) (w : Work)
    → v < n
    → deleted w.heap v ≡ false
    → length (delete_value_and_users v w).ds + weight n (delete_value_and_users v w).heap
      ≤ length w.ds + weight n w.heap
unfolding delete_value_and_users
delete_value_and_users-weight n v w small left =
    let w1 : Work = record w { ds = v ∷ w.ds; heap = delete v w.heap } in
    let us = (w.heap.nodes v).users in
    let full : cost w.heap v ≡ suc (length us) = rw left refl in
    let drop =
      weight-drop n v w.heap (delete_users us w1).heap small
        (λ x. omega (arith, cost-delete_users us x w1, cost-delete v x w.heap))
        (omega (arith, cost-delete_users us v w1, deleted_delete_self v w.heap)) in
    omega (arith, drop, full, delete_users-length us w1)
