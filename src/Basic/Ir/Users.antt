-- ===== src/Basic/Ir/Users.antt =====
-- basic/basic.go: the lists of users and of predecessors as sets.
use pea_old.Prelude.{
  ℕ, Bool, not, ◌&&◌, ◌||◌, List, [], ◌∷◌, ◌≡◌, refl, ◌==◌, elem, elem-concat, arith,
}
use pea_old.Basic.Ir.{Heap, update, add_once, rm_all, add_user, rm_user}

pub elem-add_once : (a s : ℕ) (xs : List ℕ) → elem a (add_once s xs) ≡ (elem a xs || a == s)
unfolding add_once
elem-add_once a s xs = ground (arith, elem-concat a s xs)

pub elem-rm_all : (a s : ℕ) (xs : List ℕ) → elem a (rm_all s xs) ≡ (elem a xs && not (a == s))
unfolding rm_all elem
elem-rm_all a s [] = refl
elem-rm_all a s (x ∷ xs) = ground (arith, elem-rm_all a s xs)

-- Whether `t` is a user of `w`.
abbrev pub is_user : ℕ → ℕ → Heap → Bool
is_user t w h = elem t (h.nodes w).users

pub is_user-add_user :
    (t w v s : ℕ) (h : Heap)
    → is_user t w (add_user v s h) ≡ (is_user t w h || (w == v) && (t == s))
unfolding add_user update
is_user-add_user t w v s h = ground (arith, elem-add_once t s (h.nodes v).users)

pub is_user-rm_user :
    (t w v s : ℕ) (h : Heap)
    → is_user t w (rm_user v s h) ≡ (is_user t w h && not ((w == v) && (t == s)))
unfolding rm_user update
is_user-rm_user t w v s h = ground (arith, elem-rm_all t s (h.nodes v).users)

pub instr-add_user : (v s w : ℕ) (h : Heap) → ((add_user v s h).nodes w).instr ≡ (h.nodes w).instr
unfolding add_user update
instr-add_user v s w h = ground arith

pub instr-rm_user : (v s w : ℕ) (h : Heap) → ((rm_user v s h).nodes w).instr ≡ (h.nodes w).instr
unfolding rm_user update
instr-rm_user v s w h = ground arith
