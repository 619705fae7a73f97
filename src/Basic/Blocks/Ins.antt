-- ===== src/Basic/Blocks/Ins.antt =====
-- basic/sub.go: the loops of `subBBlks` over the successors of a block.
use pea_old.Prelude.{ℕ, Bool, not, ◌&&◌, ◌||◌, List, [], ◌∷◌, ◌≡◌, refl, ◌∙◌, ◌==◌, elem, arith}
use pea_old.Basic.Ir.{Heap, update, add_in, rm_in}
use pea_old.Basic.Ir.Users.{elem-add_once, elem-rm_all}
use pea_old.Basic.Blocks.{rm_ins, add_ins, block_num}

-- Whether `b` is a predecessor of `o`.
abbrev pub is_in : ℕ → ℕ → Heap → Bool
is_in b o h = elem b (h.blocks o).ins

is_in-add_in :
    (c p o b : ℕ) (h : Heap) → is_in c p (add_in o b h) ≡ (is_in c p h || (p == o) && (c == b))
unfolding add_in update
is_in-add_in c p o b h = ground (arith, elem-add_once c b (h.blocks o).ins)

is_in-rm_in :
    (c p o b : ℕ) (h : Heap) → is_in c p (rm_in o b h) ≡ (is_in c p h && not ((p == o) && (c == b)))
unfolding rm_in update
is_in-rm_in c p o b h = ground (arith, elem-rm_all c b (h.blocks o).ins)

pub is_in-add_ins :
    (c p b : ℕ) (os : List ℕ) (h : Heap)
    → is_in c p (add_ins b os h) ≡ (is_in c p h || elem p os && (c == b))
unfolding add_ins elem
is_in-add_ins c p b [] h = ground arith
is_in-add_ins c p b (o ∷ os) h =
    ground (arith, is_in-add_ins c p b os (add_in o b h), is_in-add_in c p o b h)

pub is_in-rm_ins :
    (c p b : ℕ) (os : List ℕ) (h : Heap)
    → is_in c p (rm_ins b os h) ≡ (is_in c p h && not (elem p os && (c == b)))
unfolding rm_ins elem
is_in-rm_ins c p b [] h = ground arith
is_in-rm_ins c p b (o ∷ os) h =
    ground (arith, is_in-rm_ins c p b os (rm_in o b h), is_in-rm_in c p o b h)

-- What a change of the predecessors and of one statement leaves.
pub record IsSame (h h' : Heap) : Type 0 where
  pub stmts : (b : ℕ) → (h'.blocks b).stmts ≡ (h.blocks b).stmts
  pub nums : (b : ℕ) → block_num h' b ≡ block_num h b
  pub instrs : (s : ℕ) → (h'.nodes s).instr ≡ (h.nodes s).instr

add_in-IsSame : (o b : ℕ) (h : Heap) → IsSame h (add_in o b h)
unfolding add_in update
add_in-IsSame o b h = record {
  stmts = λ c. ground arith;
  nums = λ c. ground arith;
  instrs = λ s. refl;
}

rm_in-IsSame : (o b : ℕ) (h : Heap) → IsSame h (rm_in o b h)
unfolding rm_in update
rm_in-IsSame o b h = record {
  stmts = λ c. ground arith;
  nums = λ c. ground arith;
  instrs = λ s. refl;
}

IsSame-trans : (f g h : Heap) → IsSame f g → IsSame g h → IsSame f h
IsSame-trans f g h p q = record {
  stmts = λ b. q.stmts b ∙ p.stmts b;
  nums = λ b. q.nums b ∙ p.nums b;
  instrs = λ s. q.instrs s ∙ p.instrs s;
}

pub add_ins-IsSame : (b : ℕ) (os : List ℕ) (h : Heap) → IsSame h (add_ins b os h)
unfolding add_ins
add_ins-IsSame b [] h = record { stmts = λ c. refl; nums = λ c. refl; instrs = λ s. refl }
add_ins-IsSame b (o ∷ os) h =
    IsSame-trans h (add_in o b h) (add_ins b os (add_in o b h)) (add_in-IsSame o b h)
      (add_ins-IsSame b os (add_in o b h))

pub rm_ins-IsSame : (b : ℕ) (os : List ℕ) (h : Heap) → IsSame h (rm_ins b os h)
unfolding rm_ins
rm_ins-IsSame b [] h = record { stmts = λ c. refl; nums = λ c. refl; instrs = λ s. refl }
rm_ins-IsSame b (o ∷ os) h =
    IsSame-trans h (rm_in o b h) (rm_ins b os (rm_in o b h)) (rm_in-IsSame o b h)
      (rm_ins-IsSame b os (rm_in o b h))

pub add_ins-nodes : (b : ℕ) (os : List ℕ) (h : Heap) → (add_ins b os h).nodes ≡ h.nodes
unfolding add_ins add_in
add_ins-nodes b [] h = refl
add_ins-nodes b (o ∷ os) h = add_ins-nodes b os (add_in o b h)
