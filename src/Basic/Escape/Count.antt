-- ===== src/Basic/Escape/Count.antt =====
-- basic/escape.go: how many allocs of a function are not on the stack.
use pea_old.Prelude.{
  ℕ, ◌+◌, ◌<◌, ◌≤◌, Bool, true, false, List, [], ◌∷◌, ◌++◌, ◌==◌, ◌≡◌, refl, arith, In, elem,
  elem-append, ◌⊎◌, Bool-cases, inl, inr, if◌then◌else◌,
}
use pea_old.Basic.Ir.{Instr, comment, alloc, Heap, Block, set_node, update}
use pea_old.Basic.Types.{Ty}
use pea_old.Basic.Escape.{on_stack, set_stack}

-- Whether the statement is an alloc that is not on the stack.
unfoldable pub off_stack : Instr → ℕ
off_stack (alloc false var) = 1
off_stack other = 0

-- How many of the statements are.
unfoldable pub count : Heap → List ℕ → ℕ
count h [] = 0
count h (s ∷ ss) = off_stack (h.nodes s).instr + count h ss

-- The statements of blocks.
unfoldable pub stmts_of : (ℕ → Block) → List ℕ → List ℕ
stmts_of blocks [] = []
stmts_of blocks (b ∷ bs) = (blocks b).stmts ++ stmts_of blocks bs

pub In-append_cases : (a : ℕ) (xs ys : List ℕ) → In a (xs ++ ys) → In a xs ⊎ In a ys
In-append_cases a xs ys i = elim (Bool-cases (elem a xs)) [
  | inl left ↦ inl left
  | inr n ↦ inr (ground (arith, elem-append a xs ys))
]

pub In-append_left : (a : ℕ) (xs ys : List ℕ) → In a xs → In a (xs ++ ys)
In-append_left a xs ys i = ground (arith, elem-append a xs ys)

pub In-append_right : (a : ℕ) (xs ys : List ℕ) → In a ys → In a (xs ++ ys)
In-append_right a xs ys i = ground (arith, elem-append a xs ys)

module _ (ty : ℕ → Ty) (has_ret : ℕ → Bool) where
  off_stack-on_stack : (i : Instr) → off_stack (on_stack ty has_ret i) ≡ 0
  unfolding off_stack
  off_stack-on_stack (alloc true var) = refl
  off_stack-on_stack (alloc false var) = refl
  off_stack-on_stack comment = refl
  off_stack-on_stack other = refl

  pub instr-set_stack :
      (s t : ℕ) (h : Heap)
      → ((set_stack ty has_ret s h).nodes t).instr
        ≡ (if t == s then on_stack ty has_ret (h.nodes t).instr else (h.nodes t).instr)
  unfolding set_stack set_node update
  instr-set_stack s t h = elim (Bool-cases (t == s)) [
    | inl hit ↦ let same : t ≡ s = ground arith in rw (hit, same) refl
    | inr miss ↦ rw miss refl
  ]

  pub typ-set_stack :
      (s t : ℕ) (h : Heap) → ((set_stack ty has_ret s h).nodes t).typ ≡ (h.nodes t).typ
  unfolding set_stack set_node update
  typ-set_stack s t h = ground arith

  pub off_stack-set_stack :
      (s t : ℕ) (h : Heap)
      → off_stack ((set_stack ty has_ret s h).nodes t).instr
        ≡ (if t == s then 0 else off_stack (h.nodes t).instr)
  off_stack-set_stack s t h = rw (instr-set_stack s t h) (elim (Bool-cases (t == s)) [
    | inl hit ↦ rw hit (off_stack-on_stack (h.nodes t).instr)
    | inr miss ↦ rw miss refl
  ])

  pub count-set_stack_le :
      (s : ℕ) (xs : List ℕ) (h : Heap) → count (set_stack ty has_ret s h) xs ≤ count h xs
  unfolding count
  count-set_stack_le s [] h = omega arith
  count-set_stack_le s (x ∷ xs) h =
      ground (arith, count-set_stack_le s xs h, off_stack-set_stack s x h)

  pub count-set_stack_lt :
      (s : ℕ) (xs : List ℕ) (h : Heap)
      → In s xs
      → off_stack (h.nodes s).instr ≡ 1
      → count (set_stack ty has_ret s h) xs < count h xs
  unfolding count elem
  count-set_stack_lt s [] h i one = cc
  count-set_stack_lt s (x ∷ xs) h i one = elim (Bool-cases (x == s)) [
    | inl hit ↦
        let same : x ≡ s = ground arith in
        rw same (ground (arith, count-set_stack_le s xs h, off_stack-set_stack s s h))
    | inr miss ↦
        ground (arith, count-set_stack_lt s xs h (ground arith) one, off_stack-set_stack s x h)
  ]
