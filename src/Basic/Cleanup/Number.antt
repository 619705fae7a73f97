-- ===== src/Basic/Cleanup/Number.antt =====
-- basic/cleanup.go: the inner loop of `renumber`, over statements.
use pea_old.Prelude.{
  ℕ, zero, suc, ◌+◌, true, false, List, [], ◌∷◌, ◌++◌, map, length, ◌==◌, ◌≡◌, refl, ap, ◌∙◌, arith,
  elem, Bool-cases, inl, inr, if◌then◌else◌, IsUnique,
}
use pea_old.Basic.Ir.{is_val, Heap, update}
use pea_old.Basic.Sub.{num_of}
use pea_old.Basic.Cleanup.{Count, set_num, number, number_stmts}

-- The statements of some blocks in order, and the values among some statements.
unfoldable pub all_stmts : Heap → List ℕ → List ℕ
all_stmts h [] = []
all_stmts h (b ∷ bs) = (h.blocks b).stmts ++ all_stmts h bs

unfoldable pub vals : Heap → List ℕ → List ℕ
vals h [] = []
vals h (s ∷ ss) = let rest = vals h ss in if is_val (h.nodes s).instr then s ∷ rest else rest

-- So many numbers from `i` on.
unfoldable pub upto : ℕ → ℕ → List ℕ
upto i zero = []
upto i (suc n) = i ∷ upto (suc i) n

pub all_stmts_cong :
    (h k : Heap)
    → ((b : ℕ) → (k.blocks b).stmts ≡ (h.blocks b).stmts)
    → (bs : List ℕ) → all_stmts k bs ≡ all_stmts h bs
unfolding all_stmts
all_stmts_cong h k same [] = refl
all_stmts_cong h k same (b ∷ bs) = rw (same b, all_stmts_cong h k same bs) refl

pub vals_cong :
    (h k : Heap)
    → ((s : ℕ) → (k.nodes s).instr ≡ (h.nodes s).instr)
    → (ss : List ℕ) → vals k ss ≡ vals h ss
unfolding vals
vals_cong h k same [] = refl
vals_cong h k same (s ∷ ss) = rw (same s, vals_cong h k same ss) refl

vals-In : (h : Heap) (s : ℕ) (ss : List ℕ) → elem s ss ≡ false → elem s (vals h ss) ≡ false
unfolding vals elem
vals-In h s [] e = refl
vals-In h s (x ∷ ss) e = ground (arith, vals-In h s ss)

pub number-instr :
    (s t : ℕ) (w : Count) → ((number s w).heap.nodes t).instr ≡ (w.heap.nodes t).instr
unfolding set_num update
number-instr s t w = ground arith

number-num : (s t : ℕ) (w : Count) → (t == s) ≡ false → num_of (number s w).heap t ≡ num_of w.heap t
unfolding set_num update
number-num s t w h = ground arith

pub number-blocks : (s : ℕ) (w : Count) → (number s w).heap.blocks ≡ w.heap.blocks
unfolding set_num
number-blocks s w = elim (Bool-cases (is_val (w.heap.nodes s).instr)) [
  | inl yes_val ↦ rw yes_val refl
  | inr not_val ↦ rw not_val refl
]

pub number_stmts-instr :
    (ss : List ℕ) (t : ℕ) (w : Count)
    → ((number_stmts ss w).heap.nodes t).instr ≡ (w.heap.nodes t).instr
unfolding number_stmts
number_stmts-instr [] t w = refl
number_stmts-instr (s ∷ ss) t w = number_stmts-instr ss t (number s w) ∙ number-instr s t w

number_stmts-num :
    (ss : List ℕ) (t : ℕ) (w : Count)
    → elem t ss ≡ false
    → num_of (number_stmts ss w).heap t ≡ num_of w.heap t
unfolding number_stmts elem
number_stmts-num [] t w h = refl
number_stmts-num (s ∷ ss) t w h =
    number_stmts-num ss t (number s w) (ground arith) ∙ number-num s t w (ground arith)

pub number_stmts-blocks :
    (ss : List ℕ) (w : Count) → (number_stmts ss w).heap.blocks ≡ w.heap.blocks
unfolding number_stmts
number_stmts-blocks [] w = refl
number_stmts-blocks (s ∷ ss) w = number_stmts-blocks ss (number s w) ∙ number-blocks s w

number-val :
    (s : ℕ) (w : Count)
    → is_val (w.heap.nodes s).instr ≡ true
    → ((number s w).next ≡ suc w.next) × (num_of (number s w).heap s ≡ w.next)
unfolding set_num update
number-val s w h = (ground arith, ground arith)

pub upto-cons :
    (f : ℕ → ℕ) (s i : ℕ) (rest : List ℕ)
    → f s ≡ i
    → map f rest ≡ upto (suc i) (length rest)
    → map f (s ∷ rest) ≡ upto i (length (s ∷ rest))
unfolding upto
upto-cons f s i rest e es = rw (e, es) refl

-- The values among statements that each stand once get the numbers that follow.
pub number_stmts_lem :
    (ss : List ℕ) (w : Count)
    → IsUnique ss
    → (map (num_of (number_stmts ss w).heap) (vals w.heap ss)
        ≡ upto w.next (length (vals w.heap ss)))
      × ((number_stmts ss w).next ≡ w.next + length (vals w.heap ss))
unfolding number_stmts vals upto
number_stmts_lem [] w u = (refl, omega arith)
number_stmts_lem (s ∷ ss) w (once, u) =
    let (values, next) = number_stmts_lem ss (number s w) u in
    let same : vals (number s w).heap ss ≡ vals w.heap ss =
      vals_cong w.heap (number s w).heap (λ t. number-instr s t w) ss in
    let kept : num_of (number_stmts ss (number s w)).heap s ≡ num_of (number s w).heap s =
      number_stmts-num ss s (number s w) once in
    elim (Bool-cases (is_val (w.heap.nodes s).instr)) [
      | inl yes_val ↦
          let first = number-val s w yes_val in
          let v : vals w.heap (s ∷ ss) ≡ s ∷ vals w.heap ss = rw (yes_val, vals) refl in
          let below = rw (same, first.0) at values in
          (
            rw v (
                upto-cons (num_of (number_stmts ss (number s w)).heap) s w.next (vals w.heap ss)
                  (kept ∙ first.1) below),
            rw v (omega (arith, next, first.0, ap length same)),
          )
      | inr not_val ↦
          let v : vals w.heap (s ∷ ss) ≡ vals w.heap ss = rw (not_val, vals) refl in
          let pass : number s w ≡ w = rw not_val refl in
          (
            rw v (rw (same, ap (λ c. c.next) pass) at values),
            rw v (omega (arith, next, ap (λ c. c.next) pass, ap length same)),
          )
    ]
