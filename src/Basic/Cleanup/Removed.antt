-- ===== src/Basic/Cleanup/Removed.antt =====
-- basic/cleanup.go: `rmDeletes`.
use pea_old.Prelude.{
  ℕ, Bool, false, not, ◌&&◌, ◌||◌, List, [], ◌∷◌, ◌==◌, ◌≡◌, refl, ap, ◌∙◌, arith, elem, Bool-cases,
  inl, inr, if◌then◌else◌, IsUnique,
}
use pea_old.Basic.Ir.{Heap, update}
use pea_old.Basic.Cleanup.{keeps, kept, set_stmts, Body, keep_block, rm_deletes}

-- Whether one of the statements is kept.
unfoldable pub any_kept : Heap → List ℕ → Bool
any_kept h [] = false
any_kept h (s ∷ ss) = keeps h s || any_kept h ss

elem-kept : (h : Heap) (s : ℕ) (ss : List ℕ) → elem s (kept h ss) ≡ (elem s ss && keeps h s)
unfolding kept elem
elem-kept h s [] = refl
elem-kept h s (t ∷ ss) = elim (Bool-cases (s == t)) [
  | inl hit ↦ let q : s ≡ t = ground arith in ground (arith, elem-kept h s ss, ap (keeps h) q)
  | inr miss ↦ ground (arith, elem-kept h s ss)
]

-- A block stays when a statement of it does.
keep_block-bblks :
    (h : Heap) (b c : ℕ) (ss : List ℕ) (body : Body)
    → elem c (keep_block b (kept h ss) body).bblks
      ≡ (any_kept h ss && (c == b) || elem c body.bblks)
unfolding kept any_kept elem
keep_block-bblks h b c [] body = refl
keep_block-bblks h b c (s ∷ ss) body = elim (Bool-cases (keeps h s)) [
  | inl keep ↦ rw keep refl
  | inr rm ↦ rw rm (keep_block-bblks h b c ss body)
]

keep_block-heap : (b : ℕ) (ss : List ℕ) (body : Body) → (keep_block b ss body).heap ≡ body.heap
keep_block-heap b [] body = refl
keep_block-heap b (s ∷ ss) body = refl

set_stmts-stmts :
    (b c : ℕ) (ss : List ℕ) (h : Heap)
    → ((set_stmts b ss h).blocks c).stmts ≡ (if c == b then ss else (h.blocks c).stmts)
unfolding set_stmts update
set_stmts-stmts b c ss h = ground arith

any_kept-set_stmts :
    (b : ℕ) (rs ss : List ℕ) (h : Heap) → any_kept (set_stmts b rs h) ss ≡ any_kept h ss
unfolding any_kept set_stmts
any_kept-set_stmts b rs [] h = refl
any_kept-set_stmts b rs (s ∷ ss) h = ap (λ t. keeps h s || t) (any_kept-set_stmts b rs ss h)

kept-set_stmts : (b : ℕ) (rs ss : List ℕ) (h : Heap) → kept (set_stmts b rs h) ss ≡ kept h ss
unfolding kept set_stmts
kept-set_stmts b rs [] h = refl
kept-set_stmts b rs (s ∷ ss) h = ap (λ t. if keeps h s then s ∷ t else t) (kept-set_stmts b rs ss h)

rm_deletes-stmts :
    (bs : List ℕ) (h : Heap) (c : ℕ)
    → IsUnique bs
    → ((rm_deletes bs h).heap.blocks c).stmts
      ≡ (if elem c bs then kept h (h.blocks c).stmts else (h.blocks c).stmts)
unfolding rm_deletes elem
rm_deletes-stmts [] h c u = refl
rm_deletes-stmts (b ∷ bs) h c (once, u) =
    let ss = kept h (h.blocks b).stmts in
    let k = set_stmts b ss h in
    ap (λ g. (g.blocks c).stmts) (keep_block-heap b ss (rm_deletes bs k))
    ∙ rm_deletes-stmts bs k c u
    ∙ elim (Bool-cases (c == b)) [
      | inl hit ↦
          let q : c ≡ b = ground arith in
          ground (
            arith,
            set_stmts-stmts b c ss h,
            ap (λ t. elem t bs) q,
            ap (λ t. kept h (h.blocks t).stmts) q,
          )
      | inr miss ↦
          let same : (k.blocks c).stmts ≡ (h.blocks c).stmts =
            ground (arith, set_stmts-stmts b c ss h) in
          ground (arith, kept-set_stmts b ss (h.blocks c).stmts h, ap (kept k) same)
    ]

rm_deletes-bblks :
    (bs : List ℕ) (h : Heap) (c : ℕ)
    → IsUnique bs
    → elem c (rm_deletes bs h).bblks ≡ (elem c bs && any_kept h (h.blocks c).stmts)
unfolding rm_deletes elem
rm_deletes-bblks [] h c u = refl
rm_deletes-bblks (b ∷ bs) h c (once, u) =
    let ss = kept h (h.blocks b).stmts in
    let k = set_stmts b ss h in
    keep_block-bblks h b c (h.blocks b).stmts (rm_deletes bs k) ∙ elim (Bool-cases (c == b)) [
      | inl hit ↦
          let q : c ≡ b = ground arith in
          ground (
            arith,
            rm_deletes-bblks bs k c u,
            ap (λ t. elem t bs) q,
            ap (λ t. any_kept h (h.blocks t).stmts) q,
          )
      | inr miss ↦
          let same : (k.blocks c).stmts ≡ (h.blocks c).stmts =
            ground (arith, set_stmts-stmts b c ss h) in
          ground (
            arith,
            rm_deletes-bblks bs k c u,
            any_kept-set_stmts b ss (h.blocks c).stmts h,
            ap (any_kept k) same,
          )
    ]

-- For blocks that each stand once, `rmDeletes` keeps exactly the blocks with a statement that is
-- neither deleted nor a comment; in each of the given blocks exactly these statements are left, and
-- other blocks have the statements that they had.
pub rm_deletes_lem :
    (bs : List ℕ) (h : Heap)
    → IsUnique bs
    → ((b : ℕ) → elem b (rm_deletes bs h).bblks ≡ (elem b bs && any_kept h (h.blocks b).stmts))
      × ((b s : ℕ)
          → elem s ((rm_deletes bs h).heap.blocks b).stmts
            ≡ (elem s (h.blocks b).stmts && (not (elem b bs) || keeps h s)))
rm_deletes_lem bs h u = (
  λ b. rm_deletes-bblks bs h b u,
  λ b s. ap (elem s) (rm_deletes-stmts bs h b u) ∙ elim (Bool-cases (elem b bs)) [
    | inl given ↦ rw given (elem-kept h s (h.blocks b).stmts)
    | inr other ↦ rw other (ground arith)
  ],
)
