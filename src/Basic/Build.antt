-- ===== src/Basic/Build.antt =====
-- basic/build.go: `addStmt`, which puts a statement at the end of a block. `none` is the panic.
use pea_old.Prelude.{
  ℕ, Bool, true, false, not, ◌&&◌, ◌||◌, List, [], ◌∷◌, ◌++◌, Option, none, some, ◌==◌, ◌≡◌, ◌⊎◌,
  refl, sym, ap, ◌∙◌, arith, some_cancel, elem, Bool-cases, inl, inr, if◌then◌else◌,
}
use pea_old.Basic.Ir.{Instr, is_term, term_out, uses, Heap, set_block, set_node, update, add_user}
use pea_old.Basic.Ir.Users.{is_user, is_user-add_user, instr-add_user}
use pea_old.Basic.Sub.Stmts.{IsLinked}
use pea_old.Basic.Blocks.{last, last_stmt, add_ins}
use pea_old.Basic.Blocks.Ins.{is_in, is_in-add_ins, add_ins-nodes, add_ins-IsSame}

-- Whether a block ends in a terminal statement that is not deleted.
abbrev pub is_closed : Heap → Option ℕ → Bool
is_closed h none = false
is_closed h (some t) = is_term (h.nodes t).instr && not (h.nodes t).del

abbrev pub append_stmt : ℕ → ℕ → Heap → Heap
append_stmt b s h = let x = h.blocks b in set_block h b (record x { stmts = x.stmts ++ s ∷ [] })

unfoldable pub add_users : ℕ → List ℕ → Heap → Heap
add_users s [] h = h
add_users s (v ∷ vs) h = add_users s vs (add_user v s h)

-- `addStmt`, of a statement that the heap holds. `term_out` is empty unless the statement is a `Term`.
unfoldable pub add_stmt : ℕ → ℕ → Heap → Option Heap
unfolding set_block
add_stmt b s h =
    let i = (h.nodes s).instr in
    let done = some (add_ins b (term_out i) (add_users s (uses i) (append_stmt b s h))) in
    if is_closed h (last_stmt h b) then none else done

pub is_user-add_users :
    (t w s : ℕ) (vs : List ℕ) (h : Heap)
    → is_user t w (add_users s vs h) ≡ (is_user t w h || elem w vs && (t == s))
unfolding add_users elem
is_user-add_users t w s [] h = ground arith
is_user-add_users t w s (v ∷ vs) h =
    ground (arith, is_user-add_users t w s vs (add_user v s h), is_user-add_user t w v s h)

pub instr-add_users :
    (t s : ℕ) (vs : List ℕ) (h : Heap) → ((add_users s vs h).nodes t).instr ≡ (h.nodes t).instr
unfolding add_users
instr-add_users t s [] h = refl
instr-add_users t s (v ∷ vs) h = instr-add_users t s vs (add_user v s h) ∙ instr-add_user v s t h

true_not_false : true ≡ false → ⊥
true_not_false e = cc

last-append : (xs : List ℕ) (t : ℕ) → last (xs ++ t ∷ []) ≡ some t
unfolding last
last-append [] t = refl
last-append (x ∷ []) t = refl
last-append (x ∷ y ∷ xs) t = last-append (y ∷ xs) t

last-before : (xs : List ℕ) (t : ℕ) → last xs ≡ some t → (before : List ℕ) × (xs ≡ before ++ t ∷ [])
unfolding last
last-before [] t e = cc
last-before (x ∷ []) t e = ([], rw (some_cancel e) refl)
last-before (x ∷ y ∷ xs) t e =
    let (before, same) = last-before (y ∷ xs) t e in (x ∷ before, ap (λ l. x ∷ l) same)

blocks-add_users : (s : ℕ) (vs : List ℕ) (h : Heap) → (add_users s vs h).blocks ≡ h.blocks
unfolding add_users add_user set_node
blocks-add_users s [] h = refl
blocks-add_users s (v ∷ vs) h = blocks-add_users s vs (add_user v s h)

-- The block ends in a terminal statement that is not deleted.
pub data IsClosed (h : Heap) (b : ℕ) : Type 0 where
  ends_in :
      (before : List ℕ) (t : ℕ)
      → (h.blocks b).stmts ≡ before ++ t ∷ []
      → is_term (h.nodes t).instr ≡ true
      → (h.nodes t).del ≡ false
      → IsClosed h b

-- The statement `s` is at the end of the block, which is a predecessor of what `s` goes to, and `s`
-- and the live statements are users of exactly the values that they use.
pub record IsAppended (live : ℕ → Type 0) (b s : ℕ) (h h' : Heap) : Type 0 where
  pub stmts :
      (c : ℕ)
      → (h'.blocks c).stmts ≡ (if c == b then (h.blocks b).stmts ++ s ∷ [] else (h.blocks c).stmts)
  pub ins :
      (c o : ℕ) → is_in c o h' ≡ (is_in c o h || elem o (term_out (h.nodes s).instr) && (c == b))
  pub instrs : (t : ℕ) → (h'.nodes t).instr ≡ (h.nodes t).instr
  pub linked : IsLinked (λ t. live t ⊎ (t ≡ s)) h'

IsClosed-is_closed : (h : Heap) (b : ℕ) → IsClosed h b → is_closed h (last_stmt h b) ≡ true
IsClosed-is_closed h b (ends_in before t e term live) = rw (e, last-append before t) (ground arith)

is_closed-IsClosed :
    (h : Heap) (b : ℕ) (o : Option ℕ) → last_stmt h b ≡ o → is_closed h o ≡ true → IsClosed h b
is_closed-IsClosed h b none e closed = cc
is_closed-IsClosed h b (some t) e closed =
    let (before, same) = last-before (h.blocks b).stmts t e in
    ends_in before t same (ground arith) (ground arith)

module _ (live : ℕ → Type 0) (b s : ℕ) (h : Heap) (linked : IsLinked live h) (fresh : live s → ⊥)
    (unused : (w : ℕ) → is_user s w h ≡ false) where
  abbrev new : Instr
  new = (h.nodes s).instr

  abbrev users_added : Heap
  users_added = add_users s (uses new) (append_stmt b s h)

  abbrev result : Heap
  result = add_ins b (term_out new) users_added

  stmts_after :
      (c : ℕ)
      → (result.blocks c).stmts
        ≡ (if c == b then (h.blocks b).stmts ++ s ∷ [] else (h.blocks c).stmts)
  unfolding set_block update
  stmts_after c =
      (add_ins-IsSame b (term_out new) users_added).stmts c
      ∙ ap (λ f. (f c).stmts) (blocks-add_users s (uses new) (append_stmt b s h))
      ∙ ground arith

  ins_after : (c o : ℕ) → is_in c o result ≡ (is_in c o h || elem o (term_out new) && (c == b))
  unfolding set_block update
  ins_after c o = ground (
    arith,
    is_in-add_ins c o b (term_out new) users_added,
    ap (λ f. elem c (f o).ins) (blocks-add_users s (uses new) (append_stmt b s h)),
  )

  users_after : (t w : ℕ) → is_user t w result ≡ (is_user t w h || elem w (uses new) && (t == s))
  unfolding set_block
  users_after t w =
      ap (λ f. elem t (f w).users) (add_ins-nodes b (term_out new) users_added)
      ∙ is_user-add_users t w s (uses new) (append_stmt b s h)

  instr_after : (t : ℕ) → (result.nodes t).instr ≡ (h.nodes t).instr
  unfolding set_block
  instr_after t =
      ap (λ f. (f t).instr) (add_ins-nodes b (term_out new) users_added)
      ∙ instr-add_users t s (uses new) (append_stmt b s h)

  IsLinked-after : IsLinked (λ t. live t ⊎ (t ≡ s)) result
  IsLinked-after t w l = elim l [
    | inl before ↦ elim (Bool-cases (t == s)) [
      | inl hit ↦ let q : t ≡ s = ground arith in absurd (fresh (rw q at before))
      | inr miss ↦ rw (instr_after t) (ground (arith, users_after t w, linked t w before))
    ]
    | inr same ↦ rw (instr_after t, same) (ground (arith, users_after s w, unused w))
  ]

  -- For a statement that is not live and a user of nothing yet, where each live statement is a user of
  -- exactly the values it uses: `addStmt` panics where the block ends in a terminal statement that is
  -- not deleted, and only there. Else the statement is put at the end of the block and no other block
  -- gets other statements, the block becomes a predecessor of the blocks that the statement goes to
  -- and of no others, no statement gets other operands, and the new statement and the live ones are
  -- users of exactly the values that they use.
  pub add_stmt-IsAppended :
      (add_stmt b s h ≡ none) × IsClosed h b
      ⊎ (h' : Heap) × (add_stmt b s h ≡ some h') × ¬ IsClosed h b × IsAppended live b s h h'
  unfolding add_stmt
  add_stmt-IsAppended = elim (Bool-cases (is_closed h (last_stmt h b))) [
    | inl closed ↦ inl (rw (closed, add_stmt) refl, is_closed-IsClosed h b _ refl closed)
    | inr opened ↦ inr (
      result,
      rw (opened, add_stmt) refl,
      λ c. true_not_false (sym (IsClosed-is_closed h b c) ∙ opened),
      record {
        stmts = stmts_after;
        ins = ins_after;
        instrs = instr_after;
        linked = IsLinked-after;
      },
    )
  ]
