-- ===== src/Basic/Blocks/Wired.antt =====
-- basic/sub.go: `subBBlks` over the blocks of a function.
use pea_old.Prelude.{
  ℕ, ◌<◌, true, false, not, ◌&&◌, ◌||◌, List, [], ◌∷◌, map, none, some, ◌==◌, ◌≡◌, refl, sym, ap,
  ◌∙◌, arith, elem, In, Bool-cases, Option-cases, inl, inr, if◌then◌else◌, IsUnique, In-head,
  In-tail, some_cancel,
}
use mathlib.Core.Path.{fun_ext}
use pea_old.Basic.Ir.{Instr, Heap, update, set_node, term_out, is_term}
use pea_old.Basic.Sub.{ValMap, State}
use pea_old.Basic.Sub.Resolve.{IsMap}
use pea_old.Basic.Blocks.{
  last, last_stmt, out, rm_ins, add_ins, block_num, set_instr, rewire, sub_last, sub_bblks,
}
use pea_old.Basic.Blocks.Term.{map_term, term_out-map_term, is_term-map_term, sub_term_lem}
use pea_old.Basic.Blocks.Ins.{is_in, is_in-add_ins, is_in-rm_ins, add_ins-IsSame, rm_ins-IsSame}

-- What the substitution needs of its state and keeps: the map has no cycle and a place for every
-- block's number, a live block is a predecessor of exactly the blocks that it goes to, the last
-- statements of live blocks are terminal, and no two blocks share their last statement.
pub record IsWired (num rank final : ℕ → ℕ) (live : ℕ → Type 0) (st : State) : Type 0 where
  pub ok : IsMap num rank final st.map
  pub nums : (b : ℕ) → block_num st.heap b ≡ num b
  pub wired : (b o : ℕ) → live b → is_in b o st.heap ≡ elem o (out st.heap b)
  pub separate : (b c s : ℕ) → last_stmt st.heap b ≡ some s → last_stmt st.heap c ≡ some s → b ≡ c
  pub terms :
      (b s : ℕ) → live b → last_stmt st.heap b ≡ some s → is_term (st.heap.nodes s).instr ≡ true

-- The heap behind one block's turn, whose last statement is `s`.
after_heap : ℕ → ℕ → Instr → Instr → Heap → Heap
after_heap b s i i' h = add_ins b (term_out i') (set_instr s i' (rm_ins b (term_out i) h))

module _ (b s : ℕ) (i i' : Instr) (h : Heap) where
  after-instr :
      (t : ℕ) → ((after_heap b s i i' h).nodes t).instr ≡ (if t == s then i' else (h.nodes t).instr)
  unfolding after_heap set_node update
  after-instr t = ground (
    arith,
    (add_ins-IsSame b (term_out i') (set_instr s i' (rm_ins b (term_out i) h))).instrs t,
    (rm_ins-IsSame b (term_out i) h).instrs t,
  )

  after-stmts : (c : ℕ) → ((after_heap b s i i' h).blocks c).stmts ≡ (h.blocks c).stmts
  unfolding after_heap set_node
  after-stmts c =
      (add_ins-IsSame b (term_out i') (set_instr s i' (rm_ins b (term_out i) h))).stmts c
      ∙ (rm_ins-IsSame b (term_out i) h).stmts c

  after-num : (c : ℕ) → block_num (after_heap b s i i' h) c ≡ block_num h c
  unfolding after_heap set_node
  after-num c =
      (add_ins-IsSame b (term_out i') (set_instr s i' (rm_ins b (term_out i) h))).nums c
      ∙ (rm_ins-IsSame b (term_out i) h).nums c

  after-is_in :
      (c o : ℕ)
      → is_in c o (after_heap b s i i' h)
        ≡ (is_in c o h && not (elem o (term_out i) && (c == b)) || elem o (term_out i') && (c == b))
  unfolding after_heap set_node
  after-is_in c o =
      is_in-add_ins c o b (term_out i') (set_instr s i' (rm_ins b (term_out i) h))
      ∙ ap (λ x. x || elem o (term_out i') && (c == b)) (is_in-rm_ins c o b (term_out i) h)

module _ (num rank final : ℕ → ℕ) (live : ℕ → Type 0) (fuel : ℕ)
    (enough : (v : ℕ) → rank v < fuel) where
  module _ (b s : ℕ) (st : State) (l : live b) (ready : IsWired num rank final live st)
      (e : last_stmt st.heap b ≡ some s) (m' : ValMap) (ok' : IsMap num rank final m') where
    abbrev old : Instr
    old = (st.heap.nodes s).instr

    abbrev new : Heap
    new = after_heap b s old (map_term final old) st.heap

    new_last : (c : ℕ) → last_stmt new c ≡ last_stmt st.heap c
    new_last c = ap last (after-stmts b s old (map_term final old) st.heap c)

    old-out : out st.heap b ≡ term_out old
    unfolding out
    old-out = rw e refl

    other : (c t : ℕ) → last_stmt st.heap c ≡ some t → (t == s) ≡ false → (c == b) ≡ false
    other c t f miss = elim (Bool-cases (c == b)) [
      | inl hit ↦
          let p : c ≡ b = ground arith in
          let q : t ≡ s = some_cancel (sym f ∙ ap (last_stmt st.heap) p ∙ e) in ground arith
      | inr apart ↦ apart
    ]

    -- The block's successors are replaced, those of the others are not.
    new-out : (c : ℕ) → out new c ≡ (if c == b then map final (out st.heap c) else out st.heap c)
    unfolding out
    new-out c = elim (Option-cases (last_stmt st.heap c)) [
      | inl empty ↦ rw (new_last c, empty) (ground arith)
      | inr (t, f) ↦
          rw (new_last c, f, after-instr b s old (map_term final old) st.heap t)
            (elim (Bool-cases (t == s)) [
              | inl hit ↦
                  let q : t ≡ s = ground arith in
                  let p : c ≡ b = ready.separate c b s (rw (← q) f) e in
                  let k : (c == b) ≡ true = ground arith in
                  rw q (ground (arith, term_out-map_term final old))
              | inr miss ↦ rw (miss, other c t f miss) refl
            ])
    ]

    new_ready : IsWired num rank final live (record { heap = new; map = m' })
    new_ready = record {
      ok = ok';
      nums = λ c. after-num b s old (map_term final old) st.heap c ∙ ready.nums c;
      wired = λ c o k. after-is_in b s old (map_term final old) st.heap c o ∙ new_wired c o k;
      separate = λ c d t f g. ready.separate c d t (sym (new_last c) ∙ f) (sym (new_last d) ∙ g);
      terms = λ c t k f. ground (
        arith,
        after-instr b s old (map_term final old) st.heap t,
        is_term-map_term final old,
        ready.terms b s l e,
        ready.terms c t k (sym (new_last c) ∙ f),
      );
    }
      where
        new_wired :
            (c o : ℕ)
            → live c
            → (is_in c o st.heap && not (elem o (term_out old) && (c == b))
                || elem o (term_out (map_term final old)) && (c == b))
              ≡ elem o (out new c)
        new_wired c o k = elim (Bool-cases (c == b)) [
          | inl hit ↦
              let p : c ≡ b = ground arith in
              rw (new-out c, p, old-out, term_out-map_term final old)
                (ground (arith, ready.wired b o l, ap (elem o) old-out))
          | inr miss ↦ rw (new-out c, miss) (ground (arith, ready.wired c o k))
        ]

  -- One block: its successors are replaced, and no other block's.
  sub_last_lem :
      (b : ℕ) (st : State)
      → live b
      → IsWired num rank final live st
      → (st' : State) × (sub_last fuel b (last_stmt st.heap b) st ≡ some st')
        × IsWired num rank final live st'
        × ((c : ℕ) → out st'.heap c ≡ (if c == b then map final (out st.heap c) else out st.heap c))
  unfolding sub_last out after_heap
  sub_last_lem b st l ready = elim (Option-cases (last_stmt st.heap b)) [
    | inl empty ↦ (st, rw (empty, sub_last) refl, ready, λ c. unchanged empty c)
    | inr (s, e) ↦
        let (m', e', ok') =
          sub_term_lem num rank final fuel enough (st.heap.nodes s).instr st.map ready.ok
            (ready.terms b s l e) in
        let same : block_num st.heap ≡ num = fun_ext ready.nums in
        (
          record { heap = new b s st l ready e m' ok'; map = m' },
          rw (e, sub_last, same, e', rewire, after_heap) refl,
          new_ready b s st l ready e m' ok',
          new-out b s st l ready e m' ok',
        )
  ]
    where
      unchanged :
          last_stmt st.heap b ≡ none
          → (c : ℕ) → out st.heap c ≡ (if c == b then map final (out st.heap c) else out st.heap c)
      unchanged empty c = elim (Bool-cases (c == b)) [
        | inl hit ↦ let p : c ≡ b = ground arith in rw (hit, p, empty) refl
        | inr miss ↦ rw miss refl
      ]

  -- For a block map with no cycle, where every slot leads to a block of lower rank, the fuel is above
  -- every rank, and the number of every block is within the size of the map, and for blocks that are
  -- live and each stand once, where the last statement of each live block is terminal, no two blocks
  -- share their last statement, and a live block is a predecessor of exactly the blocks that it goes
  -- to: `subBBlks` returns; each of these blocks goes to what its successors stand for, the other
  -- blocks go where they went, and all these conditions hold as before.
  pub sub_bblks_lem :
      (bs : List ℕ) (st : State)
      → IsUnique bs
      → ((b : ℕ) → In b bs → live b)
      → IsWired num rank final live st
      → (st' : State) × (sub_bblks fuel bs st ≡ some st')
        × IsWired num rank final live st'
        × ((b : ℕ)
            → out st'.heap b ≡ (if elem b bs then map final (out st.heap b) else out st.heap b))
  unfolding sub_bblks elem
  sub_bblks_lem [] st u l ready = (st, refl, ready, λ b. refl)
  sub_bblks_lem (b ∷ bs) st (once, u) l ready =
      let (st1, e1, ready1, out1) = sub_last_lem b st (l b (In-head b bs)) ready in
      let (st2, e2, ready2, out2) = sub_bblks_lem bs st1 u (λ c h. l c (In-tail c b bs h)) ready1 in
      (
        st2,
        rw (e1, sub_bblks) e2,
        ready2,
        λ c. elim (Bool-cases (c == b)) [
          | inl hit ↦ let q : c ≡ b = ground arith in rw q (ground (arith, out2 b, out1 b))
          | inr miss ↦ ground (arith, out2 c, out1 c)
        ],
      )
