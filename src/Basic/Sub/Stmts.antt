-- ===== src/Basic/Sub/Stmts.antt =====
-- basic/sub.go: `subVals` over the statements of a function.
use pea_old.Prelude.{
  ℕ, ◌<◌, false, List, [], ◌∷◌, ◌++◌, map, some, ◌==◌, ◌≡◌, refl, sym, ◌∙◌, arith, elem, In,
  Bool-cases, inl, inr, if◌then◌else◌, IsUnique, In-head, In-tail,
}
use mathlib.Core.List.{append-nil}
use native.Mathlib.Decide.{ℕ_discrete}
use pea_old.Basic.Ir.{Instr, Heap, uses, update, set_node}
use pea_old.Basic.Ir.Users.{is_user}
use pea_old.Basic.Sub.{State, ValMap, num_of, write_back, sub_stmt, sub_vals}
use pea_old.Basic.Sub.Resolve.{IsMap, final_idem}
use pea_old.Basic.Sub.Step.{IsMidway}
use pea_old.Basic.Sub.Instrs.{map_instr, visits, finals, instr_runs}
use pea_old.Basic.Sub.Fields.{
  HasSelf, elem-visits, HasSelf-map_instr, visits-map_instr, elem-finals,
}

is_user-write_back :
    (t w s : ℕ) (i : Instr) (h : Heap) → is_user t w (write_back s i h) ≡ is_user t w h
unfolding write_back set_node update
is_user-write_back t w s i h = ground arith

num-write_back : (w s : ℕ) (i : Instr) (h : Heap) → num_of (write_back s i h) w ≡ num_of h w
unfolding write_back set_node update
num-write_back w s i h = ground arith

instr-write_back :
    (w s : ℕ) (i : Instr) (h : Heap)
    → ((write_back s i h).nodes w).instr ≡ (if w == s then i else (h.nodes w).instr)
unfolding write_back set_node update
instr-write_back w s i h = ground arith

-- Each of the statements that `live` holds of is a user of exactly the values that it uses.
abbrev pub IsLinked : (ℕ → Type 0) → Heap → Type 0
IsLinked live h = (t w : ℕ) → live t → is_user t w h ≡ elem w (uses (h.nodes t).instr)

-- What a substitution needs of its state and keeps: the map has no cycle and a place for every
-- value's number, live statements are users of exactly the values they use, and live virtual calls
-- have their receivers among their arguments.
pub record IsReady (num rank final : ℕ → ℕ) (live : ℕ → Type 0) (st : State) : Type 0 where
  pub ok : IsMap num rank final st.map
  pub nums : (w : ℕ) → num_of st.heap w ≡ num w
  pub linked : IsLinked live st.heap
  pub self : (t : ℕ) → live t → HasSelf (st.heap.nodes t).instr

module _ (num rank final : ℕ → ℕ) (live : ℕ → Type 0) (fuel : ℕ)
    (enough : (v : ℕ) → rank v < fuel) where
  -- A value in the image of `final` stands for itself, so none else is among the new fields.
  not_image :
      (m : ValMap)
      → IsMap num rank final m
      → (w : ℕ) (vs : List ℕ) → (final w ≡ w → ⊥)
      → elem w (map final vs) ≡ false
  unfolding elem
  not_image m ok w [] h = refl
  not_image m ok w (v ∷ vs) h =
      ground (arith, final_idem num rank final m ok v, not_image m ok w vs h)

  module _ (s : ℕ) (s_live : live s) (st : State) (ready : IsReady num rank final live st) where
    abbrev old : Instr
    old = (st.heap.nodes s).instr

    abbrev Mid : List ℕ → List ℕ → State → Type 0
    Mid = IsMidway num rank final fuel s enough st.heap

    -- Before the first field, and behind the last one.
    start : Mid [] (visits old ++ []) st
    unfolding elem
    start = record {
      ok = ready.ok;
      nums = ready.nums;
      instrs = λ w. refl;
      others = λ t w h. refl;
      settled = λ w h. ready.linked s w s_live ∙ sym (elem-visits w old (ready.self s s_live));
      replaced =
          λ w h u. elem-visits w old (ready.self s s_live) ∙ sym (ready.linked s w s_live) ∙ u;
    }

    abbrev new_fields : List ℕ
    new_fields = finals num rank final fuel s enough st.heap (visits old) []

    new_uses : (w : ℕ) → elem w (uses (map_instr final old)) ≡ elem w (map final (visits old))
    new_uses w =
        sym
          (elem-visits w (map_instr final old) (HasSelf-map_instr final old (ready.self s s_live)))
        ∙ rw (append-nil (visits (map_instr final old)), visits-map_instr final old)

    -- Behind the last field `s` is a user of what its new fields hold.
    linked_new :
        (st1 : State)
        → Mid new_fields [] st1
        → (w : ℕ) → is_user s w st1.heap ≡ elem w (uses (map_instr final old))
    unfolding elem
    linked_new st1 mid w = rw (new_uses w) (elim (ℕ_discrete (final w) w) [
      | yes fixed ↦ ground (
        arith,
        mid.settled w fixed,
        elem-finals num rank final fuel s enough st.heap w (visits old) [],
      )
      | no moved ↦
          ground (arith, mid.replaced w moved, not_image st.map ready.ok w (visits old) moved)
    ])

    abbrev after : State → State
    after st1 = record st1 { heap = write_back s (map_instr final old) st1.heap }

    after_self : (st1 : State) → ((after st1).heap.nodes s).instr ≡ map_instr final old
    after_self st1 = ground (arith, instr-write_back s s (map_instr final old) st1.heap)

    after_other :
        (st1 : State)
        → Mid new_fields [] st1
        → (t : ℕ) → (t == s) ≡ false
        → ((after st1).heap.nodes t).instr ≡ (st.heap.nodes t).instr
    after_other st1 mid t h =
        ground (arith, instr-write_back t s (map_instr final old) st1.heap, mid.instrs t)

    after-IsLinked : (st1 : State) → Mid new_fields [] st1 → IsLinked live (after st1).heap
    after-IsLinked st1 mid t w l = elim (Bool-cases (t == s)) [
      | inl hit ↦
          let e : t ≡ s = ground arith in
          rw (e, after_self st1)
            (is_user-write_back s w s (map_instr final old) st1.heap ∙ linked_new st1 mid w)
      | inr miss ↦ rw (after_other st1 mid t miss) (
          is_user-write_back t w s (map_instr final old) st1.heap
          ∙ mid.others t w miss
          ∙ ready.linked t w l)
    ]

    after-IsReady : (st1 : State) → Mid new_fields [] st1 → IsReady num rank final live (after st1)
    after-IsReady st1 mid = record {
      ok = mid.ok;
      nums = λ w. num-write_back w s (map_instr final old) st1.heap ∙ mid.nums w;
      linked = after-IsLinked st1 mid;
      self = λ t l. elim (Bool-cases (t == s)) [
        | inl hit ↦
            let e : t ≡ s = ground arith in
            rw (e, after_self st1) (HasSelf-map_instr final old (ready.self s s_live))
        | inr miss ↦ rw (after_other st1 mid t miss) (ready.self t l)
      ];
    }

    -- One statement: it is rewritten by `final`, and no other statement changes.
    sub_stmt_lem :
        (st' : State) × (sub_stmt fuel s st ≡ some st')
        × IsReady num rank final live st'
        × ((st'.heap.nodes s).instr ≡ map_instr final old)
        × ((t : ℕ) → (t == s) ≡ false → (st'.heap.nodes t).instr ≡ (st.heap.nodes t).instr)
    unfolding sub_stmt
    sub_stmt_lem =
        let runs = instr_runs num rank final fuel s enough st.heap old in
        let (st1, e, mid) = runs.run st start in
        (after st1, rw e, after-IsReady st1 mid, after_self st1, after_other st1 mid)

  -- For a value map with no cycle, where every slot leads to a value of lower rank, the fuel is above
  -- every rank, and the number of every value is within the size of the map, and for statements that
  -- are live and each stand once, where each live statement is a user of exactly the values it uses
  -- and each live virtual call has its receiver among its arguments: `subVals` returns; each
  -- statement is rewritten with the values that its values stand for, no other statement changes,
  -- and all these conditions hold as before.
  pub sub_vals_lem :
      (ss : List ℕ) (st : State)
      → IsUnique ss
      → ((s : ℕ) → In s ss → live s)
      → IsReady num rank final live st
      → (st' : State) × (sub_vals fuel ss st ≡ some st')
        × IsReady num rank final live st'
        × ((s : ℕ)
            → (st'.heap.nodes s).instr ≡ (
                if elem s ss
                then map_instr final (st.heap.nodes s).instr
                else (st.heap.nodes s).instr))
  unfolding sub_vals elem
  sub_vals_lem [] st u l ready = (st, refl, ready, λ s. refl)
  sub_vals_lem (s ∷ ss) st (once, u) l ready =
      let (st1, e1, ready1, self1, other1) = sub_stmt_lem s (l s (In-head s ss)) st ready in
      let (st2, e2, ready2, all2) = sub_vals_lem ss st1 u (λ t h. l t (In-tail t s ss h)) ready1 in
      (
        st2,
        rw (e1, sub_vals) e2,
        ready2,
        λ t. elim (Bool-cases (t == s)) [
          | inl hit ↦ let q : t ≡ s = ground arith in rw q (ground (arith, all2 s))
          | inr miss ↦ ground (arith, all2 t, other1 t)
        ],
      )
