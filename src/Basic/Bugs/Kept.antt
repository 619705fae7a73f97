-- ===== src/Basic/Bugs/Kept.antt =====
-- basic/bugs.go and basic/sub.go: the consistency of statements under `subVals`.
use pea_old.Prelude.{
  ℕ, ◌<◌, List, [], ◌∷◌, map, Option, none, some, ◌≡◌, refl, sym, ap, ◌∙◌, arith, In, elem,
  IsUnique, Option-cases, Bool-cases, inl, inr, some_cancel,
}
use mathlib.Core.Option
use mathlib.Core.Path.{fun_ext}
use pea_old.Basic.Ir.{
  Instr, store, copy, make_array, new_array, make_slice, make_string, new_string, make_and, make_or,
  make_virt, call, virt_call, panic, switch, op, load, index, field, Heap, update, set_node,
  add_user, rm_user,
}
use pea_old.Basic.Sub.{
  State, M, ◌>>=◌, pure, Got, get, num_of, moved, replace, sub1, sub_list, sub_optional, sub_fields,
  sub_instr, write_back, finish, sub_stmt, sub_vals,
}
use pea_old.Basic.Sub.Instrs.{map_instr}
use pea_old.Basic.Sub.Stmts.{IsReady, sub_vals_lem}
use pea_old.Basic.Types.{Ty}
use pea_old.Basic.Checks.{FunTypes, typ_of}
use pea_old.Basic.Bugs.{bugs}

typ-replace : (s v u w : ℕ) (h : Heap) → ((replace s v u h).nodes w).typ ≡ (h.nodes w).typ
unfolding replace add_user rm_user update
typ-replace s v u w h = ground arith

typ-write_back :
    (s w : ℕ) (i : Instr) (h : Heap) → ((write_back s i h).nodes w).typ ≡ (h.nodes w).typ
unfolding write_back set_node update
typ-write_back s w i h = ground arith

abbrev SameTypes : Heap → Heap → Type 0
SameTypes h k = (w : ℕ) → (k.nodes w).typ ≡ (h.nodes w).typ

-- A part of `subVals` that leaves the types of values alone.
record Keeps {A : Type 0} (m : M A) : Type 0 where
  run : (st st' : State) (a : A) → m st ≡ some (a, st') → SameTypes st.heap st'.heap

state_cancel :
    {A : Type 0} {a b : A} {s t : State}
    → ◌≡◌ {A = Option (A × State)} (some (a, s)) (some (b, t))
    → s ≡ t
state_cancel e = ap (λ p. p.1) (some_cancel e)

Keeps-pure : {A : Type 0} (a : A) → Keeps (pure a)
Keeps-pure a = record {
  run = λ st st' b e w. ap (λ s. (s.heap.nodes w).typ) (sym (state_cancel e));
}

Keeps-bind :
    {A B : Type 0} {m : M A} {f : A → M B} → Keeps m → ((a : A) → Keeps (f a)) → Keeps (m >>= f)
Keeps-bind {m} {f} p q = record { run = λ st st' b e. through st st' b (m st) refl e }
  where
    through :
        (st st' : State) (b : _) (r : _)
        → m st ≡ r
        → (m >>= f) st ≡ some (b, st')
        → SameTypes st.heap st'.heap
    through st st' b none e h = cc
    through st st' b (some (a, st1)) e h =
        λ w. (q a).run st1 st' b (rw (e, ◌>>=◌) at h) w ∙ p.run st st1 a e w

module _ (fuel s : ℕ) where
  Keeps-sub1 : (v : ℕ) → Keeps (sub1 fuel s v)
  unfolding sub1
  Keeps-sub1 v = record {
    run = λ st st' a e. by_got st st' a (get fuel (num_of st.heap) v st.map) e;
  }
    where
      by_got :
          (st st' : State) (a : ℕ) (r : Option Got)
          → moved s v st.heap r ≡ some (a, st')
          → SameTypes st.heap st'.heap
      by_got st st' a none e = cc
      by_got st st' a (some g) e = λ w.
          ap (λ t. (t.heap.nodes w).typ) (sym (state_cancel e)) ∙ typ-replace s v g.val w st.heap

  Keeps-list : (vs : List ℕ) → Keeps (sub_list fuel s vs)
  unfolding sub_list
  Keeps-list [] = Keeps-pure []
  Keeps-list (v ∷ vs) =
      Keeps-bind (Keeps-sub1 v) λ v'. Keeps-bind (Keeps-list vs) λ vs'. Keeps-pure _

  Keeps-optional : (o : Option ℕ) → Keeps (sub_optional fuel s o)
  unfolding sub_optional
  Keeps-optional none = Keeps-pure none
  Keeps-optional (some v) = Keeps-bind (Keeps-sub1 v) λ v'. Keeps-pure _

  Keeps-fields : (fs : List (Option ℕ)) → Keeps (sub_fields fuel s fs)
  unfolding sub_fields
  Keeps-fields [] = Keeps-pure []
  Keeps-fields (f ∷ fs) =
      Keeps-bind (Keeps-optional f) λ f'. Keeps-bind (Keeps-fields fs) λ fs'. Keeps-pure _

  then1 : {B : Type 0} {f : ℕ → M B} (v : ℕ) → ((a : ℕ) → Keeps (f a)) → Keeps (sub1 fuel s v >>= f)
  then1 v k = Keeps-bind (Keeps-sub1 v) k

  Keeps-instr : (i : Instr) → Keeps (sub_instr fuel s i)
  unfolding sub_instr
  Keeps-instr (store dst val) = then1 dst λ d. then1 val λ v. Keeps-pure _
  Keeps-instr (copy dst src) = then1 dst λ d. then1 src λ v. Keeps-pure _
  Keeps-instr (make_array dst args) = then1 dst λ d. Keeps-bind (Keeps-list args) λ v. Keeps-pure _
  Keeps-instr (new_array dst size) = then1 dst λ d. then1 size λ v. Keeps-pure _
  Keeps-instr (make_slice dst ary from to) =
      then1 dst λ d. then1 ary λ a. then1 from λ f. then1 to λ t. Keeps-pure _
  Keeps-instr (make_string dst str) = then1 dst λ d. Keeps-pure _
  Keeps-instr (new_string dst bytes) = then1 dst λ d. then1 bytes λ v. Keeps-pure _
  Keeps-instr (make_and dst fields b) =
      then1 dst λ d. Keeps-bind (Keeps-fields fields) λ v. Keeps-pure _
  Keeps-instr (make_or dst cas val) =
      then1 dst λ d. Keeps-bind (Keeps-optional val) λ v. Keeps-pure _
  Keeps-instr (make_virt dst obj virts) =
      then1 dst λ d. Keeps-bind (Keeps-optional obj) λ v. Keeps-pure _
  Keeps-instr (call fun args) = Keeps-bind (Keeps-list args) λ v. Keeps-pure _
  Keeps-instr (virt_call self i args) =
      then1 self λ d. Keeps-bind (Keeps-list args) λ v. Keeps-pure _
  Keeps-instr (panic v) = then1 v λ d. Keeps-pure _
  Keeps-instr (switch v dsts) = then1 v λ d. Keeps-pure _
  Keeps-instr (op code args) = Keeps-bind (Keeps-list args) λ v. Keeps-pure _
  Keeps-instr (load src) = then1 src λ d. Keeps-pure _
  Keeps-instr (index ary i) = then1 ary λ d. then1 i λ v. Keeps-pure _
  Keeps-instr (field obj i) = then1 obj λ d. Keeps-pure _
  Keeps-instr other = Keeps-pure other

  sub_stmt-SameTypes : (st st' : State) → sub_stmt fuel s st ≡ some st' → SameTypes st.heap st'.heap
  unfolding sub_stmt
  sub_stmt-SameTypes st st' e = by_run (sub_instr fuel s (st.heap.nodes s).instr st) refl e
    where
      by_run :
          (r : Option (Instr × State))
          → sub_instr fuel s (st.heap.nodes s).instr st ≡ r
          → finish s r ≡ some st'
          → SameTypes st.heap st'.heap
      by_run none e h = cc
      by_run (some (i, st1)) e h = λ w.
          ap (λ t. (t.heap.nodes w).typ) (sym (some_cancel h))
          ∙ typ-write_back s w i st1.heap
          ∙ (Keeps-instr (st.heap.nodes s).instr).run st st1 i e w

sub_vals-SameTypes :
    (fuel : ℕ) (ss : List ℕ) (st st' : State)
    → sub_vals fuel ss st ≡ some st'
    → SameTypes st.heap st'.heap
unfolding sub_vals
sub_vals-SameTypes fuel [] st st' e = λ w. ap (λ t. (t.heap.nodes w).typ) (sym (some_cancel e))
sub_vals-SameTypes fuel (s ∷ ss) st st' e = elim (Option-cases (sub_stmt fuel s st)) [
  | inl stuck ↦ absurd (impossible (rw (stuck, sub_vals) at e))
  | inr (st1, e1) ↦ λ w.
      sub_vals-SameTypes fuel ss st1 st' (rw (e1, sub_vals) at e) w
      ∙ sub_stmt-SameTypes fuel s st st1 e1 w
]
  where
    impossible : none ≡ some st' → ⊥
    impossible h = cc

map-map : (f g : ℕ → ℕ) (xs : List ℕ) → map g (map f xs) ≡ map (λ v. g (f v)) xs
map-map f g [] = refl
map-map f g (x ∷ xs) = ap (λ t. g (f x) ∷ t) (map-map f g xs)

Option-map-map :
    (f g : ℕ → ℕ) (o : Option ℕ) → Option.map g (Option.map f o) ≡ Option.map (λ v. g (f v)) o
Option-map-map f g none = refl
Option-map-map f g (some v) = refl

fields-map-map :
    (f g : ℕ → ℕ) (os : List (Option ℕ))
    → map (Option.map g) (map (Option.map f) os) ≡ map (Option.map (λ v. g (f v))) os
fields-map-map f g [] = refl
fields-map-map f g (o ∷ os) = rw (Option-map-map f g o, fields-map-map f g os) refl

map_instr-map_instr :
    (f g : ℕ → ℕ) (i : Instr) → map_instr g (map_instr f i) ≡ map_instr (λ v. g (f v)) i
unfolding map_instr
map_instr-map_instr f g (make_array dst args) = ap (make_array (g (f dst))) (map-map f g args)
map_instr-map_instr f g (make_and dst fields b) =
    ap (λ t. make_and (g (f dst)) t b) (fields-map-map f g fields)
map_instr-map_instr f g (make_or dst cas val) =
    ap (make_or (g (f dst)) cas) (Option-map-map f g val)
map_instr-map_instr f g (make_virt dst obj virts) =
    ap (λ t. make_virt (g (f dst)) t virts) (Option-map-map f g obj)
map_instr-map_instr f g (call fun args) = ap (call fun) (map-map f g args)
map_instr-map_instr f g (virt_call self i args) = ap (virt_call (g (f self)) i) (map-map f g args)
map_instr-map_instr f g (op code args) = ap (op code) (map-map f g args)
map_instr-map_instr f g other = refl

module _ (num rank final : ℕ → ℕ) (live : ℕ → Type 0) (fuel : ℕ) (enough : (v : ℕ) → rank v < fuel)
    (ty : ℕ → Ty) (funs : ℕ → FunTypes) (depth : ℕ) where
  -- For a value map with no cycle, where every slot leads to a value of lower rank, the fuel is above
  -- every rank, and the number of every value is within the size of the map, and for statements that
  -- are live and each stand once, where each live statement is a user of exactly the values it uses
  -- and each live virtual call has its receiver among its arguments: if each value and what it stands
  -- for have the same type, `subVals` returns and each statement has the bug that it had, or none as
  -- before.
  pub sub_vals-bugs :
      (ss : List ℕ) (st : State)
      → IsUnique ss
      → ((s : ℕ) → In s ss → live s)
      → IsReady num rank final live st
      → ((v : ℕ) → typ_of st.heap (final v) ≡ typ_of st.heap v)
      → (st' : State) × (sub_vals fuel ss st ≡ some st')
        × ((s : ℕ) → bugs ty funs depth st'.heap s ≡ bugs ty funs depth st.heap s)
  unfolding bugs
  sub_vals-bugs ss st u l ready same_type =
      let (st', e, _, instrs) = sub_vals_lem num rank final live fuel enough ss st u l ready in
      let types : typ_of st'.heap ≡ typ_of st.heap =
        fun_ext (sub_vals-SameTypes fuel ss st st' e) in
      let typ = typ_of st.heap in
      let one : (i : Instr) → map_instr typ (map_instr final i) ≡ map_instr typ i =
        λ i. map_instr-map_instr final typ i ∙ ap (λ f. map_instr f i) (fun_ext same_type) in
      (
        st',
        e,
        λ s.
            rw (types, instrs s)
              (elim (Bool-cases (elem s ss)) [
                | inl in_list ↦ rw (in_list, one (st.heap.nodes s).instr) refl
                | inr other ↦ rw other refl
              ]),
      )
