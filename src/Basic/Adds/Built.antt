-- ===== src/Basic/Adds/Built.antt =====
-- basic/build.go: a function under construction, as statements are added to it.
use pea_old.Prelude.{
  ℕ, suc, ◌<◌, ◌≤◌, true, false, not, ◌&&◌, ◌||◌, List, [], ◌∷◌, Option, none, some, ◌==◌, ◌≡◌,
  refl, ap, ◌∙◌, arith, elem, In, Bool-cases, inl, inr, if◌then◌else◌, some_cancel,
}
use mathlib.Core.Path.{subst}
use pea_old.Basic.Ir.{Instr, is_val, uses, Heap, set_node, update, add_user, term_out}
use pea_old.Basic.Ir.Users.{is_user}
use pea_old.Basic.Sub.Stmts.{IsLinked}
use pea_old.Basic.Blocks.{last_stmt, add_ins}
use pea_old.Basic.Blocks.Ins.{add_ins-nodes}
use pea_old.Basic.Build.{
  is_closed, append_stmt, add_users, add_stmt, is_user-add_users, instr-add_users,
}
use pea_old.Basic.Adds.{Building, Made, finish, new_node, add_typed, add, add_val}

num-add_users :
    (t s : ℕ) (vs : List ℕ) (h : Heap) → ((add_users s vs h).nodes t).num ≡ (h.nodes t).num
unfolding add_users add_user set_node update
num-add_users t s [] h = refl
num-add_users t s (v ∷ vs) h = num-add_users t s vs (add_user v s h) ∙ ground arith

-- What `addStmt` does to statements.
record IsAdded (s : ℕ) (h h' : Heap) : Type 0 where
  users :
      (t w : ℕ) → is_user t w h' ≡ (is_user t w h || elem w (uses (h.nodes s).instr) && (t == s))
  instrs : (t : ℕ) → (h'.nodes t).instr ≡ (h.nodes t).instr
  nums : (t : ℕ) → (h'.nodes t).num ≡ (h.nodes t).num

add_stmt-IsAdded : (b s : ℕ) (h h' : Heap) → add_stmt b s h ≡ some h' → IsAdded s h h'
unfolding add_stmt
add_stmt-IsAdded b s h h' e = elim (Bool-cases (is_closed h (last_stmt h b))) [
  | inl closed ↦ absurd (impossible (rw closed at e))
  | inr opened ↦ subst (IsAdded s h) (some_cancel (rw opened at e)) done
]
  where
    impossible : none ≡ some h' → ⊥
    impossible e = cc

    done : IsAdded s h (
        add_ins b
          (term_out (h.nodes s).instr)
          (add_users s (uses (h.nodes s).instr) (append_stmt b s h)))
    done =
        let i = (h.nodes s).instr in
        let nodes = add_ins-nodes b (term_out i) (add_users s (uses i) (append_stmt b s h)) in
        record {
          users = λ t w.
              ap (λ f. elem t (f w).users) nodes
              ∙ is_user-add_users t w s (uses i) (append_stmt b s h);
          instrs =
              λ t. ap (λ f. (f t).instr) nodes ∙ instr-add_users t s (uses i) (append_stmt b s h);
          nums = λ t. ap (λ f. (f t).num) nodes ∙ num-add_users t s (uses i) (append_stmt b s h);
        }

-- Every statement is a user of exactly the values that it uses; what it uses is there; and values
-- have numbers below `NVals`, each its own.
pub record IsBuilt (f : Building) : Type 0 where
  pub linked : IsLinked (λ t. t < f.objects) f.heap
  pub fresh : (t w : ℕ) → f.objects ≤ t → is_user t w f.heap ≡ false
  pub within : (t v : ℕ) → t < f.objects → In v (uses (f.heap.nodes t).instr) → v < f.objects
  pub small :
      (v : ℕ)
      → v < f.objects
      → is_val (f.heap.nodes v).instr ≡ true
      → (f.heap.nodes v).num < f.n_vals
  pub own :
      (v w : ℕ)
      → v < w
      → w < f.objects
      → is_val (f.heap.nodes v).instr ≡ true
      → is_val (f.heap.nodes w).instr ≡ true
      → (f.heap.nodes v).num ≡ (f.heap.nodes w).num
      → ⊥

-- The values are there.
abbrev pub AreThere : Building → List ℕ → Type 0
AreThere f vs = (v : ℕ) → In v vs → v < f.objects

module _ (b num typ n_vals : ℕ) (i : Instr) (f : Building) (ok : IsBuilt f)
    (args : AreThere f (uses i)) (h' : Heap)
    (added : IsAdded f.objects (new_node f.objects i num typ f.heap) h') where
  users_after :
      (t w : ℕ)
      → is_user t w h'
        ≡ (not (w == f.objects) && is_user t w f.heap || elem w (uses i) && (t == f.objects))
  unfolding update set_node elem
  users_after t w = ground (arith, added.users t w)

  instr_after :
      (t : ℕ) → (h'.nodes t).instr ≡ (if t == f.objects then i else (f.heap.nodes t).instr)
  unfolding update set_node
  instr_after t = ground (arith, added.instrs t)

  num_after : (t : ℕ) → (h'.nodes t).num ≡ (if t == f.objects then num else (f.heap.nodes t).num)
  unfolding update set_node
  num_after t = ground (arith, added.nums t)

  IsLinked-after : IsLinked (λ t. t < suc f.objects) h'
  IsLinked-after t w l = elim (Bool-cases (t == f.objects)) [
    | inl new ↦ rw (instr_after t, new) (ground (arith, users_after t w, ok.fresh t w))
    | inr old ↦
        let before : t < f.objects = ground arith in
        rw (instr_after t, old)
          (ground (arith, users_after t w, ok.linked t w before, ok.within t w before))
  ]

  fresh_after : (t w : ℕ) → suc f.objects ≤ t → is_user t w h' ≡ false
  fresh_after t w l = ground (arith, users_after t w, ok.fresh t w (omega arith))

  within_after : (t v : ℕ) → t < suc f.objects → In v (uses (h'.nodes t).instr) → v < suc f.objects
  within_after t v l used = elim (Bool-cases (t == f.objects)) [
    | inl new ↦ omega (arith, args v (rw (instr_after t, new) at used))
    | inr old ↦ omega (arith, ok.within t v (ground arith) (rw (instr_after t, old) at used))
  ]

  -- A value gets the next number; another statement leaves the count.
  module _ (grows : f.n_vals ≤ n_vals)
      (numbered : is_val i ≡ true → (num ≡ f.n_vals) × (n_vals ≡ suc f.n_vals)) where
    small_after :
        (v : ℕ) → v < suc f.objects → is_val (h'.nodes v).instr ≡ true → (h'.nodes v).num < n_vals
    small_after v l val = elim (Bool-cases (v == f.objects)) [
      | inl new ↦
          let (first, next) = numbered (rw (instr_after v, new) at val) in
          rw (num_after v, new) (omega (arith, first, next))
      | inr old ↦
          rw (num_after v, old)
            (omega (arith, ok.small v (ground arith) (rw (instr_after v, old) at val)))
    ]

    own_after :
        (v w : ℕ)
        → v < w
        → w < suc f.objects
        → is_val (h'.nodes v).instr ≡ true
        → is_val (h'.nodes w).instr ≡ true
        → (h'.nodes v).num ≡ (h'.nodes w).num
        → ⊥
    own_after v w l m val_v val_w e =
        let old : (v == f.objects) ≡ false = ground arith in
        let val_v' : is_val (f.heap.nodes v).instr ≡ true = rw (instr_after v, old) at val_v in
        elim (Bool-cases (w == f.objects)) [
          | inl new ↦
              let (first, next) = numbered (rw (instr_after w, new) at val_w) in
              absurd (
                omega (
                  arith,
                  ok.small v (ground arith) val_v',
                  rw (num_after v, old, num_after w, new) at e,
                  first,
                ))
          | inr old_w ↦
              ok.own v w l (ground arith) val_v' (rw (instr_after w, old_w) at val_w)
                (rw (num_after v, old, num_after w, old_w) at e)
        ]

    after-IsBuilt : IsBuilt (record { heap = h'; objects = suc f.objects; n_vals = n_vals })
    after-IsBuilt = record {
      linked = IsLinked-after;
      fresh = fresh_after;
      within = within_after;
      small = small_after;
      own = own_after;
    }

-- The state that is made is built, and the statement is one of its own.
abbrev pub BuiltNext : Building → Made → Type 0
BuiltNext f made = (s : ℕ) (f' : Building) → made ≡ some (s, f') → IsBuilt f' × (s < f'.objects)

finish-BuiltNext :
    (b num typ n_vals : ℕ) (i : Instr) (f : Building)
    → IsBuilt f
    → AreThere f (uses i)
    → f.n_vals ≤ n_vals
    → (is_val i ≡ true → (num ≡ f.n_vals) × (n_vals ≡ suc f.n_vals))
    → (r : Option Heap) → add_stmt b f.objects (new_node f.objects i num typ f.heap) ≡ r
    → BuiltNext f (finish f.objects (suc f.objects) n_vals r)
finish-BuiltNext b num typ n_vals i f ok args grows numbered none run s f' e = cc
finish-BuiltNext b num typ n_vals i f ok args grows numbered (some h') run s f' e =
    let built =
      after-IsBuilt b num typ n_vals i f ok args h' (add_stmt-IsAdded b f.objects _ h' run) grows
        numbered in
    let same = some_cancel e in
    (subst IsBuilt (ap (λ p. p.1) same) built, subst (λ p. p.0 < p.1.objects) same (omega arith))

pub add_typed-BuiltNext :
    (b typ : ℕ) (i : Instr) (f : Building)
    → IsBuilt f
    → is_val i ≡ false
    → AreThere f (uses i)
    → BuiltNext f (add_typed b typ i f)
unfolding add_typed
add_typed-BuiltNext b typ i f ok other args =
    finish-BuiltNext b 0 typ f.n_vals i f ok args (omega arith) (λ e. absurd (ground arith)) _ refl

pub add-BuiltNext :
    (b : ℕ) (i : Instr) (f : Building)
    → IsBuilt f
    → is_val i ≡ false
    → AreThere f (uses i)
    → BuiltNext f (add b i f)
unfolding add
add-BuiltNext b i f ok other args = add_typed-BuiltNext b 0 i f ok other args

pub add_val-BuiltNext :
    (b typ : ℕ) (i : Instr) (f : Building)
    → IsBuilt f
    → AreThere f (uses i)
    → BuiltNext f (add_val b typ i f)
unfolding add_val
add_val-BuiltNext b typ i f ok args =
    finish-BuiltNext b f.n_vals typ (suc f.n_vals) i f ok args (omega arith) (λ e. (refl, refl)) _
      refl
