-- ===== src/Basic/Escape/Round.antt =====
-- basic/escape.go: what a part of a round of the first loop of `moveAllocsToStack` does.
use pea_old.Prelude.{
  ℕ, ◌<◌, Bool, true, false, List, [], ◌∷◌, Option, none, some, ◌==◌, ◌≡◌, refl, sym, ap, ◌∙◌,
  arith, In, elem, In-cons_cases, ◌⊎◌, Bool-cases, inl, inr, if◌then◌else◌,
}
use mathlib.Core.Path.{subst, fun_ext}
use pea_old.Basic.Ir.{Instr, comment, store, load, alloc, stores_to, Heap, set_node}
use pea_old.Basic.Types.{Ty}
use pea_old.Basic.Checks.{typ_of}
use pea_old.Basic.Escape.{
  escape_unless, escapes_by, is_stack, escapes_user, escapes_users, escapes, Marking, on_stack,
  set_stack, stays_inside, is_markable, marked, mark_if, or_rest,
}
use pea_old.Basic.Escape.Count.{
  off_stack, count, instr-set_stack, typ-set_stack, count-set_stack_lt,
}

module _ (ty : ℕ → Ty) (has_ret : ℕ → Bool) where
  -- No statement's check panics, as the user of any value.
  abbrev pub IsSafe : Heap → Type 0
  IsSafe h = (v u : ℕ) → escapes_user ty has_ret h v u ≡ none → ⊥

  -- Which values are on the stack does not make a check panic.
  escapes_by-stack :
      (typ : ℕ → ℕ) (one two : ℕ → Bool) (v own : ℕ) (i : Instr)
      → escapes_by ty has_ret typ one v own i ≡ none
      → escapes_by ty has_ret typ two v own i ≡ none
  unfolding escapes_by
  escapes_by-stack typ one two v own (store dst val) e = cc
  escapes_by-stack typ one two v own (load src) e = e
  escapes_by-stack typ one two v own other e = e

  users_safe :
      (h : Heap) (v : ℕ) (us : List ℕ) → IsSafe h → escapes_users ty has_ret h v us ≡ none → ⊥
  unfolding escapes_users
  users_safe h v [] safe e = cc
  users_safe h v (u ∷ us) safe e =
      by_first (escapes_user ty has_ret h v u) (safe v u) (users_safe h v us safe) e
    where
      by_first :
          (r : Option Bool)
          → (r ≡ none → ⊥)
          → (escapes_users ty has_ret h v us ≡ none → ⊥)
          → or_rest ty has_ret r (escapes_users ty has_ret h v us) ≡ none
          → ⊥
      by_first none first rest e = first refl
      by_first (some true) first rest e = cc
      by_first (some false) first rest e = rest e

  blocks-set_stack : (s : ℕ) (h : Heap) → (set_stack ty has_ret s h).blocks ≡ h.blocks
  unfolding set_stack set_node
  blocks-set_stack s h = refl

  abbrev by_instr : (ℕ → ℕ) → (ℕ → Bool) → ℕ → ℕ → Instr → Option Bool
  by_instr typ stack v own i =
      if stores_to i v then some false else escapes_by ty has_ret typ stack v own i

  by_instr-stack :
      (typ : ℕ → ℕ) (one two : ℕ → Bool) (v own : ℕ) (i : Instr)
      → by_instr typ one v own i ≡ none
      → by_instr typ two v own i ≡ none
  by_instr-stack typ one two v own i e = elim (Bool-cases (stores_to i v)) [
    | inl y ↦ absurd (impossible (rw y at e))
    | inr n ↦ rw n (escapes_by-stack typ one two v own i (rw n at e))
  ]
    where
      impossible : ◌≡◌ {A = Option Bool} (some false) none → ⊥
      impossible e = cc

  by_instr-on_stack :
      (typ : ℕ → ℕ) (stack : ℕ → Bool) (v own : ℕ) (i : Instr)
      → off_stack i ≡ 1
      → by_instr typ stack v own (on_stack ty has_ret i) ≡ none
      → ⊥
  unfolding off_stack escapes_by stores_to
  by_instr-on_stack typ stack v own (alloc false var) one e = cc
  by_instr-on_stack typ stack v own (alloc true var) one e = cc
  by_instr-on_stack typ stack v own comment one e = cc
  by_instr-on_stack typ stack v own other one e = cc

  set_stack-IsSafe :
      (s : ℕ) (h : Heap)
      → off_stack (h.nodes s).instr ≡ 1
      → IsSafe h
      → IsSafe (set_stack ty has_ret s h)
  set_stack-IsSafe s h one safe v u e =
      let k = set_stack ty has_ret s h in
      let stack : ℕ → Bool = λ w. is_stack ty has_ret (k.nodes w).instr in
      let types : typ_of k ≡ typ_of h = fun_ext (λ w. typ-set_stack ty has_ret s w h) in
      let now : by_instr (typ_of k) stack v (typ_of k u) (k.nodes u).instr ≡ none = e in
      let then_ : by_instr (typ_of h) stack v (typ_of h u) (k.nodes u).instr ≡ none =
        subst (λ t. by_instr t stack v (t u) (k.nodes u).instr ≡ none) types now in
      elim (Bool-cases (u == s)) [
        | inl hit ↦
            let same : u ≡ s = ground arith in
            by_instr-on_stack (typ_of h) stack v (typ_of h u) (h.nodes u).instr (rw same one) (
              subst (λ i. by_instr (typ_of h) stack v (typ_of h u) i ≡ none)
                (instr-set_stack ty has_ret s u h ∙ when_hit u hit) then_)
        | inr miss ↦ safe v u (
            by_instr-stack (typ_of h) stack _ v (typ_of h u) (h.nodes u).instr (
              subst (λ i. by_instr (typ_of h) stack v (typ_of h u) i ≡ none)
                (instr-set_stack ty has_ret s u h ∙ when_miss u miss) then_))
      ]
    where
      when_hit :
          (u : ℕ)
          → (u == s) ≡ true
          → (if u == s then on_stack ty has_ret (h.nodes u).instr else (h.nodes u).instr)
            ≡ on_stack ty has_ret (h.nodes u).instr
      when_hit u hit = rw hit refl

      when_miss :
          (u : ℕ)
          → (u == s) ≡ false
          → (if u == s then on_stack ty has_ret (h.nodes u).instr else (h.nodes u).instr)
            ≡ (h.nodes u).instr
      when_miss u miss = rw miss refl

  markable_off :
      (h : Heap) (s : ℕ) (i : Instr) → stays_inside ty has_ret h s i ≡ some true → off_stack i ≡ 1
  unfolding off_stack
  markable_off h s (alloc false var) e = refl
  markable_off h s (alloc true var) e = cc
  markable_off h s comment e = cc
  markable_off h s other e = cc

  markable_safe :
      (h : Heap) (s : ℕ) (i : Instr) → IsSafe h → stays_inside ty has_ret h s i ≡ none → ⊥
  markable_safe h s (alloc false var) safe e =
      users_safe h s (h.nodes s).users safe (none_of (escapes ty has_ret h s) e)
    where
      none_of : (r : Option Bool) → escape_unless ty has_ret r ≡ none → r ≡ none
      none_of none e = refl
      none_of (some b) e = cc
  markable_safe h s (alloc true var) safe e = cc
  markable_safe h s comment safe e = cc
  markable_safe h s other safe e = cc

  -- After part of a round: nothing is marked, and none of the statements can be; or a statement is
  -- marked, and fewer allocs are off the stack.
  pub data Progress (all xs : List ℕ) (w w' : Marking) : Type 0 where
    quiet :
        w' ≡ w
        → ((s : ℕ) → In s xs → is_markable ty has_ret w.heap s ≡ some false)
        → Progress all xs w w'
    moved : w'.changed ≡ true → count w'.heap all < count w.heap all → Progress all xs w w'

  pub record Ends (all xs : List ℕ) (w : Marking) (r : Option Marking) : Type 0 where
    pub result : Marking
    pub run : r ≡ some result
    pub safe : IsSafe result.heap
    pub blocks : result.heap.blocks ≡ w.heap.blocks
    pub progress : Progress all xs w result

  pub join :
      (all xs ys zs : List ℕ) (w v u : Marking)
      → ((s : ℕ) → In s zs → In s xs ⊎ In s ys)
      → Progress all xs w v
      → Progress all ys v u
      → Progress all zs w u
  join all xs ys zs w v u split (quiet e a) (quiet f b) = quiet (f ∙ e) (λ s i. elim (split s i) [
    | inl x ↦ a s x
    | inr y ↦ subst (λ m. is_markable ty has_ret m.heap s ≡ some false) e (b s y)
  ])
  join all xs ys zs w v u split (quiet e a) (moved c l) =
      moved c (subst (λ m. count u.heap all < count m.heap all) e l)
  join all xs ys zs w v u split (moved c l) (quiet f b) =
      moved (ap (λ m. m.changed) f ∙ c) (subst (λ m. count m.heap all < count w.heap all) (sym f) l)
  join all xs ys zs w v u split (moved c l) (moved d m) = moved d (omega (arith, l, m))

  pub not-In-nil : (t : ℕ) → In t [] → ⊥
  unfolding elem
  not-In-nil t i = cc

  pub mark_if-Ends :
      (all : List ℕ) (later : Bool) (s : ℕ) (w : Marking) (r : Option Bool)
      → In s all
      → IsSafe w.heap
      → is_markable ty has_ret w.heap s ≡ r
      → Ends all (s ∷ []) w (mark_if ty has_ret later s w r)
  mark_if-Ends all later s w none i ok e =
      absurd (markable_safe w.heap s (w.heap.nodes s).instr ok e)
  mark_if-Ends all later s w (some false) i ok e = record {
    result = w;
    run = refl;
    safe = ok;
    blocks = refl;
    progress = quiet refl λ t j. only t j;
  }
    where
      only : (t : ℕ) → In t (s ∷ []) → is_markable ty has_ret w.heap t ≡ some false
      only t j = elim (In-cons_cases t s [] j) [
        | inl same ↦ rw same e
        | inr none_left ↦ absurd (not-In-nil t none_left)
      ]
  mark_if-Ends all later s w (some true) i ok e =
      let one = markable_off w.heap s (w.heap.nodes s).instr e in
      record {
        result = marked ty has_ret later s w;
        run = refl;
        safe = set_stack-IsSafe s w.heap one ok;
        blocks = blocks-set_stack s w.heap;
        progress = moved refl (count-set_stack_lt ty has_ret s all w.heap i one);
      }
