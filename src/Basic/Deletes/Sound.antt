-- ===== src/Basic/Deletes/Sound.antt =====
-- basic/cleanup.go: `deleteValueAndUsers` and `unused`.
use pea_old.Prelude.{
  ℕ, ◌<◌, true, false, ◌||◌, List, [], ◌∷◌, ◌==◌, ◌≡◌, refl, sym, ap, ◌∙◌, arith, elem, In,
  In-cons_cases, Bool-cases, inl, inr,
}
use pea_old.Basic.Ir.{Instr, is_val, stores_to, alloc, uses, update, rm_user, Heap}
use pea_old.Basic.Ir.Users.{is_user}
use pea_old.Basic.Deletes.{
  delete, deleted, all_store, is_empty, unused_as, unused, Work, delete_users,
  delete_value_and_users,
}

pub deleted-delete : (s t : ℕ) (h : Heap) → deleted (delete s h) t ≡ (t == s || deleted h t)
unfolding delete update
deleted-delete s t h = ground arith

pub instr-delete : (s t : ℕ) (h : Heap) → ((delete s h).nodes t).instr ≡ (h.nodes t).instr
unfolding delete update
instr-delete s t h = ground arith

is_user-delete : (s t v : ℕ) (h : Heap) → is_user t v (delete s h) ≡ is_user t v h
unfolding delete update
is_user-delete s t v h = ground arith

pub deleted-rm_user : (v s t : ℕ) (h : Heap) → deleted (rm_user v s h) t ≡ deleted h t
unfolding rm_user update
deleted-rm_user v s t h = ground arith

delete_users-deleted :
    (us : List ℕ) (t : ℕ) (w : Work)
    → deleted (delete_users us w).heap t ≡ (elem t us || deleted w.heap t)
unfolding delete_users elem
delete_users-deleted [] t w = refl
delete_users-deleted (u ∷ us) t w = ground (
  arith,
  delete_users-deleted us t (record w { ds = u ∷ w.ds; heap = delete u w.heap }),
  deleted-delete u t w.heap,
)

delete_users-instr :
    (us : List ℕ) (t : ℕ) (w : Work)
    → ((delete_users us w).heap.nodes t).instr ≡ (w.heap.nodes t).instr
unfolding delete_users
delete_users-instr [] t w = refl
delete_users-instr (u ∷ us) t w =
    delete_users-instr us t (record w { ds = u ∷ w.ds; heap = delete u w.heap })
    ∙ instr-delete u t w.heap

delete_users-is_user :
    (us : List ℕ) (t v : ℕ) (w : Work) → is_user t v (delete_users us w).heap ≡ is_user t v w.heap
unfolding delete_users
delete_users-is_user [] t v w = refl
delete_users-is_user (u ∷ us) t v w =
    delete_users-is_user us t v (record w { ds = u ∷ w.ds; heap = delete u w.heap })
    ∙ is_user-delete u t v w.heap

delete_users-ds :
    (us : List ℕ) (t : ℕ) (w : Work) → elem t (delete_users us w).ds ≡ (elem t us || elem t w.ds)
unfolding delete_users elem
delete_users-ds [] t w = refl
delete_users-ds (u ∷ us) t w =
    ground (arith, delete_users-ds us t (record w { ds = u ∷ w.ds; heap = delete u w.heap }))

stores_to-is_val : (i : Instr) (v : ℕ) → stores_to i v ≡ true → is_val i ≡ false
unfolding stores_to is_val
stores_to-is_val i v h = ground arith

all_store-In :
    (h : Heap) (v x : ℕ) (us : List ℕ)
    → all_store h v us ≡ true
    → In x us
    → is_val (h.nodes x).instr ≡ false
unfolding all_store elem
all_store-In h v x [] s i = cc
all_store-In h v x (u ∷ us) s i = elim (In-cons_cases x u us i) [
  | inl e ↦ rw e (stores_to-is_val (h.nodes u).instr v (ground arith))
  | inr later ↦ all_store-In h v x us (ground arith) later
]

is_empty-In : (x : ℕ) (us : List ℕ) → is_empty us ≡ true → elem x us ≡ false
unfolding elem
is_empty-In x [] h = refl
is_empty-In x (u ∷ us) h = cc

-- What uses an unused value is no value.
unused-In :
    (h : Heap) (v x : ℕ)
    → unused h v ≡ true
    → is_user x v h ≡ true
    → is_val (h.nodes x).instr ≡ false
unfolding unused
unused-In h v x u i = by_kind (h.nodes v).instr u
  where
    none_there : is_empty (h.nodes v).users ≡ true → is_val (h.nodes x).instr ≡ false
    none_there e = ground (arith, is_empty-In x (h.nodes v).users e)

    by_kind : (k : Instr) → unused_as h v k ≡ true → is_val (h.nodes x).instr ≡ false
    by_kind (alloc stack var) e = all_store-In h v x (h.nodes v).users (unfold unused_as in e) i
    by_kind other e = none_there (unfold unused_as in e)

-- The users of a deleted value are deleted; what is left is a user of all that it uses, which are
-- values numbered below `n`; what waits is deleted.
pub record IsSound (n : ℕ) (w : Work) : Type 0 where
  pub dead :
      (v t : ℕ)
      → is_val (w.heap.nodes v).instr ≡ true
      → deleted w.heap v ≡ true
      → is_user t v w.heap ≡ true
      → deleted w.heap t ≡ true
  pub linked :
      (t v : ℕ)
      → deleted w.heap t ≡ false
      → In v (uses (w.heap.nodes t).instr)
      → is_user t v w.heap ≡ true
  pub typed :
      (t v : ℕ)
      → In v (uses (w.heap.nodes t).instr)
      → (v < n) × (is_val (w.heap.nodes v).instr ≡ true)
  pub stack : (t : ℕ) → In t w.ds → deleted w.heap t ≡ true

module _ (v : ℕ) (w : Work) where
  abbrev pub gone : Work
  gone = delete_value_and_users v w

  pub gone-deleted :
      (t : ℕ) → deleted gone.heap t ≡ (is_user t v w.heap || t == v || deleted w.heap t)
  unfolding delete_value_and_users
  gone-deleted t = ground (
    arith,
    delete_users-deleted (w.heap.nodes v).users t
        (record w { ds = v ∷ w.ds; heap = delete v w.heap }),
    deleted-delete v t w.heap,
  )

  pub gone-instr : (t : ℕ) → (gone.heap.nodes t).instr ≡ (w.heap.nodes t).instr
  unfolding delete_value_and_users
  gone-instr t =
      delete_users-instr (w.heap.nodes v).users t
        (record w { ds = v ∷ w.ds; heap = delete v w.heap })
      ∙ instr-delete v t w.heap

  gone-is_user : (t x : ℕ) → is_user t x gone.heap ≡ is_user t x w.heap
  unfolding delete_value_and_users
  gone-is_user t x =
      delete_users-is_user (w.heap.nodes v).users t x
        (record w { ds = v ∷ w.ds; heap = delete v w.heap })
      ∙ is_user-delete v t x w.heap

  gone-ds : (t : ℕ) → elem t gone.ds ≡ (is_user t v w.heap || t == v || elem t w.ds)
  unfolding delete_value_and_users elem
  gone-ds t = ground (
    arith,
    delete_users-ds (w.heap.nodes v).users t (record w { ds = v ∷ w.ds; heap = delete v w.heap }),
  )

  pub gone-IsSound : {n : ℕ} → unused w.heap v ≡ true → IsSound n w → IsSound n gone
  gone-IsSound u s = record {
    dead = λ x t val del user.
        dead_gone x t (rw (← gone-instr x) val) (sym (gone-deleted x) ∙ del)
          (sym (gone-is_user t x) ∙ user);
    linked = λ t x left i.
        gone-is_user t x ∙ s.linked t x (ground (arith, gone-deleted t)) (rw (gone-instr t) at i);
    typed = λ t x i.
        (let (small, val) = s.typed t x (rw (gone-instr t) at i) in (small, rw (gone-instr x) val));
    stack = λ t i. ground (arith, gone-deleted t, gone-ds t, s.stack t);
  }
    where
      dead_gone :
          (x t : ℕ)
          → is_val (w.heap.nodes x).instr ≡ true
          → (is_user x v w.heap || x == v || deleted w.heap x) ≡ true
          → is_user t x w.heap ≡ true
          → deleted gone.heap t ≡ true
      dead_gone x t val del user = elim (Bool-cases (x == v)) [
        | inl hit ↦
            let q : x ≡ v = ground arith in
            ground (arith, gone-deleted t, ap (λ y. is_user t y w.heap) q)
        | inr miss ↦ ground (arith, gone-deleted t, unused-In w.heap v x u, s.dead x t val)
      ]
