-- ===== src/Basic/Deletes/Propagate.antt =====
-- basic/cleanup.go: the loop of `propagateDeletes`.
use pea_old.Prelude.{
  ℕ, zero, suc, ◌+◌, ◌≤◌, ◌<◌, true, false, not, ◌&&◌, List, [], ◌∷◌, length, some, ◌==◌, ◌≡◌, refl,
  sym, ap, ◌∙◌, arith, In, Bool-cases, inl, inr, In-head, In-tail,
}
use pea_old.Basic.Ir.{is_val, uses, rm_user}
use pea_old.Basic.Ir.Users.{is_user, is_user-rm_user, instr-rm_user}
use pea_old.Basic.Deletes.{
  deleted, unused, Work, delete_value_and_users, Funs, drop_fun, release, release_all, propagate,
}
use pea_old.Basic.Deletes.Weight.{weight, weight-le, cost-rm_user, delete_value_and_users-weight}
use pea_old.Basic.Deletes.Sound.{IsSound, deleted-rm_user, gone-instr, gone-deleted, gone-IsSound}

abbrev pub measure : ℕ → Work → ℕ
measure n w = length w.ds + weight n w.heap

-- What each step keeps.
pub record IsStep (n : ℕ) (w w' : Work) : Type 0 where
  pub sound : IsSound n w'
  pub instrs : (t : ℕ) → (w'.heap.nodes t).instr ≡ (w.heap.nodes t).instr
  pub more : (t : ℕ) → deleted w.heap t ≡ true → deleted w'.heap t ≡ true
  pub less : measure n w' ≤ measure n w

IsStep-trans : (n : ℕ) (w w1 w2 : Work) → IsStep n w w1 → IsStep n w1 w2 → IsStep n w w2
IsStep-trans n w w1 w2 p q = record {
  sound = q.sound;
  instrs = λ t. q.instrs t ∙ p.instrs t;
  more = λ t h. q.more t (p.more t h);
  less = omega (arith, p.less, q.less);
}

abbrev released : ℕ → ℕ → Work → Work
released d u w = record w { heap = rm_user u d w.heap }

released-IsStep :
    (n d u : ℕ) (w : Work) → IsSound n w → deleted w.heap d ≡ true → IsStep n w (released d u w)
released-IsStep n d u w s del = record {
  sound = record {
    dead = λ v t val gone user.
        deleted-rm_user u d t w.heap
        ∙ s.dead v t (sym (ap is_val (instr-rm_user u d v w.heap)) ∙ val)
            (sym (deleted-rm_user u d v w.heap) ∙ gone)
            (ground (arith, is_user-rm_user t v u d w.heap));
    linked = λ t v left i.
        is_user-rm_user t v u d w.heap
        ∙ still t v (sym (deleted-rm_user u d t w.heap) ∙ left)
            (rw (instr-rm_user u d t w.heap) at i);
    typed = λ t v i.
        rw (instr-rm_user u d v w.heap) (s.typed t v (rw (instr-rm_user u d t w.heap) at i));
    stack = λ t i. deleted-rm_user u d t w.heap ∙ s.stack t i;
  };
  instrs = λ t. instr-rm_user u d t w.heap;
  more = λ t h. deleted-rm_user u d t w.heap ∙ h;
  less = omega (arith, weight-le n w.heap (rm_user u d w.heap) (λ v. cost-rm_user u d v w.heap));
}
  where
    still :
        (t v : ℕ)
        → deleted w.heap t ≡ false
        → In v (uses (w.heap.nodes t).instr)
        → (is_user t v w.heap && not ((v == u) && (t == d))) ≡ true
    still t v left i = elim (Bool-cases (t == d)) [
      | inl hit ↦ let q : t ≡ d = ground arith in ground (arith, ap (deleted w.heap) q)
      | inr miss ↦ ground (arith, s.linked t v left i)
    ]

gone-IsStep :
    (n v : ℕ) (w : Work)
    → IsSound n w
    → v < n
    → deleted w.heap v ≡ false
    → unused w.heap v ≡ true
    → IsStep n w (delete_value_and_users v w)
gone-IsStep n v w s small left u = record {
  sound = gone-IsSound v w u s;
  instrs = gone-instr v w;
  more = λ t h. ground (arith, gone-deleted v w t);
  less = delete_value_and_users-weight n v w small left;
}

module _ (funs : Funs) (n : ℕ) where
  release-IsStep :
      (d u : ℕ) (w : Work)
      → IsSound n w
      → deleted w.heap d ≡ true
      → u < n
      → IsStep n w (release funs d u w)
  unfolding release
  release-IsStep d u w s del small =
      let first = released-IsStep n d u w s del in
      elim (Bool-cases (not (deleted (released d u w).heap u) && unused (released d u w).heap u)) [
        | inl drop ↦ rw drop (
            IsStep-trans n w (released d u w) (delete_value_and_users u (released d u w)) first
              (gone-IsStep n u (released d u w) first.sound small (ground arith) (ground arith)))
        | inr stay ↦ rw stay first
      ]

  release_all-IsStep :
      (d : ℕ) (us : List ℕ) (w : Work)
      → IsSound n w
      → deleted w.heap d ≡ true
      → ((u : ℕ) → In u us → u < n)
      → IsStep n w (release_all funs d us w)
  unfolding release_all
  release_all-IsStep d [] w s del small = record {
    sound = s;
    instrs = λ t. refl;
    more = λ t h. h;
    less = omega arith;
  }
  release_all-IsStep d (u ∷ us) w s del small =
      let first = release-IsStep d u w s del (small u (In-head u us)) in
      IsStep-trans n w (release funs d u w) (release_all funs d us (release funs d u w)) first (
        release_all-IsStep d us (release funs d u w) first.sound (first.more d del)
          (λ x h. small x (In-tail x u us h)))

  -- The turn of the loop for the top of the stack.
  pop-IsStep :
      (d : ℕ) (ds fs : List ℕ) (w : Work)
      → IsSound n w
      → w.ds ≡ d ∷ ds
      → IsSound n (record w { ds = ds; dropped = fs })
        × (deleted w.heap d ≡ true)
        × (suc (measure n (record w { ds = ds; dropped = fs })) ≤ measure n w)
  pop-IsStep d ds fs w s e = (
    record {
      dead = s.dead;
      linked = s.linked;
      typed = s.typed;
      stack = λ t i. s.stack t (rw e (In-tail t d ds i));
    },
    s.stack d (rw e (In-head d ds)),
    omega (arith, ap length e),
  )

  -- The loop returns, and keeps what each turn keeps.
  abbrev pub IsPropagated : ℕ → Work → Type 0
  IsPropagated fuel w =
      (w' : Work) × (propagate funs fuel w ≡ some w')
      × IsSound n w'
      × ((t : ℕ) → (w'.heap.nodes t).instr ≡ (w.heap.nodes t).instr)
      × ((t : ℕ) → deleted w.heap t ≡ true → deleted w'.heap t ≡ true)

  -- One turn, given the next ones.
  propagate-turn :
      (fuel : ℕ) (w : Work)
      → IsSound n w
      → measure n w < suc fuel
      → ((w1 : Work) → IsSound n w1 → measure n w1 < fuel → IsPropagated fuel w1)
      → (ds : List ℕ) → w.ds ≡ ds
      → IsPropagated (suc fuel) w
  unfolding propagate
  propagate-turn fuel w s h next [] e = (w, simp (e, propagate), s, λ t. refl, λ t d. d)
  propagate-turn fuel w s h next (d ∷ ds) e =
      let i = (w.heap.nodes d).instr in
      let fs = drop_fun funs i w.dropped in
      let (s1, del, less) = pop-IsStep d ds fs w s e in
      let step =
        release_all-IsStep d (uses i) (record w { ds = ds; dropped = fs }) s1 del
          (λ u m. (s.typed d u m).0) in
      let (w', eq, s', instrs, more) =
        next (release_all funs d (uses i) (record w { ds = ds; dropped = fs })) step.sound
          (omega (arith, step.less)) in
      (w', rw (e, propagate) eq, s', λ t. instrs t ∙ step.instrs t, λ t g. more t (step.more t g))

  pub propagate_lem : (fuel : ℕ) (w : Work) → IsSound n w → measure n w < fuel → IsPropagated fuel w
  propagate_lem zero w s h = absurd (omega arith)
  propagate_lem (suc fuel) w s h = propagate-turn fuel w s h (propagate_lem fuel) w.ds refl
