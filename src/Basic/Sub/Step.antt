-- ===== src/Basic/Sub/Step.antt =====
-- basic/sub.go: `sub1`.
use pea_old.Prelude.{
  ℕ, ◌<◌, true, false, not, ◌&&◌, ◌||◌, List, ◌∷◌, some, ◌==◌, if◌then◌else◌, ◌≡◌, ◌≢◌, refl, ◌∙◌,
  arith, elem,
}
use mathlib.Core.Path.{fun_ext}
use pea_old.Basic.Ir.{Heap, add_user, rm_user, update}
use pea_old.Basic.Ir.Users.{
  is_user, is_user-add_user, is_user-rm_user, instr-add_user, instr-rm_user,
}
use pea_old.Basic.Sub.{ValMap, State, M, ◌>>=◌, pure, num_of, replace, sub1}
use pea_old.Basic.Sub.Resolve.{IsMap, get_lem, final_idem}

pub num-replace : (s v u w : ℕ) (h : Heap) → num_of (replace s v u h) w ≡ num_of h w
unfolding replace add_user rm_user update
num-replace s v u w h = ground arith

instr-replace : (s v u w : ℕ) (h : Heap) → ((replace s v u h).nodes w).instr ≡ (h.nodes w).instr
unfolding replace
instr-replace s v u w h =
    ground (arith, instr-add_user u s w (rm_user v s h), instr-rm_user v s w h)

-- Who uses what after one field of `s` went from `v` to `u`.
is_user-replace :
    (s v u t w : ℕ) (h : Heap)
    → is_user t w (replace s v u h) ≡ (
        if v == u
        then is_user t w h
        else is_user t w h && not ((w == v) && (t == s)) || (w == u) && (t == s))
unfolding replace
is_user-replace s v u t w h =
    ground (arith, is_user-add_user t w u s (rm_user v s h), is_user-rm_user t w v s h)

module _ (num rank final : ℕ → ℕ) (fuel s : ℕ) (enough : (v : ℕ) → rank v < fuel) where
  -- On the way through the fields of `s`, with `fields` those seen already, as they are now, and
  -- those to come: a value that stands for itself has `s` among its users exactly if a field
  -- holds it; any other value has `s` among its users only if a field to come holds it.
  pub record IsMidway (before : Heap) (fields ahead : List ℕ) (st : State) : Type 0 where
    pub ok : IsMap num rank final st.map
    pub nums : (w : ℕ) → num_of st.heap w ≡ num w
    pub instrs : (w : ℕ) → (st.heap.nodes w).instr ≡ (before.nodes w).instr
    pub others : (t w : ℕ) → (t == s) ≡ false → is_user t w st.heap ≡ is_user t w before
    pub settled : (w : ℕ) → final w ≡ w → is_user s w st.heap ≡ (elem w fields || elem w ahead)
    pub replaced : (w : ℕ) → final w ≢ w → is_user s w st.heap ≡ true → elem w ahead ≡ true

  replace-replaced :
      (before : Heap) (fields ahead : List ℕ) (v : ℕ) (st : State) (m' : ValMap)
      → IsMidway before fields (v ∷ ahead) st
      → IsMap num rank final m'
      → IsMidway before
          (final v ∷ fields)
          ahead
          (record { heap = replace s v (final v) st.heap; map = m' })
  unfolding elem
  replace-replaced before fields ahead v st m' mid ok = record {
    ok = ok;
    nums = λ w. num-replace s v (final v) w st.heap ∙ mid.nums w;
    instrs = λ w. instr-replace s v (final v) w st.heap ∙ mid.instrs w;
    others = λ t w h. ground (arith, is_user-replace s v (final v) t w st.heap, mid.others t w);
    settled = λ w h. ground (arith, is_user-replace s v (final v) s w st.heap, mid.settled w h);
    replaced = λ w h u. ground (
      arith,
      is_user-replace s v (final v) s w st.heap,
      mid.replaced w h,
      final_idem num rank final st.map mid.ok v,
    );
  }

  -- `m` returns `a` and goes through the fields from `ahead` to `ahead'`.
  pub record Runs {A : Type 0} (before : Heap) (m : M A) (a : A)
      (fields ahead fields' ahead' : List ℕ) : Type 0 where
    pub run :
        (st : State)
        → IsMidway before fields ahead st
        → (st' : State) × (m st ≡ some (a, st')) × IsMidway before fields' ahead' st'

  pub Runs-pure :
      {A : Type 0} (before : Heap) (a : A) (fields ahead : List ℕ)
      → Runs before (pure a) a fields ahead fields ahead
  Runs-pure before a fields ahead = record { run = λ st mid. (st, refl, mid) }

  pub Runs-bind :
      {A B : Type 0} (before : Heap) (m : M A) (f : A → M B) (a : A) (b : B)
      (f0 a0 f1 a1 f2 a2 : List ℕ)
      → Runs before m a f0 a0 f1 a1
      → Runs before (f a) b f1 a1 f2 a2
      → Runs before (m >>= f) b f0 a0 f2 a2
  Runs-bind before m f a b f0 a0 f1 a1 f2 a2 h k = record {
    run = λ st mid.
        let (st1, e1, mid1) = h.run st mid in
        let (st2, e2, mid2) = k.run st1 mid1 in (st2, rw (e1, ◌>>=◌) e2, mid2);
  }

  pub Runs-sub1 :
      (before : Heap) (v : ℕ) (fields ahead : List ℕ)
      → Runs before (sub1 fuel s v) (final v) fields (v ∷ ahead) (final v ∷ fields) ahead
  unfolding sub1
  Runs-sub1 before v fields ahead = record {
    run = λ st mid.
        let same : num_of st.heap ≡ num = fun_ext mid.nums in
        let (m', e, ok) = get_lem num rank final fuel v st.map mid.ok (enough v) in
        (
          record { heap = replace s v (final v) st.heap; map = m' },
          rw (same, e),
          replace-replaced before fields ahead v st m' mid ok,
        );
  }
