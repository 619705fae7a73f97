-- ===== src/Basic/Bugs/Safe.antt =====
-- basic/bugs.go: the checks do not panic of themselves, which `recoverBug` would hide.
use pea_old.Prelude.{
  ◌||◌, ℕ, zero, suc, Bool, true, false, not, List, [], ◌∷◌, Option, none, some, ◌==◌, leb, length,
  get_elem?, ◌≡◌, refl, sym, ap, arith, Bool-cases, inl, inr, some_cancel,
}
use pea_old.Prelude.Int.{ℤ, pos, negsuc, ltb_ℤ}
use mathlib.Core.Path.{subst}
use pea_old.Basic.Ir.{
  Instr, store, copy, make_array, new_array, make_slice, make_string, make_and, make_or, make_virt,
  call, virt_call, switch, op, load, index, field,
}
use pea_old.Basic.Types.{BuiltIn, Ty, Virt, is_ref_type, is_nil, empty_type}
use pea_old.Basic.Checks.{
  Bug, not_reference, not_array, bad_tag, not_virtual, out_of_bounds, type_mismatch, count_mismatch,
  Check, pass, bug, fault, ◌>>=◌, ◌>>◌, bug_if, at, FunTypes, with_ret, is_array, is_block, is_ref,
  elem_of, wants_ref, check_elems, empty_capture, check_nil_field, check_field, check_fields,
  get_virt, check_case, strip_last, strip_ret, held_all, check_virt, check_op_args, check_index,
  same_types,
}
use pea_old.Basic.Bugs.{check}

-- The check passes or stops at a bug.
pub data IsSafe {ℓ} {A : Type ℓ} : Check A → Type ℓ where
  passed : {a : A} → IsSafe (pass a)
  stopped : {b : Bug} → IsSafe (bug b)

safe_fault {ℓ κ} : {A : Type ℓ} {B : Type κ} → IsSafe {A = A} fault → B
safe_fault h = elim h [ ]

bind {ℓ κ} :
    {A : Type ℓ} {B : Type κ} (m : Check A) (f : A → Check B)
    → IsSafe m
    → ((a : A) → m ≡ pass a → IsSafe (f a))
    → IsSafe (m >>= f)
bind (pass a) f p q = q a refl
bind (bug b) f p q = stopped
bind fault f p q = safe_fault p

bug_if-IsSafe : (c : Bool) (b : Bug) → IsSafe (bug_if c b)
bug_if-IsSafe true b = stopped
bug_if-IsSafe false b = passed

-- A bug that stops the check, or the rest, where the test is false.
guard {ℓ} :
    {B : Type ℓ} {k : Check B} (c : Bool) (b : Bug)
    → (c ≡ false → IsSafe k)
    → IsSafe (bug_if c b >> k)
guard true b q = stopped
guard false b q = q refl

ruleset safety = (guard, bind, bug_if-IsSafe, passed, stopped)

same_types-IsSafe : (xs ts : List ℕ) → length xs ≡ length ts → IsSafe (same_types xs ts)
unfolding same_types
same_types-IsSafe [] ts e = passed
same_types-IsSafe (x ∷ xs) [] e = absurd (omega (arith, e))
same_types-IsSafe (x ∷ xs) (t ∷ ts) e =
    guard (not (x == t)) type_mismatch λ h. same_types-IsSafe xs ts (omega (arith, e))

counted :
    (xs ts : List ℕ) (n : ℕ)
    → length ts ≡ n
    → IsSafe (bug_if (not (length xs == n)) count_mismatch >> same_types xs ts)
counted xs ts n e =
    guard (not (length xs == n)) count_mismatch λ h. same_types-IsSafe xs ts (ground arith)

with_elem {ℓ κ} :
    {A : Type ℓ} {B : Type κ} (o : Option A) (f : A → Check B)
    → (a : A) → o ≡ some a
    → IsSafe (f a)
    → IsSafe (at o >>= f)
with_elem none f a e q = cc
with_elem (some b) f a e q = subst (λ x. IsSafe (f x)) (some_cancel (sym e)) q

true_of_not : (b : Bool) → not b ≡ false → b ≡ true
true_of_not true h = refl
true_of_not false h = cc

get_elem?-below {ℓ} :
    {A : Type ℓ} (xs : List A) (i : ℕ)
    → leb (length xs) i ≡ false
    → (x : A) × (get_elem? xs i ≡ some x)
get_elem?-below [] i h = absurd (ground arith)
get_elem?-below (x ∷ xs) zero h = (x, refl)
get_elem?-below (x ∷ xs) (suc i) h = get_elem?-below xs i (ground arith)

-- References and arrays have an argument, the type of what they hold.
pub record HaveElems (ty : ℕ → Ty) : Type 0 where
  pub of_ref :
      (t : ℕ) → is_ref_type (ty t).built_in ≡ true → (e : ℕ) × (get_elem? (ty t).args 0 ≡ some e)
  pub of_array :
      (t : ℕ) → is_array (ty t).built_in ≡ true → (e : ℕ) × (get_elem? (ty t).args 0 ≡ some e)

module _ (ty : ℕ → Ty) (funs : ℕ → FunTypes) (fuel : ℕ) where
  get_virt-below :
      (virts : List Virt) (i : ℤ)
      → (ltb_ℤ i (pos 0) || not (ltb_ℤ i (pos (length virts)))) ≡ false
      → (v : Virt) × (get_virt ty funs fuel virts i ≡ some v)
  get_virt-below virts (pos i) h = get_elem?-below virts i (ground arith)
  get_virt-below virts (negsuc i) h = absurd (ground arith)

  -- What a check reads without a test: the object of a virtual value, the receiver of a virtual
  -- call, and the location of its result where the method has a result that is not empty.
  abbrev pub HasParts : Instr → Type 0
  HasParts (make_virt dst obj virts) = (o : ℕ) × (obj ≡ some o)
  HasParts (virt_call self i args) =
      (recv : ℕ) × (rest : List ℕ) × (args ≡ recv ∷ rest)
      × ((e r : ℕ) (v : Virt)
          → get_elem? (ty recv).args 0 ≡ some e
          → get_virt ty funs fuel (ty e).virts i ≡ some v
          → v.ret ≡ some r
          → empty_type ty fuel r ≡ false
          → is_nil rest ≡ false)
  HasParts _ = Unit

  module _ (ok : HaveElems ty) where
    elem_of_ref :
        {B : Type 0} (t : ℕ) (f : ℕ → Check B)
        → is_ref_type (ty t).built_in ≡ true
        → ((e : ℕ) → get_elem? (ty t).args 0 ≡ some e → IsSafe (f e))
        → IsSafe (elem_of ty funs fuel t >>= f)
    elem_of_ref t f r q = let (e, there) = ok.of_ref t r in with_elem _ f e there (q e there)

    length-held_all : (ts : List ℕ) → length (held_all ty funs fuel ts) ≡ length ts
    unfolding held_all
    length-held_all [] = refl
    length-held_all (t ∷ ts) = ap suc (length-held_all ts)

    strip_last-IsSafe : (xs : List ℕ) → is_nil xs ≡ false → IsSafe (strip_last ty funs fuel xs)
    unfolding strip_last
    strip_last-IsSafe [] h = cc
    strip_last-IsSafe (x ∷ []) h = passed
    strip_last-IsSafe (x ∷ y ∷ xs) h =
        bind (strip_last ty funs fuel (y ∷ xs)) (λ rest. pass (x ∷ rest))
          (strip_last-IsSafe (y ∷ xs) refl) λ rest e. passed

    with_ref :
        {B : Type 0} (b : Bug) (t : ℕ) (f : ℕ → Check B)
        → ((e : ℕ) → get_elem? (ty t).args 0 ≡ some e → IsSafe (f e))
        → IsSafe (wants_ref ty funs fuel b t >>= f)
    with_ref b t f q = elim (Bool-cases (is_ref ty funs fuel t)) [
      | inl r ↦ let (e, there) = ok.of_ref t r in rw (r, there) (q e there)
      | inr n ↦ rw n stopped
    ]

    check_elems-IsSafe : (elm : ℕ) (xs : List ℕ) → IsSafe (check_elems ty funs fuel elm xs)
    unfolding check_elems
    check_elems-IsSafe elm [] = passed
    check_elems-IsSafe elm (x ∷ xs) = search (safety, check_elems-IsSafe elm xs)

    empty_capture-IsSafe : (b : BuiltIn) (f : ℕ) → IsSafe (empty_capture ty funs fuel b f)
    empty_capture-IsSafe b f = elim (Bool-cases (is_block b)) [
      | inr n ↦ rw n passed
      | inl y ↦ rw y (elim (Bool-cases (is_ref_type (ty f).built_in)) [
        | inr n ↦ rw n passed
        | inl r ↦ let (e, there) = ok.of_ref f r in rw (r, there) passed
      ])
    ]

    check_nil_field-IsSafe : (b : BuiltIn) (f : ℕ) → IsSafe (check_nil_field ty funs fuel b f)
    check_nil_field-IsSafe b f = elim (Bool-cases (empty_type ty fuel f)) [
      | inl y ↦ rw y passed
      | inr n ↦ rw n (
          bind (empty_capture ty funs fuel b f) _ (empty_capture-IsSafe b f)
            λ c e. bug_if-IsSafe (not c) type_mismatch)
    ]

    check_field-IsSafe :
        (b : BuiltIn) (f : ℕ) (o : Option ℕ) → IsSafe (check_field ty funs fuel b f o)
    check_field-IsSafe b f none = check_nil_field-IsSafe b f
    check_field-IsSafe b f (some a) = search safety

    check_fields-IsSafe :
        (b : BuiltIn) (fs : List ℕ) (xs : List (Option ℕ))
        → IsSafe (check_fields ty funs fuel b fs xs)
    unfolding check_fields
    check_fields-IsSafe b [] xs = passed
    check_fields-IsSafe b (f ∷ fs) [] = stopped
    check_fields-IsSafe b (f ∷ fs) (a ∷ xs) =
        bind (check_field ty funs fuel b f a) _ (check_field-IsSafe b f a)
          λ u e. check_fields-IsSafe b fs xs

    check_case-IsSafe : (c a : Option ℕ) → IsSafe (check_case ty funs fuel c a)
    check_case-IsSafe none none = passed
    check_case-IsSafe (some c) none = bug_if-IsSafe _ type_mismatch
    check_case-IsSafe none (some a) = stopped
    check_case-IsSafe (some c) (some a) = search safety

    check_op_args-IsSafe : (code : ℕ) (xs : List ℕ) → IsSafe (check_op_args ty funs fuel code xs)
    unfolding check_op_args
    check_op_args-IsSafe code [] = passed
    check_op_args-IsSafe code (x ∷ xs) = search (safety, check_op_args-IsSafe code xs)

    check_index-IsSafe : (t : Ty) (i : ℕ) → IsSafe (check_index ty funs fuel t i)
    check_index-IsSafe t i = elim (Bool-cases (is_block t.built_in)) [
      | inl y ↦ rw y (bug_if-IsSafe _ _)
      | inr n ↦ rw n (elim (Bool-cases (is_nil t.cases)) [
        | inr c ↦ rw c (bug_if-IsSafe _ _)
        | inl c ↦ rw c (elim (Bool-cases (is_nil t.fields)) [
          | inr g ↦ rw g (bug_if-IsSafe _ _)
          | inl g ↦ rw g passed
        ])
      ])
    ]

    strip_ret-IsSafe :
        (o : Option ℕ) (xs : List ℕ)
        → ((r : ℕ) → o ≡ some r → empty_type ty fuel r ≡ false → is_nil xs ≡ false)
        → IsSafe (strip_ret ty funs fuel o xs)
    strip_ret-IsSafe none xs h = passed
    strip_ret-IsSafe (some r) xs h = elim (Bool-cases (empty_type ty fuel r)) [
      | inl y ↦ rw y passed
      | inr n ↦ rw n (strip_last-IsSafe xs (h r refl n))
    ]

    check_virt-IsSafe :
        (v : Virt) (xs : List ℕ)
        → ((r : ℕ) → v.ret ≡ some r → empty_type ty fuel r ≡ false → is_nil xs ≡ false)
        → IsSafe (check_virt ty funs fuel v xs)
    check_virt-IsSafe v xs h =
        bind (strip_ret ty funs fuel v.ret xs) _ (strip_ret-IsSafe v.ret xs h) λ checked e.
          counted checked (held_all ty funs fuel v.parms) (length v.parms) (length-held_all v.parms)

    -- Where references and arrays have the type of what they hold, and a statement has the parts that
    -- are read of it without a test, its check passes or stops at a bug: it does not panic of itself.
    pub check-IsSafe : (own : ℕ) (i : Instr) → HasParts i → IsSafe (check ty funs fuel own i)
    unfolding check
    check-IsSafe own (store dst val) parts = with_ref _ dst _ λ e there. bug_if-IsSafe _ _
    check-IsSafe own (copy dst src) parts =
        guard (not (is_ref_type (ty dst).built_in)) not_reference λ d.
          guard (not (is_ref_type (ty src).built_in)) not_reference λ s.
            elem_of_ref dst _ (true_of_not _ d)
              λ e1 there1. elem_of_ref src _ (true_of_not _ s) λ e2 there2. bug_if-IsSafe _ _
    check-IsSafe own (make_array dst args) parts = with_ref _ dst _ λ e there.
        guard (not (is_array (ty e).built_in)) not_array λ a.
          let (elm, holds) = ok.of_array e (true_of_not _ a) in
          with_elem _ _ elm holds (check_elems-IsSafe elm args)
    check-IsSafe own (new_array dst size) parts = with_ref _ dst _ λ e there. search safety
    check-IsSafe own (make_slice dst ary from to) parts =
        with_ref _ dst _ λ e there. search (safety, with_ref)
    check-IsSafe own (make_string dst str) parts = with_ref _ dst _ λ e there. bug_if-IsSafe _ _
    check-IsSafe own (make_and dst fields b) parts =
        with_ref _ dst _ λ e there. check_fields-IsSafe (ty e).built_in (ty e).fields fields
    check-IsSafe own (make_or dst cas val) parts = with_ref _ dst _ λ e there. guard _ bad_tag λ h.
        let (c, case) = get_elem?-below (ty e).cases cas h in
        with_elem _ _ c case (check_case-IsSafe c val)
    check-IsSafe own (make_virt dst obj virts) (o, e) =
        rw e (with_ref _ dst _ λ t there. search safety)
    check-IsSafe own (call fun args) parts =
        counted args (with_ret (funs fun).parms (funs fun).ret) _ refl
    check-IsSafe own (virt_call self i args) (recv, rest, e, loc) = rw e (
        with_ref not_reference recv _ λ t there. guard (is_nil (ty t).virts) not_virtual λ h.
          guard (ltb_ℤ i (pos 0) || not (ltb_ℤ i (pos (length (ty t).virts)))) out_of_bounds
            λ bounds.
              let (v, virt) = get_virt-below (ty t).virts i bounds in
              with_elem _ (λ virt. check_virt ty funs fuel virt rest) v virt
                (check_virt-IsSafe v rest λ r is_ret. loc t r v there virt is_ret))
    check-IsSafe own (switch v dsts) parts = search safety
    check-IsSafe own (op code args) parts = check_op_args-IsSafe code args
    check-IsSafe own (load src) parts = with_ref _ src _ λ e there. bug_if-IsSafe _ _
    check-IsSafe own (index ary i) parts = with_ref _ ary _ λ e there. search safety
    check-IsSafe own (field obj i) parts = with_ref _ obj _ λ e there. check_index-IsSafe (ty e) i
    check-IsSafe own other parts = passed
