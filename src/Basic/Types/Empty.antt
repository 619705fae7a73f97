-- ===== src/Basic/Types/Empty.antt =====
-- basic/basic.go: `EmptyType`, and the types that have no values to hold.
use pea_old.Prelude.{
  ℕ, zero, suc, ◌<◌, Bool, true, ◌&&◌, List, [], ◌∷◌, elem, ◌≡◌, ◌↔◌, ◌⊎◌, inl, inr, refl, arith,
  In, In-head, In-tail, In-cons_cases,
}
use pea_old.Basic.Types.{
  BuiltIn, user, ref_type, nil_type, Ty, no_built_in, is_nil, empty_leaf, all_empty, empty_by,
  empty_type,
}

is_nil-eq {ℓ} : {A : Type ℓ} (xs : List A) → is_nil xs ≡ true → xs ≡ []
is_nil-eq [] h = refl
is_nil-eq (x ∷ xs) h = cc

no_built_in-cases : (b : BuiltIn) → no_built_in b ≡ true → (b ≡ user) ⊎ (b ≡ nil_type)
no_built_in-cases user h = inl refl
no_built_in-cases nil_type h = inr refl
no_built_in-cases ref_type h = cc
no_built_in-cases _ h = cc

no_built_in_of_cases : (b : BuiltIn) → (b ≡ user) ⊎ (b ≡ nil_type) → no_built_in b ≡ true
no_built_in_of_cases b (inl e) = rw e refl
no_built_in_of_cases b (inr e) = rw e refl

true_of_and : (a b : Bool) → (a && b) ≡ true → (a ≡ true) × (b ≡ true)
true_of_and a b h = ground arith

-- A type with no cases and no virtual methods that is Nil or not built in.
pub record IsPlain (t : Ty) : Type 0 where
  pub no_cases : t.cases ≡ []
  pub no_virts : t.virts ≡ []
  pub nil_or_user : (t.built_in ≡ user) ⊎ (t.built_in ≡ nil_type)

empty_leaf-IsPlain : (t : Ty) → empty_leaf t ≡ true → IsPlain t
unfolding empty_leaf
empty_leaf-IsPlain t h =
    let (no_parts, plain) =
      true_of_and (is_nil t.cases && is_nil t.virts) (no_built_in t.built_in) h in
    let (no_cases, no_virts) = true_of_and (is_nil t.cases) (is_nil t.virts) no_parts in
    record {
      no_cases = is_nil-eq t.cases no_cases;
      no_virts = is_nil-eq t.virts no_virts;
      nil_or_user = no_built_in-cases t.built_in plain;
    }

IsPlain-empty_leaf : (t : Ty) → IsPlain t → empty_leaf t ≡ true
unfolding empty_leaf
IsPlain-empty_leaf t plain =
    rw (plain.no_cases, plain.no_virts) (no_built_in_of_cases t.built_in plain.nil_or_user)

module _ (ty : ℕ → Ty) where
  -- `u` is `t`, or the type of a field of a field, and so on, of `t`.
  pub data Inside : ℕ → ℕ → Type 0 where
    here : {t : ℕ} → Inside t t
    deeper : {t f u : ℕ} → In f (ty t).fields → Inside f u → Inside t u

  -- Whatever is inside the type and has no fields is plain.
  abbrev pub IsEmpty : ℕ → Type 0
  IsEmpty t = (u : ℕ) → Inside t u → (ty u).fields ≡ [] → IsPlain (ty u)

  all_empty_member :
      (g : ℕ → Bool) (ts : List ℕ) → all_empty g ts ≡ true → (t : ℕ) → In t ts → g t ≡ true
  unfolding all_empty elem
  all_empty_member g [] h t i = cc
  all_empty_member g (x ∷ xs) h t i =
      let (first, rest) = true_of_and (g x) (all_empty g xs) h in
      elim (In-cons_cases t x xs i) [
        | inl same ↦ rw same first
        | inr later ↦ all_empty_member g xs rest t later
      ]

  all_empty_of :
      (g : ℕ → Bool) (ts : List ℕ) → ((t : ℕ) → In t ts → g t ≡ true) → all_empty g ts ≡ true
  unfolding all_empty
  all_empty_of g [] h = refl
  all_empty_of g (t ∷ ts) h =
      ground (arith, h t (In-head t ts), all_empty_of g ts (λ x i. h x (In-tail x t ts i)))

  empty_by_member :
      (g : ℕ → Bool) (t : Ty) (ts : List ℕ)
      → empty_by g t ts ≡ true
      → (f : ℕ) → In f ts
      → g f ≡ true
  unfolding elem
  empty_by_member g t [] h f i = cc
  empty_by_member g t (x ∷ xs) h f i = all_empty_member g (x ∷ xs) h f i

  empty_by_of :
      (g : ℕ → Bool) (t : ℕ) (ts : List ℕ)
      → (ty t).fields ≡ ts
      → ((f : ℕ) → In f ts → g f ≡ true)
      → IsEmpty t
      → empty_by g (ty t) ts ≡ true
  empty_by_of g t [] e members empty = IsPlain-empty_leaf (ty t) (empty t here e)
  empty_by_of g t (x ∷ xs) e members empty = all_empty_of g (x ∷ xs) members

  sound : (fuel t : ℕ) → empty_type ty fuel t ≡ true → IsEmpty t
  unfolding empty_type
  sound zero t h u i e = cc
  sound (suc fuel) t h u here e = empty_leaf-IsPlain (ty t) (rw (e, empty_by) at h)
  sound (suc fuel) t h u (deeper {f = f} field i) e =
      sound fuel f (empty_by_member (empty_type ty fuel) (ty t) (ty t).fields h f field) u i e

  module _ (rank : ℕ → ℕ) (lower : (t f : ℕ) → In f (ty t).fields → rank f < rank t) where
    complete : (fuel t : ℕ) → rank t < fuel → IsEmpty t → empty_type ty fuel t ≡ true
    unfolding empty_type
    complete zero t l empty = absurd (omega arith)
    complete (suc fuel) t l empty =
        empty_by_of (empty_type ty fuel) t (ty t).fields refl
          (λ f i. complete fuel f (omega (arith, lower t f i)) (λ u j. empty u (deeper i j))) empty

    -- Where fields have a lower rank than what they are fields of, so that no type holds itself, and
    -- with fuel above the rank: `EmptyType` holds of a type exactly if every type without fields that
    -- is the type, or is reached from it through fields, has no cases, has no virtual methods, and is
    -- Nil or not built in.
    pub empty_type-IsEmpty :
        (fuel t : ℕ) → rank t < fuel → (empty_type ty fuel t ≡ true) ↔ IsEmpty t
    empty_type-IsEmpty fuel t h = (sound fuel t, complete fuel t h)
