-- ===== src/Types/Ground/Kept.antt =====
-- types/inst.go: unification binds type parameters to types without type variables, if the type that
-- the pattern is to be is one.
use pea_old.Prelude.{
  ℕ, zero, suc, Bool, true, ◌&&◌, List, [], ◌∷◌, ◌++◌, Option, none, some, ◌==◌, ◌≡◌, refl, ap,
  arith, Bool-cases, inl, inr, some_cancel,
}
use mathlib.Core.Path.{subst}
use pea_old.Types.Tree.{TypeDef}
use pea_old.Types.Unify.{
  Mismatch, bound, different, SubMap, put, Unified, ok, failed, ◌>>=◌, same_pointer, same_head,
  bind_parm, unify_args, unify_heads, unify_var, unify,
}
use pea_old.Types.Ground.{all_types, no_var, is_ground_type}

true_of_and : (a b : Bool) → (a && b) ≡ true → (a ≡ true) × (b ≡ true)
true_of_and a b h = ground arith

all_types_mono :
    (f g : Option ℕ → Bool)
    → ((t : Option ℕ) → f t ≡ true → g t ≡ true)
    → (ts : List (Option ℕ)) → all_types f ts ≡ true
    → all_types g ts ≡ true
unfolding all_types
all_types_mono f g h [] e = refl
all_types_mono f g h (t ∷ ts) e =
    let (first, rest) = true_of_and (f t) (all_types f ts) e in
    ground (arith, h t first, all_types_mono f g h ts rest)

module _ (ty : ℕ → TypeDef) where
  is_ground_type-suc :
      (fuel : ℕ) (t : Option ℕ)
      → is_ground_type ty fuel t ≡ true
      → is_ground_type ty (suc fuel) t ≡ true
  unfolding is_ground_type
  is_ground_type-suc zero t h = cc
  is_ground_type-suc (suc fuel) none h = cc
  is_ground_type-suc (suc fuel) (some t) h =
      let (var, all) =
        true_of_and (no_var (ty t).var) (all_types (is_ground_type ty fuel) (ty t).args) h in
      let more =
        all_types_mono _ (is_ground_type ty (suc fuel)) (is_ground_type-suc fuel) (ty t).args all in
      rw (var, more) refl

  -- The arguments of a ground type are ground.
  args_ground :
      (fuel t : ℕ)
      → is_ground_type ty fuel (some t) ≡ true
      → all_types (is_ground_type ty fuel) (ty t).args ≡ true
  unfolding is_ground_type
  args_ground zero t h = cc
  args_ground (suc fuel) t h =
      all_types_mono _ (is_ground_type ty (suc fuel)) (is_ground_type-suc fuel) (ty t).args
        (true_of_and (no_var (ty t).var) (all_types (is_ground_type ty fuel) (ty t).args) h).1

  module _ (tparms : ℕ → Bool) (depth : ℕ) where
    abbrev pub BindsGround : SubMap → Type 0
    BindsGround s = (v : ℕ) (a : Option ℕ) → s v ≡ some a → is_ground_type ty depth a ≡ true

    -- All that a result binds is ground.
    abbrev IsKept : Option Unified → Type 0
    IsKept r = (u : Unified) → r ≡ some u → BindsGround u.sub

    ok-IsKept : (s : SubMap) → BindsGround s → IsKept (ok s)
    ok-IsKept s h u e = subst BindsGround (ap (λ w. w.sub) (some_cancel e)) h

    failed-IsKept : (m : Mismatch) (s : SubMap) → BindsGround s → IsKept (failed m s)
    failed-IsKept m s h u e = subst BindsGround (ap (λ w. w.sub) (some_cancel e)) h

    put-BindsGround :
        (s : SubMap) (v : ℕ) (t : Option ℕ)
        → BindsGround s
        → is_ground_type ty depth t ≡ true
        → BindsGround (put s v t)
    unfolding put
    put-BindsGround s v t h g w a e = elim (Bool-cases (w == v)) [
      | inl y ↦ subst (λ x. is_ground_type ty depth x ≡ true) (some_cancel (rw (y) at e)) g
      | inr n ↦ h w a (rw (n) at e)
    ]

    bind_parm-IsKept :
        (v : ℕ) (t : Option ℕ) (s : SubMap) (prev : Option (Option ℕ))
        → is_ground_type ty depth t ≡ true
        → BindsGround s
        → IsKept (bind_parm v t s prev)
    bind_parm-IsKept v t s none g h = ok-IsKept (put s v t) (put-BindsGround s v t h g)
    bind_parm-IsKept v t s (some prev) g h = elim (Bool-cases (same_pointer prev t)) [
      | inl same ↦ rw same (ok-IsKept s h)
      | inr differ ↦ rw differ (failed-IsKept (bound prev t) s h)
    ]

    joined-IsKept :
        (u1 : Unified) (r : Option Unified)
        → IsKept r
        → IsKept (r >>= λ w. some (record { errs = u1.errs ++ w.errs; sub = w.sub }))
    joined-IsKept u1 none h u e = cc
    joined-IsKept u1 (some w) h u e = subst BindsGround (ap (λ x. x.sub) (some_cancel e)) (h w refl)

    bind-IsKept :
        (r : Option Unified) (k : SubMap → Option Unified)
        → IsKept r
        → ((s : SubMap) → BindsGround s → IsKept (k s))
        → IsKept
            (r >>= λ u. k u.sub >>= λ w. some (record { errs = u.errs ++ w.errs; sub = w.sub }))
    bind-IsKept none k first rest = λ u e. cc
    bind-IsKept (some u1) k first rest = joined-IsKept u1 (k u1.sub) (rest u1.sub (first u1 refl))

    module _ (rec : Option ℕ → Option ℕ → SubMap → Option Unified)
        (ih : (p t : Option ℕ) (s : SubMap)
          → is_ground_type ty depth t ≡ true
          → BindsGround s
          → IsKept (rec p t s)) where
      unify_args-IsKept :
          (ps ts : List (Option ℕ)) (s : SubMap)
          → all_types (is_ground_type ty depth) ts ≡ true
          → BindsGround s
          → IsKept (unify_args rec ps ts s)
      unfolding unify_args all_types
      unify_args-IsKept [] ts s all h = ok-IsKept s h
      unify_args-IsKept (p ∷ ps) [] s all h = λ u e. cc
      unify_args-IsKept (p ∷ ps) (t ∷ ts) s all h =
          let (first, rest) =
            true_of_and (is_ground_type ty depth t) (all_types (is_ground_type ty depth) ts) all in
          bind-IsKept (rec p t s) (unify_args rec ps ts) (ih p t s first h)
            λ s1 h1. unify_args-IsKept ps ts s1 rest h1

      unify_heads-IsKept :
          (p : ℕ) (t : Option ℕ) (s : SubMap)
          → is_ground_type ty depth t ≡ true
          → BindsGround s
          → IsKept (unify_heads ty tparms rec p t s)
      unfolding unify_heads
      unify_heads-IsKept p none s g h = ok-IsKept s h
      unify_heads-IsKept p (some t) s g h = elim (Bool-cases (same_head (ty p) (ty t))) [
        | inl same ↦ rw same (unify_args-IsKept (ty p).args (ty t).args s (args_ground depth t g) h)
        | inr differ ↦ rw differ (failed-IsKept (different p t) s h)
      ]

    unify_var-IsKept :
        (var t : Option ℕ) (s : SubMap) (r : Option Unified)
        → is_ground_type ty depth t ≡ true
        → BindsGround s
        → IsKept r
        → IsKept (unify_var ty tparms var t s r)
    unify_var-IsKept none t s r g h other = other
    unify_var-IsKept (some v) t s r g h other = elim (Bool-cases (tparms v)) [
      | inl here ↦ rw here (bind_parm-IsKept v t s (s v) g h)
      | inr n ↦ rw n other
    ]

    -- Where `isGroundType` holds of a type, and of all that is bound, it holds of all that is bound
    -- after `unify`, with errors or without.
    pub unify-BindsGround :
        (fuel : ℕ) (p t : Option ℕ) (s : SubMap)
        → is_ground_type ty depth t ≡ true
        → BindsGround s
        → (u : Unified) → unify ty tparms fuel p t s ≡ some u
        → BindsGround u.sub
    unfolding unify
    unify-BindsGround zero p t s g h u e = cc
    unify-BindsGround (suc fuel) none t s g h u e = cc
    unify-BindsGround (suc fuel) (some p) t s g h u e =
        unify_var-IsKept (ty p).var t s _ g h
          (unify_heads-IsKept (unify ty tparms fuel) (unify-BindsGround fuel) p t s g h) u e
