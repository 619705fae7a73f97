-- ===== src/Types/Unify/Complete.antt =====
-- types/inst.go: `unify` finds the bindings, and binds no more than it must.
use pea_old.Prelude.{
  ℕ, zero, suc, ◌<◌, Bool, true, false, List, [], ◌∷◌, ◌++◌, Option, none, some, ◌≡◌, refl, sym,
  arith, some_cancel,
}
use mathlib.Core.Path.{◌∙◌}
use pea_old.Types.Tree.{TypeDef}
use pea_old.Types.Unify.{
  SubMap, put, Unified, ok, ◌>>=◌, same_pointer, bind_parm, unify_args, is_parm, unify_heads,
  unify_var, unify,
}
use pea_old.Types.Unify.Matches.{
  same_head-SameHead, Extends, Matches, parm, unknown, heads, MatchAll, more,
}

same_pointer_refl : (a : Option ℕ) → same_pointer a a ≡ true
same_pointer_refl none = refl
same_pointer_refl (some a) = ground arith

put-Extends :
    (s τ : SubMap) (v : ℕ) (t : Option ℕ) → Extends s τ → τ v ≡ some t → Extends (put s v t) τ
unfolding put
put-Extends s τ v t e h w a f = ground (arith, e w a)

-- A result without errors, whose bindings are among those of `τ`.
abbrev pub Finds : SubMap → Option Unified → Type 0
Finds τ r = (u : Unified) × (r ≡ some u) × (u.errs ≡ []) × Extends u.sub τ

ok-Finds : (s τ : SubMap) → Extends s τ → Finds τ (ok s)
ok-Finds s τ e = (record { errs = []; sub = s }, refl, refl, e)

bind-Finds :
    (τ : SubMap) (r : Option Unified) (k : SubMap → Option Unified)
    → Finds τ r
    → ((s1 : SubMap) → Extends s1 τ → Finds τ (k s1))
    → Finds τ (r >>= λ u. k u.sub >>= λ w. some (record { errs = u.errs ++ w.errs; sub = w.sub }))
bind-Finds τ r k (u, e1, none1, ext1) rest =
    let (w, e2, none2, ext2) = rest u.sub ext1 in
    rw (e1, e2)
      (record { errs = u.errs ++ w.errs; sub = w.sub }, refl, rw (none1, none2) refl, ext2)

module _ (ty : ℕ → TypeDef) (tparms : ℕ → Bool) (τ : SubMap) where
  bind_parm-Finds :
      (v : ℕ) (t : Option ℕ) (s : SubMap) (prev : Option (Option ℕ))
      → Extends s τ
      → τ v ≡ some t
      → s v ≡ prev
      → Finds τ (bind_parm v t s prev)
  bind_parm-Finds v t s none e h is_prev = ok-Finds (put s v t) τ (put-Extends s τ v t e h)
  bind_parm-Finds v t s (some prev) e h is_prev =
      let same : prev ≡ t = some_cancel (sym (e v prev is_prev) ∙ h) in
      rw (same, same_pointer_refl t) (ok-Finds s τ e)

  unify_var-other :
      (var t : Option ℕ) (s : SubMap) (r : Option Unified)
      → is_parm ty tparms var ≡ false
      → unify_var ty tparms var t s r ≡ r
  unify_var-other none t s r n = refl
  unify_var-other (some v) t s r n = rw n refl

  module _ (rank : ℕ → ℕ) where
    -- The types that are there have a rank below the bound.
    abbrev pub AllLower : ℕ → List (Option ℕ) → Type 0
    AllLower n [] = Unit
    AllLower n (none ∷ ps) = AllLower n ps
    AllLower n (some p ∷ ps) = (rank p < n) × AllLower n ps

    unify_args-Finds :
        (rec : Option ℕ → Option ℕ → SubMap → Option Unified) (n : ℕ)
        → ((p : ℕ) (t : Option ℕ) (s : SubMap)
            → rank p < n
            → Extends s τ
            → Matches ty tparms τ (some p) t
            → Finds τ (rec (some p) t s))
        → (ps ts : List (Option ℕ)) (s : SubMap) → AllLower n ps
        → Extends s τ
        → MatchAll ty tparms τ ps ts
        → Finds τ (unify_args rec ps ts s)
    unfolding unify_args
    unify_args-Finds rec n ih [] ts s low e all = ok-Finds s τ e
    unify_args-Finds rec n ih (p ∷ ps) [] s low e all = elim all [ ]
    unify_args-Finds rec n ih (none ∷ ps) (t ∷ ts) s low e (more m all) = elim m [ ]
    unify_args-Finds rec n ih (some p ∷ ps) (t ∷ ts) s (lt, low) e (more m all) =
        bind-Finds τ (rec (some p) t s) (unify_args rec ps ts) (ih p t s lt e m)
          λ s1 e1. unify_args-Finds rec n ih ps ts s1 low e1 all

    module _ (lower : (p : ℕ) → AllLower (rank p) (ty p).args) where
      step-Finds :
          (rec : Option ℕ → Option ℕ → SubMap → Option Unified) (p : ℕ) (t : Option ℕ) (s : SubMap)
          → ((q : ℕ) (x : Option ℕ) (w : SubMap)
              → rank q < rank p
              → Extends w τ
              → Matches ty tparms τ (some q) x
              → Finds τ (rec (some q) x w))
          → Extends s τ
          → Matches ty tparms τ (some p) t
          → Finds τ (unify_var ty tparms (ty p).var t s (unify_heads ty tparms rec p t s))
      unfolding unify_heads
      step-Finds rec p t s ih e (parm {v} is_var here b) =
          rw (is_var, here) (bind_parm-Finds v t s (s v) e b refl)
      step-Finds rec p none s ih e (unknown n) =
          rw (unify_var-other (ty p).var none s (ok s) n) (ok-Finds s τ e)
      step-Finds rec p (some t) s ih e (heads n same all) =
          rw
            (
              unify_var-other (ty p).var (some t) s (unify_heads ty tparms rec p (some t) s) n,
              same_head-SameHead (ty p) (ty t) same,
            )
            (unify_args-Finds rec (rank p) ih (ty p).args (ty t).args s (lower p) e all)

      -- Where the arguments of a type have a lower rank than it, with fuel above the rank of the
      -- pattern: if some bindings, which may add to those at hand, make the pattern the type, then
      -- `unify` returns, with no error, and binds no more than they do.
      pub unify-Finds :
          (fuel p : ℕ) (t : Option ℕ) (s : SubMap)
          → rank p < fuel
          → Extends s τ
          → Matches ty tparms τ (some p) t
          → Finds τ (unify ty tparms fuel (some p) t s)
      unfolding unify
      unify-Finds zero p t s lt e m = absurd (omega arith)
      unify-Finds (suc fuel) p t s lt e m =
          step-Finds (unify ty tparms fuel) p t s
            (λ q x w below. unify-Finds fuel q x w (omega arith)) e m
