-- ===== src/Types/Unify/Matches.antt =====
-- types/inst.go: `unify` against what it means that bindings make a pattern the type.
use pea_old.Prelude.{
  ◌==◌, text_eq, text_eq_refl, eq_of_text_eq, ◌&&◌, ℕ, zero, suc, Bool, true, false, List, [], ◌∷◌,
  ◌++◌, Option, none, some, ◌≡◌, refl, ap, arith, Bool-cases, inl, inr, some_cancel,
}
use mathlib.Core.Path.{subst, ◌∙◌}
use pea_old.Types.Tree.{TypeDef}
use pea_old.Types.Unify.{
  Mismatch, bound, different, SubMap, put, Unified, ok, failed, ◌>>=◌, same_pointer, same_head,
  bind_parm, unify_args, is_parm, unify_heads, unify_var, unify,
}

abbrev pub Extends : SubMap → SubMap → Type 0
Extends s t = (v : ℕ) (a : Option ℕ) → s v ≡ some a → t v ≡ some a

-- Types with the same module, name and arity.
pub record SameHead (p t : TypeDef) : Type 0 where
  pub mod_path : p.mod_path ≡ t.mod_path
  pub name : p.name ≡ t.name
  pub arity : p.arity ≡ t.arity

true_of_and : (a b : Bool) → (a && b) ≡ true → (a ≡ true) × (b ≡ true)
true_of_and a b h = ground arith

SameHead-same_head : (p t : TypeDef) → same_head p t ≡ true → SameHead p t
SameHead-same_head p t h =
    let (heads_eq, three) =
      true_of_and (text_eq p.mod_path t.mod_path && text_eq p.name t.name) (p.arity == t.arity) h in
    let (one, two) = true_of_and (text_eq p.mod_path t.mod_path) (text_eq p.name t.name) heads_eq in
    record {
      mod_path = eq_of_text_eq p.mod_path t.mod_path one;
      name = eq_of_text_eq p.name t.name two;
      arity = ground arith;
    }

pub same_head-SameHead : (p t : TypeDef) → SameHead p t → same_head p t ≡ true
same_head-SameHead p t same =
    let one : text_eq p.mod_path t.mod_path ≡ true =
      subst (λ x. text_eq p.mod_path x ≡ true) same.mod_path (text_eq_refl p.mod_path) in
    let two : text_eq p.name t.name ≡ true =
      subst (λ x. text_eq p.name x ≡ true) same.name (text_eq_refl p.name) in
    let three = same.arity in rw (one, two) (ground arith)

module _ (ty : ℕ → TypeDef) (tparms : ℕ → Bool) where
  -- With the bindings, the pattern is the type: a parameter is bound to the type, anything else has
  -- the type's module, name and arity, and arguments that match; a type that is nil matches.
  mutual
    pub data Matches : SubMap → Option ℕ → Option ℕ → Type 0 where
      parm :
          {s : SubMap} {p v : ℕ} {t : Option ℕ}
          → (ty p).var ≡ some v
          → tparms v ≡ true
          → s v ≡ some t
          → Matches s (some p) t
      unknown :
          {s : SubMap} {p : ℕ} → is_parm ty tparms (ty p).var ≡ false → Matches s (some p) none
      heads :
          {s : SubMap} {p t : ℕ}
          → is_parm ty tparms (ty p).var ≡ false
          → SameHead (ty p) (ty t)
          → MatchAll s (ty p).args (ty t).args
          → Matches s (some p) (some t)

    pub data MatchAll : SubMap → List (Option ℕ) → List (Option ℕ) → Type 0 where
      end : {s : SubMap} {ts : List (Option ℕ)} → MatchAll s [] ts
      more :
          {s : SubMap} {p t : Option ℕ} {ps ts : List (Option ℕ)}
          → Matches s p t
          → MatchAll s ps ts
          → MatchAll s (p ∷ ps) (t ∷ ts)

  -- More bindings keep a match.
  mutual
    Matches-Extends :
        {s s' : SubMap} {p t : Option ℕ} → Matches s p t → Extends s s' → Matches s' p t
    Matches-Extends (parm is_var here b) e = parm is_var here (e _ _ b)
    Matches-Extends (unknown n) e = unknown n
    Matches-Extends (heads n same all) e = heads n same (MatchAll-Extends all e)

    MatchAll-Extends :
        {s s' : SubMap} {ps ts : List (Option ℕ)}
        → MatchAll s ps ts
        → Extends s s'
        → MatchAll s' ps ts
    MatchAll-Extends end e = end
    MatchAll-Extends (more m all) e = more (Matches-Extends m e) (MatchAll-Extends all e)

  same_pointer-eq : (a b : Option ℕ) → same_pointer a b ≡ true → a ≡ b
  same_pointer-eq none none h = refl
  same_pointer-eq none (some b) h = cc
  same_pointer-eq (some a) none h = cc
  same_pointer-eq (some a) (some b) h = ground arith

  Extends-put : (s : SubMap) (v : ℕ) (t : Option ℕ) → s v ≡ none → Extends s (put s v t)
  unfolding put
  Extends-put s v t fresh w a e = ground arith

  put_self : (s : SubMap) (v : ℕ) (t : Option ℕ) → put s v t v ≡ some t
  unfolding put
  put_self s v t = ground arith

  -- Where the result has no error, it binds no less than `s`, and `M` holds with it.
  abbrev IsSound : SubMap → (SubMap → Type 0) → Option Unified → Type 0
  IsSound s M r = (u : Unified) → r ≡ some u → u.errs ≡ [] → Extends s u.sub × M u.sub

  ok-IsSound : (s s' : SubMap) (M : SubMap → Type 0) → Extends s s' → M s' → IsSound s M (ok s')
  ok-IsSound s s' M e h u there no_errs =
      let same : s' ≡ u.sub = ap (λ w. w.sub) (some_cancel there) in
      (subst (Extends s) same e, subst M same h)

  failed-IsSound : (s s' : SubMap) (M : SubMap → Type 0) (m : Mismatch) → IsSound s M (failed m s')
  failed-IsSound s s' M m u there no_errs = cc

  bind_parm-IsSound :
      (p v : ℕ) (t : Option ℕ) (s : SubMap) (prev : Option (Option ℕ))
      → (ty p).var ≡ some v
      → tparms v ≡ true
      → s v ≡ prev
      → IsSound s (λ w. Matches w (some p) t) (bind_parm v t s prev)
  bind_parm-IsSound p v t s none is_var here e =
      ok-IsSound s (put s v t) _ (Extends-put s v t e) (parm is_var here (put_self s v t))
  bind_parm-IsSound p v t s (some prev) is_var here e = elim (Bool-cases (same_pointer prev t)) [
    | inl same ↦ rw same (
        ok-IsSound s s _ (λ w a h. h)
          (parm is_var here (e ∙ ap some (same_pointer-eq prev t same))))
    | inr differ ↦ rw differ (failed-IsSound s s _ (bound prev t))
  ]

  append-nil_cases : (xs ys : List Mismatch) → xs ++ ys ≡ [] → (xs ≡ []) × (ys ≡ [])
  append-nil_cases [] ys e = (refl, e)
  append-nil_cases (x ∷ xs) ys e = cc

  abbrev joined : Unified → Unified → Option Unified
  joined u w = some (record { errs = u.errs ++ w.errs; sub = w.sub })

  joined-IsSound :
      (s : SubMap) (p t : Option ℕ) (ps ts : List (Option ℕ)) (u1 : Unified) (r : Option Unified)
      → (u1.errs ≡ [] → Extends s u1.sub × Matches u1.sub p t)
      → IsSound u1.sub (λ w. MatchAll w ps ts) r
      → IsSound s (λ w. MatchAll w (p ∷ ps) (t ∷ ts)) (r >>= λ w. joined u1 w)
  joined-IsSound s p t ps ts u1 none first rest u e no_errs = cc
  joined-IsSound s p t ps ts u1 (some w) first rest u e no_errs =
      let same : w.sub ≡ u.sub = ap (λ x. x.sub) (some_cancel e) in
      let (none1, none2) =
        append-nil_cases u1.errs w.errs (ap (λ x. x.errs) (some_cancel e) ∙ no_errs) in
      let (grows, here) = first none1 in
      let (grows', there) = rest w refl none2 in
      (
        subst (Extends s) same (λ v a b. grows' v a (grows v a b)),
        subst (λ x. MatchAll x (p ∷ ps) (t ∷ ts)) same (more (Matches-Extends here grows') there),
      )

  bind-IsSound :
      (s : SubMap) (p t : Option ℕ) (ps ts : List (Option ℕ)) (r : Option Unified)
      (k : SubMap → Option Unified)
      → IsSound s (λ w. Matches w p t) r
      → ((s1 : SubMap) → IsSound s1 (λ w. MatchAll w ps ts) (k s1))
      → IsSound s (λ w. MatchAll w (p ∷ ps) (t ∷ ts)) (r >>= λ u. k u.sub >>= λ w. joined u w)
  bind-IsSound s p t ps ts none k first rest = λ u e no_errs. cc
  bind-IsSound s p t ps ts (some u1) k first rest =
      joined-IsSound s p t ps ts u1 (k u1.sub) (first u1 refl) (rest u1.sub)

  unify_args-IsSound :
      (rec : Option ℕ → Option ℕ → SubMap → Option Unified)
      → ((p t : Option ℕ) (s : SubMap) → IsSound s (λ w. Matches w p t) (rec p t s))
      → (ps ts : List (Option ℕ)) (s : SubMap)
      → IsSound s (λ w. MatchAll w ps ts) (unify_args rec ps ts s)
  unfolding unify_args
  unify_args-IsSound rec ih [] ts s = ok-IsSound s s _ (λ w a h. h) end
  unify_args-IsSound rec ih (p ∷ ps) [] s = λ u e h. cc
  unify_args-IsSound rec ih (p ∷ ps) (t ∷ ts) s =
      bind-IsSound s p t ps ts (rec p t s) (unify_args rec ps ts) (ih p t s)
        (unify_args-IsSound rec ih ps ts)

  unify_heads-IsSound :
      (rec : Option ℕ → Option ℕ → SubMap → Option Unified)
      → ((p t : Option ℕ) (s : SubMap) → IsSound s (λ w. Matches w p t) (rec p t s))
      → (p : ℕ) (t : Option ℕ) (s : SubMap) → is_parm ty tparms (ty p).var ≡ false
      → IsSound s (λ w. Matches w (some p) t) (unify_heads ty tparms rec p t s)
  unfolding unify_heads
  unify_heads-IsSound rec ih p none s n = ok-IsSound s s _ (λ w a h. h) (unknown n)
  unify_heads-IsSound rec ih p (some t) s n = elim (Bool-cases (same_head (ty p) (ty t))) [
    | inr differ ↦ rw differ (failed-IsSound s s _ (different p t))
    | inl same ↦ rw same λ u e h.
        let (grows, all) = unify_args-IsSound rec ih (ty p).args (ty t).args s u e h in
        (grows, heads n (SameHead-same_head (ty p) (ty t) same) all)
  ]

  unify_var-IsSound :
      (p : ℕ) (var : Option ℕ) (t : Option ℕ) (s : SubMap) (r : Option Unified)
      → (ty p).var ≡ var
      → (is_parm ty tparms var ≡ false → IsSound s (λ w. Matches w (some p) t) r)
      → IsSound s (λ w. Matches w (some p) t) (unify_var ty tparms var t s r)
  unify_var-IsSound p none t s r is_var other = other refl
  unify_var-IsSound p (some v) t s r is_var other = elim (Bool-cases (tparms v)) [
    | inl here ↦ rw here (bind_parm-IsSound p v t s (s v) is_var here refl)
    | inr n ↦ rw n (other n)
  ]

  -- Where `unify` returns no error, it keeps what was bound, and with the bindings the pattern is
  -- the type.
  pub unify-Matches :
      (fuel : ℕ) (p t : Option ℕ) (s : SubMap) (u : Unified)
      → unify ty tparms fuel p t s ≡ some u
      → u.errs ≡ []
      → Extends s u.sub × Matches u.sub p t
  unfolding unify
  unify-Matches zero p t s u e h = cc
  unify-Matches (suc fuel) none t s u e h = cc
  unify-Matches (suc fuel) (some p) t s u e h =
      unify_var-IsSound p (ty p).var t s _ refl
        (unify_heads-IsSound (unify ty tparms fuel) (unify-Matches fuel) p t s) u e h
