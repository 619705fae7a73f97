-- ===== src/Basic/Bugs/Calls.antt =====
-- basic/bugs.go: the check of calls.
use pea_old.Prelude.{ℕ, not, List, [], ◌∷◌, map, none, ◌==◌, length, ◌≡◌, ◌↔◌, refl, arith}
use pea_old.Basic.Ir.{call, Heap}
use pea_old.Basic.Sub.Instrs.{map_instr}
use pea_old.Basic.Types.{Ty}
use pea_old.Basic.Checks.{
  count_mismatch, pass, ◌>>◌, bug_if, recover_bug, FunTypes, with_ret, same_types, typ_of,
}
use pea_old.Basic.Bugs.{check, bugs}

same_types_sound :
    (xs ts : List ℕ) → length xs ≡ length ts → recover_bug (same_types xs ts) ≡ none → xs ≡ ts
unfolding same_types
same_types_sound [] [] e h = refl
same_types_sound [] (t ∷ ts) e h = absurd (omega (arith, e))
same_types_sound (x ∷ xs) [] e h = absurd (omega (arith, e))
same_types_sound (x ∷ xs) (t ∷ ts) e h = ground (arith, same_types_sound xs ts (omega (arith, e)))

same_types_complete : (xs : List ℕ) → same_types xs xs ≡ pass tt
unfolding same_types
same_types_complete [] = refl
same_types_complete (x ∷ xs) = ground (arith, same_types_complete xs)

module _ (ty : ℕ → Ty) (funs : ℕ → FunTypes) (fuel : ℕ) where
  -- A call has no bug exactly if the types of its arguments are those of the function's parameters,
  -- with the return parameter last where there is one.
  pub bugs-call :
      (h : Heap) (s fun : ℕ) (args : List ℕ)
      → (h.nodes s).instr ≡ call fun args
      → (bugs ty funs fuel h s ≡ none)
        ↔ (map (typ_of h) args ≡ with_ret (funs fun).parms (funs fun).ret)
  unfolding bugs check map_instr
  bugs-call h s fun args e = rw e (
    sound (map (typ_of h) args) (with_ret (funs fun).parms (funs fun).ret),
    λ same. rw same (ok _),
  )
    where
      sound :
          (xs ts : List ℕ)
          → recover_bug (bug_if (not (length xs == length ts)) count_mismatch >> same_types xs ts)
            ≡ none
          → xs ≡ ts
      sound xs ts h = ground (arith, same_types_sound xs ts)

      ok :
          (ts : List ℕ)
          → recover_bug (bug_if (not (length ts == length ts)) count_mismatch >> same_types ts ts)
            ≡ none
      ok ts = ground (arith, same_types_complete ts)
