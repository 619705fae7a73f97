-- ===== src/Types/Examples.antt =====
-- The unification of `T Array` with `Int Array`, where `T` is a type parameter.
mod Scopes
use pea_old.Prelude.{
  ℕ, zero, suc, ◌<◌, Bool, true, false, [], ◌∷◌, Option, none, some, ◌==◌, if◌then◌else◌, ◌≡◌, refl,
  arith, text_eq,
}
use pea_old.Types.Tree.{TypeDef}
use pea_old.Types.Unify.{SubMap, put, Unified, unify, unify_heads, unify_args}
use pea_old.Types.Unify.Matches.{Extends, Matches, parm, heads, end, more, unify-Matches}
use pea_old.Types.Unify.Complete.{Finds, AllLower, unify-Finds}
use pea_old.Types.Ground.{all_types, is_ground_type}
use pea_old.Types.Ground.Kept.{BindsGround, unify-BindsGround}

abbrev named : TypeDef
named = record {
  var = none;
  priv = false;
  mod_path = [];
  name = b'I' ∷ [];
  arity = 0;
  args = [];
  fields = [];
}

-- 0 is the variable, 1 Int, 2 the pattern, and 3 the type.
unfoldable ty : ℕ → TypeDef
ty zero = record named { var = some 9; name = b'T' ∷ [] }
ty (suc zero) = named
ty (suc (suc zero)) = record named { name = b'A' ∷ []; arity = 1; args = some 0 ∷ [] }
ty (suc (suc (suc t))) = record named { name = b'A' ∷ []; arity = 1; args = some 1 ∷ [] }

unfoldable is_parm : ℕ → Bool
is_parm v = v == 9

abbrev unbound : SubMap
unbound v = none

abbrev result : Unified
result = record { errs = []; sub = put unbound 9 (some 1) }

unify-result : unify ty is_parm 2 (some 2) (some 3) unbound ≡ some result
unfolding unify unify_heads unify_args ty is_parm text_eq put
unify-result = refl

unify-Matches_example : Extends unbound result.sub × Matches ty is_parm result.sub (some 2) (some 3)
unify-Matches_example =
    unify-Matches ty is_parm 2 (some 2) (some 3) unbound result unify-result refl

unfoldable rank : ℕ → ℕ
rank zero = 0
rank (suc zero) = 0
rank (suc (suc t)) = 1

ty_lower : (t : ℕ) → AllLower ty is_parm result.sub rank (rank t) (ty t).args
unfolding ty rank
ty_lower zero = tt
ty_lower (suc zero) = tt
ty_lower (suc (suc zero)) = (omega arith, tt)
ty_lower (suc (suc (suc t))) = (omega arith, tt)

pattern_Matches : Matches ty is_parm result.sub (some 2) (some 3)
unfolding ty is_parm text_eq put
pattern_Matches =
    heads refl (record { mod_path = refl; name = refl; arity = refl })
      (more (parm refl refl refl) end)

unify-Finds_example : Finds result.sub (unify ty is_parm 2 (some 2) (some 3) unbound)
unfolding rank
unify-Finds_example =
    unify-Finds ty is_parm result.sub rank ty_lower 2 2 (some 3) unbound (omega arith)
      (λ v a e. ground arith) pattern_Matches

-- The variable is bound to Int.
unify-BindsGround_example : is_ground_type ty 2 (some 1) ≡ true
unfolding is_ground_type all_types ty put
unify-BindsGround_example =
    unify-BindsGround ty is_parm 2 2 (some 2) (some 3) unbound refl (λ v a e. ground arith) result
      unify-result 9 (some 1) refl
