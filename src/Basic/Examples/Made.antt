-- ===== src/Basic/Examples/Made.antt =====
-- A function that is built from nothing: an alloc, an integer and a store.
use pea_old.Prelude.{ℕ, false, [], Option, none, some, refl, arith, elem}
use pea_old.Basic.Ir.{
  comment, uses, is_term, update, set_node, set_block, add_user, add_once, term_out,
}
use pea_old.Basic.Types.{Ty, int_type}
use pea_old.Basic.Blocks.{last, add_ins}
use pea_old.Basic.Build.{add_stmt, add_users}
use pea_old.Basic.Adds.{Building, add, add_val, add_alloc, add_int_lit, add_store}
use pea_old.Basic.Adds.Built.{IsBuilt}
use pea_old.Basic.Adds.Steps.{
  by_alloc, by_int_lit, by_store, Reaches, done, then_add, Reaches-IsBuilt,
}

abbrev empty : Building
empty = record {
  heap = record {
    nodes = λ s. record { del = false; instr = comment; num = 0; typ = 0; users = [] };
    blocks = λ b. record { n = b; stmts = []; ins = [] };
  };
  objects = 0;
  n_vals = 0;
}

empty-IsBuilt : IsBuilt empty
unfolding elem
empty-IsBuilt = record {
  linked = λ t w l. absurd (omega arith);
  fresh = λ t w l. refl;
  within = λ t v l. absurd (omega arith);
  small = λ v l. absurd (omega arith);
  own = λ v w l m. absurd (omega arith);
}

abbrev ints : ℕ → Ty
ints t = record { built_in = int_type; args = []; fields = []; cases = []; virts = []; ref = 1 }

-- The state after a call, or before one that panics.
unfoldable after : Building → Option (ℕ × Building) → Building
after f none = f
after f (some (s, f')) = f'

unfoldable allocated : Building
unfolding add_alloc after
allocated = after empty (add_alloc ints 0 0 0 empty)

unfoldable numbered : Building
unfolding add_int_lit after allocated
numbered = after allocated (add_int_lit 0 0 5 allocated)

unfoldable stored : Building
unfolding add_store after numbered
stored = after numbered (add_store 0 0 1 numbered)

all_calls : Reaches ints 0 empty stored
unfolding add_alloc add_int_lit add_store add_val add add_stmt add_users add_ins last is_term uses
    elem term_out set_node set_block update add_user add_once after allocated numbered stored
all_calls =
    then_add
      (then_add (then_add done (by_alloc 0 0 (λ v i. cc) refl)) (by_int_lit 0 0 5 (λ v i. cc) refl))
      (by_store 0 0 1 (λ v i. ground arith) refl)

Reaches-IsBuilt_example : IsBuilt stored
Reaches-IsBuilt_example = Reaches-IsBuilt ints 0 empty-IsBuilt all_calls
