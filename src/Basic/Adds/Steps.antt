-- ===== src/Basic/Adds/Steps.antt =====
-- basic/build.go: functions that are built by the adding functions, one call after the other.
use Prim.Native.String.{String}
use pea_old.Prelude.{ℕ, false, List, ◌∷◌, Option, none, some, ◌≡◌, refl}
use pea_old.Prelude.Int.{ℤ}
use pea_old.Basic.Ir.{
  comment, store, copy, make_array, new_array, make_slice, make_string, new_string, make_and,
  make_or, make_virt, call, virt_call, ret, panic, jmp, switch, int_lit, float_lit, op, load, alloc,
  arg, global, index, field, is_val, uses,
}
use pea_old.Basic.Types.{Ty}
use pea_old.Basic.Checks.{typ_of}
use pea_old.Basic.Adds.{
  Building, Made, with_type, add_comment, add_store, add_copy, add_make_array, add_new_array,
  add_make_slice, add_make_string, add_new_string, add_make_and, add_make_or, add_make_virt,
  add_panic, add_call, add_virt_call_index, add_virt_call_fun, add_at, virt_index, add_ret, add_jmp,
  add_switch, add_int_lit, add_float_lit, add_op, add_arg, add_load, add_alloc, add_global,
  add_index, add_field, referenced, index_type, field_type,
}
use pea_old.Basic.Adds.Built.{
  IsBuilt, AreThere, BuiltNext, add-BuiltNext, add_typed-BuiltNext, add_val-BuiltNext,
}

with_type-BuiltNext :
    (f : Building) (o : Option ℕ) (k : ℕ → Made)
    → ((t : ℕ) → BuiltNext f (k t))
    → BuiltNext f (with_type o k)
with_type-BuiltNext f none k h s f' e = cc
with_type-BuiltNext f (some t) k h s f' e = h t s f' e

module _ (ty : ℕ → Ty) (byte_type : ℕ) where
  -- A call that does not panic, of values that are there.
  pub data Adds : Building → Building → Type 0 where
    by_comment :
        {f f' : Building} {s : ℕ} (b : ℕ)
        → AreThere f (uses (comment))
        → add_comment b f ≡ some (s, f')
        → Adds f f'
    by_store :
        {f f' : Building} {s : ℕ} (b dst val : ℕ)
        → AreThere f (uses (store dst val))
        → add_store b dst val f ≡ some (s, f')
        → Adds f f'
    by_copy :
        {f f' : Building} {s : ℕ} (b dst src : ℕ)
        → AreThere f (uses (copy dst src))
        → add_copy b dst src f ≡ some (s, f')
        → Adds f f'
    by_make_array :
        {f f' : Building} {s : ℕ} (b dst : ℕ) (args : List ℕ)
        → AreThere f (uses (make_array dst args))
        → add_make_array b dst args f ≡ some (s, f')
        → Adds f f'
    by_new_array :
        {f f' : Building} {s : ℕ} (b dst size : ℕ)
        → AreThere f (uses (new_array dst size))
        → add_new_array b dst size f ≡ some (s, f')
        → Adds f f'
    by_make_slice :
        {f f' : Building} {s : ℕ} (b dst ary from to : ℕ)
        → AreThere f (uses (make_slice dst ary from to))
        → add_make_slice b dst ary from to f ≡ some (s, f')
        → Adds f f'
    by_make_string :
        {f f' : Building} {s : ℕ} (b dst str : ℕ)
        → AreThere f (uses (make_string dst str))
        → add_make_string b dst str f ≡ some (s, f')
        → Adds f f'
    by_new_string :
        {f f' : Building} {s : ℕ} (b dst bytes : ℕ)
        → AreThere f (uses (new_string dst bytes))
        → add_new_string b dst bytes f ≡ some (s, f')
        → Adds f f'
    by_make_and :
        {f f' : Building} {s : ℕ} (b dst : ℕ) (args : List (Option ℕ))
        → AreThere f (uses (make_and dst args none))
        → add_make_and b dst args f ≡ some (s, f')
        → Adds f f'
    by_make_or :
        {f f' : Building} {s : ℕ} (b dst tag : ℕ) (val : Option ℕ)
        → AreThere f (uses (make_or dst tag val))
        → add_make_or b dst tag val f ≡ some (s, f')
        → Adds f f'
    by_make_virt :
        {f f' : Building} {s : ℕ} (b dst : ℕ) (obj : Option ℕ) (virts : List ℕ)
        → AreThere f (uses (make_virt dst obj virts))
        → add_make_virt b dst obj virts f ≡ some (s, f')
        → Adds f f'
    by_panic :
        {f f' : Building} {s : ℕ} (b v : ℕ)
        → AreThere f (uses (panic v))
        → add_panic b v f ≡ some (s, f')
        → Adds f f'
    by_call :
        {f f' : Building} {s : ℕ} (b fun : ℕ) (args : List ℕ)
        → AreThere f (uses (call fun args))
        → add_call b fun args f ≡ some (s, f')
        → Adds f f'
    by_virt_call :
        {f f' : Building} {s : ℕ} (b : ℕ) (i : ℤ) (self : ℕ) (args : List ℕ)
        → AreThere f (uses (virt_call self i (self ∷ args)))
        → add_virt_call_index b i (self ∷ args) f ≡ some (s, f')
        → Adds f f'
    by_virt_call_fun :
        {f f' : Building} {s : ℕ} (b : ℕ) (sel : String) (self : ℕ) (args : List ℕ)
        → AreThere f (self ∷ args)
        → add_virt_call_fun ty byte_type b sel (self ∷ args) f ≡ some (s, f')
        → Adds f f'
    by_ret :
        {f f' : Building} {s : ℕ} (b : ℕ)
        → AreThere f (uses (ret false))
        → add_ret b f ≡ some (s, f')
        → Adds f f'
    by_jmp :
        {f f' : Building} {s : ℕ} (b dst : ℕ)
        → AreThere f (uses (jmp dst))
        → add_jmp b dst f ≡ some (s, f')
        → Adds f f'
    by_switch :
        {f f' : Building} {s : ℕ} (b v : ℕ) (dsts : List ℕ) (or_type : ℕ)
        → AreThere f (uses (switch v dsts))
        → add_switch b v dsts or_type f ≡ some (s, f')
        → Adds f f'
    by_int_lit :
        {f f' : Building} {s : ℕ} (b typ val : ℕ)
        → AreThere f (uses (int_lit val))
        → add_int_lit b typ val f ≡ some (s, f')
        → Adds f f'
    by_float_lit :
        {f f' : Building} {s : ℕ} (b typ val : ℕ)
        → AreThere f (uses (float_lit val))
        → add_float_lit b typ val f ≡ some (s, f')
        → Adds f f'
    by_op :
        {f f' : Building} {s : ℕ} (b typ code : ℕ) (args : List ℕ)
        → AreThere f (uses (op code args))
        → add_op b typ code args f ≡ some (s, f')
        → Adds f f'
    by_arg :
        {f f' : Building} {s : ℕ} (b typ parm : ℕ)
        → AreThere f (uses (arg parm))
        → add_arg b typ parm f ≡ some (s, f')
        → Adds f f'
    by_load :
        {f f' : Building} {s : ℕ} (b src : ℕ)
        → AreThere f (uses (load src))
        → add_load ty byte_type b src f ≡ some (s, f')
        → Adds f f'
    by_alloc :
        {f f' : Building} {s : ℕ} (b typ : ℕ)
        → AreThere f (uses (alloc false none))
        → add_alloc ty byte_type b typ f ≡ some (s, f')
        → Adds f f'
    by_global :
        {f f' : Building} {s : ℕ} (b typ val : ℕ)
        → AreThere f (uses (global val))
        → add_global ty byte_type b typ val f ≡ some (s, f')
        → Adds f f'
    by_index :
        {f f' : Building} {s : ℕ} (b ary i : ℕ)
        → AreThere f (uses (index ary i))
        → add_index ty byte_type b ary i f ≡ some (s, f')
        → Adds f f'
    by_field :
        {f f' : Building} {s : ℕ} (b obj i : ℕ)
        → AreThere f (uses (field obj i))
        → add_field ty byte_type b obj i f ≡ some (s, f')
        → Adds f f'

  pub data Reaches : Building → Building → Type 0 where
    done : {f : Building} → Reaches f f
    then_add : {f g k : Building} → Reaches f g → Adds g k → Reaches f k

  add_at-BuiltNext :
      (b self : ℕ) (args : List ℕ) (f : Building)
      → IsBuilt f
      → AreThere f (self ∷ args)
      → (o : Option ℤ) → BuiltNext f (add_at ty byte_type b (self ∷ args) f o)
  unfolding add_virt_call_index uses is_val
  add_at-BuiltNext b self args f ok there none s f' e = cc
  add_at-BuiltNext b self args f ok there (some i) s f' e =
      add-BuiltNext b (virt_call self i (self ∷ args)) f ok refl there s f' e

  Adds-IsBuilt : {f f' : Building} → IsBuilt f → Adds f f' → IsBuilt f'
  unfolding is_val add_comment add_store add_copy add_make_array add_new_array add_make_slice
      add_make_string add_new_string add_make_and add_make_or add_make_virt add_panic add_call
      add_virt_call_index add_virt_call_fun add_ret add_jmp add_switch add_int_lit add_float_lit
      add_op add_arg add_load add_alloc add_global add_index add_field
  Adds-IsBuilt {f} {f'} ok (by_comment {s = s} b there e) =
      (add-BuiltNext b (comment) f ok refl there s f' e).0
  Adds-IsBuilt {f} {f'} ok (by_store {s = s} b dst val there e) =
      (add-BuiltNext b (store dst val) f ok refl there s f' e).0
  Adds-IsBuilt {f} {f'} ok (by_copy {s = s} b dst src there e) =
      (add-BuiltNext b (copy dst src) f ok refl there s f' e).0
  Adds-IsBuilt {f} {f'} ok (by_make_array {s = s} b dst args there e) =
      (add-BuiltNext b (make_array dst args) f ok refl there s f' e).0
  Adds-IsBuilt {f} {f'} ok (by_new_array {s = s} b dst size there e) =
      (add-BuiltNext b (new_array dst size) f ok refl there s f' e).0
  Adds-IsBuilt {f} {f'} ok (by_make_slice {s = s} b dst ary from to there e) =
      (add-BuiltNext b (make_slice dst ary from to) f ok refl there s f' e).0
  Adds-IsBuilt {f} {f'} ok (by_make_string {s = s} b dst str there e) =
      (add-BuiltNext b (make_string dst str) f ok refl there s f' e).0
  Adds-IsBuilt {f} {f'} ok (by_new_string {s = s} b dst bytes there e) =
      (add-BuiltNext b (new_string dst bytes) f ok refl there s f' e).0
  Adds-IsBuilt {f} {f'} ok (by_make_and {s = s} b dst args there e) =
      (add-BuiltNext b (make_and dst args none) f ok refl there s f' e).0
  Adds-IsBuilt {f} {f'} ok (by_make_or {s = s} b dst tag val there e) =
      (add-BuiltNext b (make_or dst tag val) f ok refl there s f' e).0
  Adds-IsBuilt {f} {f'} ok (by_make_virt {s = s} b dst obj virts there e) =
      (add-BuiltNext b (make_virt dst obj virts) f ok refl there s f' e).0
  Adds-IsBuilt {f} {f'} ok (by_panic {s = s} b v there e) =
      (add-BuiltNext b (panic v) f ok refl there s f' e).0
  Adds-IsBuilt {f} {f'} ok (by_call {s = s} b fun args there e) =
      (add-BuiltNext b (call fun args) f ok refl there s f' e).0
  Adds-IsBuilt {f} {f'} ok (by_virt_call {s = s} b i self args there e) =
      (add-BuiltNext b (virt_call self i (self ∷ args)) f ok refl there s f' e).0
  Adds-IsBuilt {f} {f'} ok (by_virt_call_fun {s = s} b sel self args there e) =
      (add_at-BuiltNext b self args f ok there (virt_index ty byte_type sel (typ_of f.heap self)) s
        f' e).0
  Adds-IsBuilt {f} {f'} ok (by_ret {s = s} b there e) =
      (add-BuiltNext b (ret false) f ok refl there s f' e).0
  Adds-IsBuilt {f} {f'} ok (by_jmp {s = s} b dst there e) =
      (add-BuiltNext b (jmp dst) f ok refl there s f' e).0
  Adds-IsBuilt {f} {f'} ok (by_switch {s = s} b v dsts or_type there e) =
      (add_typed-BuiltNext b or_type (switch v dsts) f ok refl there s f' e).0
  Adds-IsBuilt {f} {f'} ok (by_int_lit {s = s} b typ val there e) =
      (add_val-BuiltNext b typ (int_lit val) f ok there s f' e).0
  Adds-IsBuilt {f} {f'} ok (by_float_lit {s = s} b typ val there e) =
      (add_val-BuiltNext b typ (float_lit val) f ok there s f' e).0
  Adds-IsBuilt {f} {f'} ok (by_op {s = s} b typ code args there e) =
      (add_val-BuiltNext b typ (op code args) f ok there s f' e).0
  Adds-IsBuilt {f} {f'} ok (by_arg {s = s} b typ parm there e) =
      (add_val-BuiltNext b typ (arg parm) f ok there s f' e).0
  Adds-IsBuilt {f} {f'} ok (by_load {s = s} b src there e) =
      (with_type-BuiltNext f (referenced ty byte_type (typ_of f.heap src)) _
        (λ t. add_val-BuiltNext b t (load src) f ok there) s f' e).0
  Adds-IsBuilt {f} {f'} ok (by_alloc {s = s} b typ there e) =
      (add_val-BuiltNext b _ (alloc false none) f ok there s f' e).0
  Adds-IsBuilt {f} {f'} ok (by_global {s = s} b typ val there e) =
      (add_val-BuiltNext b _ (global val) f ok there s f' e).0
  Adds-IsBuilt {f} {f'} ok (by_index {s = s} b ary i there e) =
      (with_type-BuiltNext f (index_type ty byte_type (typ_of f.heap ary)) _
        (λ t. add_val-BuiltNext b t (index ary i) f ok there) s f' e).0
  Adds-IsBuilt {f} {f'} ok (by_field {s = s} b obj i there e) =
      (with_type-BuiltNext f (field_type ty byte_type (typ_of f.heap obj) i) _
        (λ t. add_val-BuiltNext b t (field obj i) f ok there) s f' e).0

  -- However the adding functions are called, as long as none panics and the values they are given are
  -- there: a function that is built stays so. Its statements are users of exactly the values that
  -- they use, and its values have numbers below `NVals`, each its own.
  pub Reaches-IsBuilt : {f g : Building} → IsBuilt f → Reaches f g → IsBuilt g
  Reaches-IsBuilt ok done = ok
  Reaches-IsBuilt ok (then_add before step) = Adds-IsBuilt (Reaches-IsBuilt ok before) step
