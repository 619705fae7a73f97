-- ===== src/Gengo/Mangle.antt =====
-- gengo/mangle.go: the names of types and functions, and what the names are demangled to.
pub mod Ident
pub mod TypeNames
pub mod FunNames
pub mod Injective
pub mod Keys
pub mod Total
use mathlib.Core.Option
use pea_old.Prelude.{
  ℕ, zero, suc, ◌+◌, Bool, true, false, ◌||◌, List, [], ◌∷◌, ◌++◌, Option, none, some, ltb, ◌==◌,
  if◌then◌else◌, length,
}
use pea_old.Utf8.{Bytes}
use pea_old.Gengo.Escape.{
  Result, ok, err, ◌>>=◌, out_of_fuel, unexpected_eof, expected_t, expected_0_args, expected_f_or_m,
}
use pea_old.Gengo.Token.{
  Reader, Read, write_str, read_str, decimal, write_int, read_int, IntRead, got, eof, failed,
  read_int_or_eof,
}

-- What the mangler reads of a `types.Type`: ModPath, Arity, Name and the types of Args.
mutual
  pub data PeaType : Type 0 where
    named : Bytes → ℕ → Bytes → Types → PeaType

  pub data Types : Type 0 where
    nil : Types
    cons : PeaType → Types → Types

unfoldable pub count : Types → ℕ
count nil = 0
count (cons t ts) = suc (count ts)

unfoldable mutual
  pub mangle_type : PeaType → Bytes
  mangle_type (named mod_path arity name args) =
      write_str mod_path ++ (write_int arity ++ (write_str name ++ mangle_types args))

  pub mangle_types : Types → Bytes
  mangle_types nil = []
  mangle_types (cons t ts) = mangle_type t ++ mangle_types ts

-- A type variable, by the number of its Ifaces.
pub record TypeVar : Type 0 where
  pub ifaces : ℕ

pub record Recv : Type 0 where
  pub recv_type : PeaType
  pub parms : List TypeVar

-- What the mangler reads of a `types.Fun`. A pointer is a number: `self` is the function's own, and
-- `def_insts` are those of Def.Insts.
pub record Fun : Type 0 where
  pub test : Bool
  pub recv : Option Recv
  pub targs : Types
  pub mod_path : Bytes
  pub sel : Bytes
  pub tparms : List TypeVar
  pub inst_mod_path : Bytes
  pub self : ℕ
  pub def_insts : List ℕ

unfoldable pub has_iface : List TypeVar → Bool
has_iface [] = false
has_iface (p ∷ ps) = ltb 0 p.ifaces || has_iface ps

-- The letter, and the receiver's type.
unfoldable pub mangle_kind : Bool → Option Recv → Bytes
mangle_kind true recv = b'T' ∷ []
mangle_kind false none = b'F' ∷ []
mangle_kind false (some recv) = b'M' ∷ mangle_type recv.recv_type

unfoldable pub recv_constraint : Bool → Option Recv → Bool
recv_constraint true recv = false
recv_constraint false none = false
recv_constraint false (some recv) = has_iface recv.parms

unfoldable pub type_constraint : Fun → Bool
type_constraint f = recv_constraint f.test f.recv || has_iface f.tparms

-- The loop over `fun.Def.Insts`: the place of the function among them.
unfoldable pub index_of : ℕ → List ℕ → Option ℕ
index_of f [] = none
index_of f (g ∷ gs) = let later = Option.map suc (index_of f gs) in if f == g then some 0 else later

-- What makes the name of a constrained instance unique; `none` is the panic.
unfoldable pub mangle_unique : Fun → Option Bytes
mangle_unique f =
    if type_constraint f
    then Option.map (λ i. write_int i ++ write_str f.inst_mod_path) (index_of f.self f.def_insts)
    else some []

unfoldable pub mangle_head : Fun → Bytes
mangle_head f =
    mangle_kind f.test f.recv
    ++ (write_int (count f.targs)
        ++ (mangle_types f.targs ++ (write_str f.mod_path ++ write_str f.sel)))

-- `mangleTypesFun`
unfoldable pub mangle_fun : Fun → Option Bytes
mangle_fun f = Option.map (λ u. mangle_head f ++ u) (mangle_unique f)

abbrev pub space : ℕ
space = b' '

-- The arguments joined by a comma and a space.
unfoldable pub join : List Bytes → Bytes
join [] = []
join (a ∷ []) = a
join (a ∷ b ∷ more) = a ++ (b',' ∷ space ∷ join (b ∷ more))

-- Arguments in front of a name: none, one, or a list in parentheses.
unfoldable pub args_text : List Bytes → Bytes
args_text [] = []
args_text (a ∷ []) = a ++ space ∷ []
args_text (a ∷ b ∷ more) = b'(' ∷ (join (a ∷ b ∷ more) ++ b')' ∷ space ∷ [])

-- A module path and a space, unless the path is empty.
unfoldable pub mod_text : Bytes → Bytes
mod_text [] = []
mod_text (c ∷ s) = c ∷ (s ++ space ∷ [])

unfoldable mutual
  -- `demangleType`; the fuel bounds the depth of the calls.
  pub demangle_type : ℕ → Reader → Read Bytes
  demangle_type zero rr = err out_of_fuel
  demangle_type (suc fuel) rr = do
    (mod_path, r1) ← read_str rr
    (arity, r2) ← read_int r1
    (name, r3) ← read_str r2
    (args, r4) ← demangle_args fuel arity r3
    ok (args_text args ++ (mod_text mod_path ++ name), r4)

  -- The loop that demangles so many arguments.
  pub demangle_args : ℕ → ℕ → Reader → Read (List Bytes)
  demangle_args zero n rr = err out_of_fuel
  demangle_args (suc fuel) zero rr = ok ([], rr)
  demangle_args (suc fuel) (suc n) rr = do
    (arg, r1) ← demangle_type fuel rr
    (args, r2) ← demangle_args fuel n r1
    ok (arg ∷ args, r2)

-- Enough fuel for a reader.
unfoldable pub fuel_for : Reader → ℕ
fuel_for rr = suc (suc (length rr))

-- The texts "Func ", "Meth " and "test ".
abbrev pub func_text : Bytes
func_text = b'F' ∷ b'u' ∷ b'n' ∷ b'c' ∷ space ∷ []

abbrev pub meth_text : Bytes
meth_text = b'M' ∷ b'e' ∷ b't' ∷ b'h' ∷ space ∷ []

abbrev pub test_text : Bytes
test_text = b't' ∷ b'e' ∷ b's' ∷ b't' ∷ space ∷ []

unfoldable pub demangle_method : Reader → Read Bytes
demangle_method rr = do
  (recv, rest) ← demangle_type (fuel_for rr) rr
  ok (meth_text ++ (recv ++ space ∷ []), rest)

unfoldable pub demangle_kind : Reader → Read Bytes
unfolding demangle_method
demangle_kind [] = err unexpected_eof
demangle_kind (r ∷ rr) =
    if r == b'F'
    then ok (func_text, rr)
    else if r == b'M'
    then demangle_method rr
    else if r == b'T'
    then ok (test_text, rr)
    else err (expected_f_or_m r)

-- What follows the selector: nothing, or a number and a module.
unfoldable pub demangle_unique : IntRead → Result Bytes
demangle_unique eof = ok []
demangle_unique (failed e) = err e
demangle_unique (got n rr) = do
  (mod_path, rest) ← read_str rr
  ok (space ∷ (decimal n ++ (space ∷ mod_path)))

-- `demangleFun`
unfoldable pub demangle_fun : Reader → Result Bytes
demangle_fun rr = do
  (kind, r1) ← demangle_kind rr
  (nargs, r2) ← read_int r1
  (args, r3) ← demangle_args (fuel_for r2) nargs r2
  (mod_path, r4) ← read_str r3
  (sel, r5) ← read_str r4
  unique ← demangle_unique (read_int_or_eof r5)
  ok (kind ++ (args_text args ++ (mod_text mod_path ++ (sel ++ unique))))

unfoldable pub no_args : ℕ → Result (Unit {0})
no_args zero = ok tt
no_args (suc n) = err expected_0_args

-- `demangleTestName`, behind its letter and whole
unfoldable pub demangle_named_test : Reader → Result (Bytes × Bytes)
demangle_named_test rr = do
  (nargs, r1) ← read_int rr
  _ ← no_args nargs
  (mod_path, r2) ← read_str r1
  (name, r3) ← read_str r2
  ok (mod_path, name)

unfoldable pub demangle_test_name : Reader → Result (Bytes × Bytes)
unfolding demangle_named_test
demangle_test_name [] = err unexpected_eof
demangle_test_name (r ∷ rr) = if r == b'T' then demangle_named_test rr else err expected_t
