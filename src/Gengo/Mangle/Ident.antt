-- ===== src/Gengo/Mangle/Ident.antt =====
-- gengo/mangle.go: the characters of mangled names.
use pea_old.Prelude.{
  ℕ, zero, suc, ◌+◌, ◌/◌, ◌%◌, ◌<◌, ◌≡◌, refl, Bool, true, false, [], ◌∷◌, ◌++◌, Option, none, some,
  arith, if◌then◌else◌,
}
use mathlib.Core.Option
use mathlib.Core.Path.{subst}
use pea_old.Utf8.{Bytes}
use pea_old.Gengo.Escape.{escape, underscore}
use pea_old.Gengo.Escape.RoundTrip.{IsIdent, AllIdent, AllIdent-append, escape-AllIdent}
use pea_old.Gengo.Token.{write_str, write_int, decimal, decimal_from}
use pea_old.Gengo.Mangle.{
  PeaType, named, Types, nil, cons, count, mangle_type, mangle_types, Recv, Fun, mangle_kind,
  mangle_unique, mangle_head, mangle_fun, type_constraint, index_of,
}

write_str-AllIdent : (s : Bytes) → AllIdent (write_str s)
unfolding write_str
write_str-AllIdent s = AllIdent-append (escape s) _ (escape-AllIdent s) (refl, (refl, tt))

digit-IsIdent : (d : ℕ) → d < 10 → IsIdent (b'0' + d)
digit-IsIdent d h = ground arith

decimal_from-AllIdent :
    (fuel n : ℕ) (out : Bytes) → AllIdent out → AllIdent (decimal_from fuel n out)
unfolding decimal_from
decimal_from-AllIdent zero n out h = h
decimal_from-AllIdent (suc fuel) n out h = ground (
  arith,
  digit-IsIdent n,
  digit-IsIdent (n % 10),
  decimal_from-AllIdent fuel (n / 10) ((b'0' + n % 10) ∷ out),
)

write_int-AllIdent : (n : ℕ) → AllIdent (write_int n)
unfolding write_int decimal
write_int-AllIdent n =
    AllIdent-append (decimal_from (suc n) n []) (underscore ∷ [])
      (decimal_from-AllIdent (suc n) n [] tt) (refl, tt)

mutual
  unfolding mangle_type mangle_types

  mangle_type_ident : (t : PeaType) → AllIdent (mangle_type t)
  mangle_type_ident (named m n s args) = AllIdent-append (write_str m) _ (write_str-AllIdent m) (
      AllIdent-append (write_int n) _ (write_int-AllIdent n)
        (AllIdent-append (write_str s) _ (write_str-AllIdent s) (mangle_types_ident args)))

  mangle_types_ident : (ts : Types) → AllIdent (mangle_types ts)
  mangle_types_ident nil = tt
  mangle_types_ident (cons t ts) =
      AllIdent-append (mangle_type t) (mangle_types ts) (mangle_type_ident t)
        (mangle_types_ident ts)

pub mangle_type-AllIdent : (t : PeaType) → AllIdent (mangle_type t)
mangle_type-AllIdent t = mangle_type_ident t

mangle_kind-AllIdent : (test : Bool) (recv : Option Recv) → AllIdent (mangle_kind test recv)
unfolding mangle_kind
mangle_kind-AllIdent true recv = (refl, tt)
mangle_kind-AllIdent false none = (refl, tt)
mangle_kind-AllIdent false (some recv) = (refl, mangle_type_ident recv.recv_type)

mangle_head-AllIdent : (f : Fun) → AllIdent (mangle_head f)
unfolding mangle_head
mangle_head-AllIdent f = AllIdent-append _ _ (mangle_kind-AllIdent f.test f.recv) (
    AllIdent-append _ _ (write_int-AllIdent (count f.targs)) (
      AllIdent-append _ _ (mangle_types_ident f.targs)
        (AllIdent-append _ _ (write_str-AllIdent f.mod_path) (write_str-AllIdent f.sel))))

abbrev OptionIdent : Option Bytes → Type 0
OptionIdent none = Unit
OptionIdent (some s) = AllIdent s

place-OptionIdent :
    (s : Bytes) (o : Option ℕ) → OptionIdent (Option.map (λ i. write_int i ++ write_str s) o)
place-OptionIdent s none = tt
place-OptionIdent s (some i) =
    AllIdent-append (write_int i) (write_str s) (write_int-AllIdent i) (write_str-AllIdent s)

choose-OptionIdent :
    (b : Bool) (x y : Option Bytes)
    → OptionIdent x
    → OptionIdent y
    → OptionIdent (if b then x else y)
choose-OptionIdent true x y h k = h
choose-OptionIdent false x y h k = k

mangle_unique-OptionIdent : (f : Fun) → OptionIdent (mangle_unique f)
unfolding mangle_unique
mangle_unique-OptionIdent f =
    choose-OptionIdent (type_constraint f) _ (some [])
      (place-OptionIdent f.inst_mod_path (index_of f.self f.def_insts)) tt

append-OptionIdent :
    (s : Bytes) (o : Option Bytes)
    → AllIdent s
    → OptionIdent o
    → OptionIdent (Option.map (λ u. s ++ u) o)
append-OptionIdent s none h k = tt
append-OptionIdent s (some u) h k = AllIdent-append s u h k

-- Every mangled name is made of letters, digits and `_`.
pub mangle_fun-AllIdent : (f : Fun) (s : Bytes) → mangle_fun f ≡ some s → AllIdent s
unfolding mangle_fun
mangle_fun-AllIdent f s h = subst OptionIdent h (
    append-OptionIdent (mangle_head f) (mangle_unique f) (mangle_head-AllIdent f)
      (mangle_unique-OptionIdent f))
