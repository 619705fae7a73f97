-- ===== src/Gengo/Examples.antt =====
-- Names of a small function and its type.
use pea_old.Prelude.{◌≡◌, ◌≢◌, refl, false, [], ◌∷◌, ◌++◌, some, arith}
use pea_old.Utf8.{Bytes, runes, encode_all, decode_rune, runes_after, encode_rune}
use pea_old.Gengo.Escape.{
  escape, unescape, ok, err, number_too_big, escape_runes, escape_rune, escape_bytes,
}
use pea_old.Gengo.Escape.RoundTrip.{AllIdent, unescape-escape}
use pea_old.Gengo.Token.{write_str, read_str, write_int, read_int}
use pea_old.Gengo.Token.RoundTrip.{read_str-write_str, read_int-write_int, read_int-too_big}
use pea_old.Gengo.Mangle.{
  PeaType, named, nil, cons, Fun, mangle_type, mangle_fun, demangle_type, count, recv_constraint,
  type_constraint, has_iface, index_of, mangle_unique, mangle_head, fuel_for, demangle_fun,
  demangle_test_name,
}
use pea_old.Gengo.Mangle.Ident.{mangle_fun-AllIdent}
use pea_old.Gengo.Mangle.TypeNames.{show_type, demangle_type-mangle_type}
use pea_old.Gengo.Mangle.FunNames.{
  show_fun, test_name, demangle_fun-mangle_fun, demangle_test_name-mangle_fun,
}
use pea_old.Gengo.Mangle.Injective.{IsProper, mangle_type_cancel}
use pea_old.Gengo.Mangle.Keys.{FunIsProper, kind_of, unique_of, mangle_fun_injective}
use pea_old.Gengo.Mangle.Total.{demangle_type-Ends, Ends, demangle_fun-total}
use pea_old.Gengo.Escape.{out_of_fuel}

-- "a/b"
abbrev path : Bytes
path = b'a' ∷ b'/' ∷ b'b' ∷ []

escape_path : escape path ≡ b'a' ∷ b'_' ∷ b'2' ∷ b'F' ∷ b'b' ∷ []
unfolding escape escape_runes escape_rune escape_bytes runes runes_after decode_rune encode_rune
escape_path = refl

unescape-escape_example : unescape (escape path) ≡ ok (encode_all (runes path))
unescape-escape_example = unescape-escape path

read_str-write_str_example :
    read_str (write_str path ++ b'x' ∷ []) ≡ ok (encode_all (runes path), b'x' ∷ [])
read_str-write_str_example = read_str-write_str path (b'x' ∷ [])

read_int-write_int_example : read_int (write_int 40969 ++ b'x' ∷ []) ≡ ok (40969, b'x' ∷ [])
read_int-write_int_example = read_int-write_int 40969 (b'x' ∷ []) (omega arith)

read_int-too_big_example : read_int (write_int 40970 ++ []) ≡ err number_too_big
read_int-too_big_example = read_int-too_big 40970 [] (omega arith)

abbrev int : PeaType
int = named [] 0 (b'I' ∷ []) nil

-- "I Array", of the module a/b
abbrev array : PeaType
array = named path 1 (b'A' ∷ []) (cons int nil)

path_utf8 : encode_all (runes path) ≡ path
unfolding encode_all runes runes_after decode_rune encode_rune
path_utf8 = refl

array-IsProper : IsProper array
unfolding encode_all runes runes_after decode_rune encode_rune count
array-IsProper = (refl, refl, omega arith, refl, ((refl, refl, omega arith, refl, tt), tt))

demangle_type-mangle_type_example :
    demangle_type (fuel_for (mangle_type array ++ b'x' ∷ [])) (mangle_type array ++ b'x' ∷ [])
    ≡ ok (show_type array, b'x' ∷ [])
demangle_type-mangle_type_example = demangle_type-mangle_type array (b'x' ∷ []) array-IsProper

mangle_type_cancel_example : (array ≡ array) × (◌≡◌ {A = Bytes} [] [])
mangle_type_cancel_example = mangle_type_cancel array array [] [] array-IsProper array-IsProper refl

-- A method of the type above in the module a/b, with a type argument. Its receiver's parameter has a
-- constraint, and it is the second instance of its definition.
abbrev method : Fun
method = record {
  test = false;
  recv = some (record { recv_type = array; parms = record { ifaces = 1 } ∷ [] });
  targs = cons int nil;
  mod_path = path;
  sel = b's' ∷ [];
  tparms = [];
  inst_mod_path = path;
  self = 7;
  def_insts = 6 ∷ 7 ∷ [];
}

method-FunIsProper : FunIsProper method
unfolding encode_all runes runes_after decode_rune encode_rune count type_constraint recv_constraint
    has_iface index_of
method-FunIsProper = record {
  kind = array-IsProper;
  targs = ((refl, refl, omega arith, refl, tt), tt);
  few = omega arith;
  path = refl;
  selector = refl;
  unique = (omega arith, refl);
}

abbrev method_name : Bytes
method_name = mangle_head method ++ (write_int 1 ++ write_str path)

method_mangled : mangle_fun method ≡ some method_name
unfolding mangle_fun mangle_unique type_constraint recv_constraint has_iface index_of
method_mangled = refl

mangle_fun-AllIdent_example : AllIdent method_name
mangle_fun-AllIdent_example = mangle_fun-AllIdent method method_name method_mangled

mangle_fun_injective_example :
    (kind_of false method.recv ≡ kind_of false method.recv)
    × (cons int nil ≡ cons int nil)
    × (path ≡ path)
    × (method.sel ≡ method.sel)
    × (unique_of method ≡ unique_of method)
mangle_fun_injective_example =
    mangle_fun_injective method method method_name method-FunIsProper method-FunIsProper
      method_mangled method_mangled

demangle_fun-mangle_fun_example : demangle_fun (runes method_name) ≡ ok (show_fun method)
demangle_fun-mangle_fun_example =
    demangle_fun-mangle_fun method method_name method-FunIsProper method_mangled

demangle_test_name-mangle_fun_example : demangle_test_name (runes method_name) ≡ test_name method
demangle_test_name-mangle_fun_example =
    demangle_test_name-mangle_fun method method_name method-FunIsProper method_mangled

demangle_type-Ends_example : Ends 3 (b'x' ∷ []) (demangle_type (fuel_for (b'x' ∷ [])) (b'x' ∷ []))
demangle_type-Ends_example = demangle_type-Ends (b'x' ∷ [])

demangle_fun-total_example : demangle_fun (b'F' ∷ b'x' ∷ []) ≢ err out_of_fuel
demangle_fun-total_example = demangle_fun-total (b'F' ∷ b'x' ∷ [])
