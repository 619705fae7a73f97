-- ===== src/Gengo/Mangle/FunNames.antt =====
-- gengo/mangle.go: `demangleFun` and `demangleTestName` on mangled names.
use pea_old.Prelude.{ℕ, suc, ◌≤◌, ◌≡◌, refl, sym, ◌∙◌, [], ◌∷◌, ◌++◌, Option, none, some}
use mathlib.Core.List.{append-nil}
use pea_old.Utf8.{Bytes, runes}
use pea_old.Gengo.Escape.{Result, ok, err, ◌>>=◌, expected_t, expected_0_args}
use pea_old.Gengo.Escape.RoundTrip.{runes-AllIdent}
use pea_old.Gengo.Token.{Reader, write_str, write_int, decimal, eof, read_int_or_eof, read_int_from}
use pea_old.Gengo.Token.RoundTrip.{read_int-write_int, read_int_or_eof-write_int}
use pea_old.Gengo.Mangle.{
  Types, nil, cons, count, mangle_type, mangle_types, Fun, mangle_fun, args_text, mod_text,
  func_text, meth_text, test_text, space, demangle_kind, demangle_unique, demangle_fun, no_args,
  demangle_named_test, demangle_test_name,
}
use pea_old.Gengo.Mangle.Ident.{mangle_fun-AllIdent}
use pea_old.Gengo.Mangle.Injective.{IsUtf8}
use pea_old.Gengo.Mangle.Keys.{
  Kind, test_kind, func_kind, method_kind, kind_of, kind_text, KindIsProper, unique_of, unique_text,
  UniqueIsProper, FunIsProper, row, mangle_fun-row,
}
use pea_old.Gengo.Mangle.TypeNames.{
  show_type, show_types, read_str_utf8, demangle_type-mangle_type, demangle_args-mangle_types,
}

show_kind : Kind → Bytes
show_kind test_kind = test_text
show_kind func_kind = func_text
show_kind (method_kind t) = meth_text ++ (show_type t ++ space ∷ [])

show_unique : Option (ℕ × Bytes) → Bytes
show_unique none = []
show_unique (some (i, m)) = space ∷ (decimal i ++ (space ∷ m))

-- The text of a function: its kind, type arguments, module and selector, and, for an instance that
-- a type constraint makes unique, its number and module.
pub show_fun : Fun → Bytes
show_fun f =
    show_kind (kind_of f.test f.recv)
    ++ (args_text (show_types f.targs)
        ++ (mod_text f.mod_path ++ (f.sel ++ show_unique (unique_of f))))

demangle_kind-kind_text :
    (k : Kind) (r : Reader)
    → KindIsProper k
    → demangle_kind (kind_text k ++ r) ≡ ok (show_kind k, r)
unfolding demangle_kind show_kind
demangle_kind-kind_text test_kind r h = refl
demangle_kind-kind_text func_kind r h = refl
demangle_kind-kind_text (method_kind t) r h = rw (demangle_type-mangle_type t r h)

read_int_or_eof-nil : read_int_or_eof [] ≡ eof
unfolding read_int_or_eof read_int_from
read_int_or_eof-nil = refl

demangle_unique-unique_text :
    (u : Option (ℕ × Bytes))
    → UniqueIsProper u
    → demangle_unique (read_int_or_eof (unique_text u)) ≡ ok (show_unique u)
unfolding demangle_unique show_unique
demangle_unique-unique_text none h = rw read_int_or_eof-nil
demangle_unique-unique_text (some (i, m)) (hi, hm) =
    rw (read_int_or_eof-write_int i (write_str m) hi)
      (rw (sym (append-nil (write_str m))) (rw (read_str_utf8 m [] hm)))

demangle_fun-row :
    (f : Fun) → FunIsProper f → demangle_fun (row f (unique_text (unique_of f))) ≡ ok (show_fun f)
unfolding demangle_fun row show_fun
demangle_fun-row f p = rw (
  demangle_kind-kind_text (kind_of f.test f.recv) _ p.kind,
  ◌>>=◌,
  read_int-write_int (count f.targs) _ p.few,
  demangle_args-mangle_types f.targs _ p.targs,
  read_str_utf8 f.mod_path _ p.path,
  read_str_utf8 f.sel _ p.selector,
  demangle_unique-unique_text (unique_of f) p.unique,
)

mangle_fun-runes :
    (f : Fun) (s : Bytes) → mangle_fun f ≡ some s → runes s ≡ row f (unique_text (unique_of f))
mangle_fun-runes f s h = runes-AllIdent s (mangle_fun-AllIdent f s h) ∙ mangle_fun-row f s h

-- `demangleFun` reads the name that `mangleTypesFun` gave back as the text of the function. The
-- numbers are at most 40969, the strings UTF-8.
pub demangle_fun-mangle_fun :
    (f : Fun) (s : Bytes)
    → FunIsProper f
    → mangle_fun f ≡ some s
    → demangle_fun (runes s) ≡ ok (show_fun f)
demangle_fun-mangle_fun f s p h = rw (mangle_fun-runes f s h) (demangle_fun-row f p)

-- What `demangleTestName` is to say of a function.
abbrev test_name_of : Kind → Types → Bytes × Bytes → Result (Bytes × Bytes)
test_name_of test_kind nil name = ok name
test_name_of test_kind (cons t ts) name = err expected_0_args
test_name_of func_kind ts name = err expected_t
test_name_of (method_kind t) ts name = err expected_t

pub test_name : Fun → Result (Bytes × Bytes)
test_name f = test_name_of (kind_of f.test f.recv) f.targs (f.mod_path, f.sel)

demangle_named_test-row :
    (ts : Types) (m s : Bytes) (u : Reader)
    → count ts ≤ 40969
    → IsUtf8 m
    → IsUtf8 s
    → demangle_named_test
        (write_int (count ts) ++ (mangle_types ts ++ (write_str m ++ (write_str s ++ u))))
      ≡ test_name_of test_kind ts (m, s)
unfolding demangle_named_test count mangle_types no_args
demangle_named_test-row nil m s u h hm hs = rw (
  read_int-write_int 0 (write_str m ++ (write_str s ++ u)) h,
  ◌>>=◌,
  read_str_utf8 m (write_str s ++ u) hm,
  read_str_utf8 s u hs,
)
demangle_named_test-row (cons t ts) m s u h hm hs = rw (
  read_int-write_int (suc (count ts))
      ((mangle_type t ++ mangle_types ts) ++ (write_str m ++ (write_str s ++ u))) h,
  ◌>>=◌,
)

demangle_test_name-kind_text :
    (k : Kind) (ts : Types) (m s : Bytes) (u : Reader)
    → count ts ≤ 40969
    → IsUtf8 m
    → IsUtf8 s
    → demangle_test_name (
        kind_text k
        ++ (write_int (count ts) ++ (mangle_types ts ++ (write_str m ++ (write_str s ++ u)))))
      ≡ test_name_of k ts (m, s)
unfolding demangle_test_name
demangle_test_name-kind_text test_kind ts m s u h hm hs = demangle_named_test-row ts m s u h hm hs
demangle_test_name-kind_text func_kind ts m s u h hm hs = refl
demangle_test_name-kind_text (method_kind t) ts m s u h hm hs = refl

demangle_test_name-row :
    (f : Fun) (u : Bytes) → FunIsProper f → demangle_test_name (row f u) ≡ test_name f
unfolding row test_name
demangle_test_name-row f u p =
    demangle_test_name-kind_text (kind_of f.test f.recv) f.targs f.mod_path f.sel u p.few p.path
      p.selector

-- `demangleTestName` gives the module and the name of a test with no type arguments, and an error
-- for a test with type arguments, a function and a method.
pub demangle_test_name-mangle_fun :
    (f : Fun) (s : Bytes)
    → FunIsProper f
    → mangle_fun f ≡ some s
    → demangle_test_name (runes s) ≡ test_name f
demangle_test_name-mangle_fun f s p h = rw (mangle_fun-runes f s h) (demangle_test_name-row f _ p)
