-- ===== src/Gengo/Mangle/Keys.antt =====
-- gengo/mangle.go: what the mangled name of a function determines.
use pea_old.Prelude.{
  ℕ, ◌≤◌, ◌≡◌, ◌≢◌, refl, sym, ap, ◌∙◌, Bool, true, false, [], ◌∷◌, ◌++◌, Option, none, some, arith,
  if◌then◌else◌,
}
use mathlib.Core.Option
use mathlib.Core.List.{append_assoc, append-nil}
use pea_old.Utf8.{Bytes}
use pea_old.Gengo.Token.{Reader, write_str, write_int, decimal}
use pea_old.Gengo.Escape.{underscore}
use pea_old.Gengo.Mangle.{
  PeaType, count, mangle_type, mangle_types, Recv, Fun, type_constraint, index_of, mangle_kind,
  mangle_unique, mangle_head, mangle_fun,
}
use pea_old.Gengo.Mangle.Injective.{
  IsUtf8, IsProper, AllProper, write_str_cancel, write_int_cancel, mangle_type_cancel,
  mangle_types_cancel,
}

-- A test, a function, or a method of a type.
pub data Kind : Type 0 where
  test_kind func_kind : Kind
  method_kind : PeaType → Kind

abbrev pub kind_of : Bool → Option Recv → Kind
kind_of true recv = test_kind
kind_of false none = func_kind
kind_of false (some recv) = method_kind recv.recv_type

abbrev pub kind_text : Kind → Bytes
kind_text test_kind = b'T' ∷ []
kind_text func_kind = b'F' ∷ []
kind_text (method_kind t) = b'M' ∷ mangle_type t

abbrev pub KindIsProper : Kind → Type 0
KindIsProper test_kind = Unit
KindIsProper func_kind = Unit
KindIsProper (method_kind t) = IsProper t

-- The instance's number and module, for a function with a constraint on a type variable.
abbrev pub unique_of : Fun → Option (ℕ × Bytes)
unique_of f =
    if type_constraint f
    then Option.map (λ i. (i, f.inst_mod_path)) (index_of f.self f.def_insts)
    else none

abbrev pub unique_text : Option (ℕ × Bytes) → Bytes
unique_text none = []
unique_text (some (i, m)) = write_int i ++ write_str m

abbrev pub UniqueIsProper : Option (ℕ × Bytes) → Type 0
UniqueIsProper none = Unit
UniqueIsProper (some (i, m)) = (i ≤ 40969) × IsUtf8 m

-- Everything that the name is made of can be read back.
pub record FunIsProper (f : Fun) : Type 0 where
  pub kind : KindIsProper (kind_of f.test f.recv)
  pub targs : AllProper f.targs
  pub few : count f.targs ≤ 40969
  pub path : IsUtf8 f.mod_path
  pub selector : IsUtf8 f.sel
  pub unique : UniqueIsProper (unique_of f)

mangle_kind-kind_text :
    (test : Bool) (recv : Option Recv) → mangle_kind test recv ≡ kind_text (kind_of test recv)
unfolding mangle_kind
mangle_kind-kind_text true recv = refl
mangle_kind-kind_text false none = refl
mangle_kind-kind_text false (some recv) = refl

pub mangle_unique-unique_text :
    (f : Fun) (u : Bytes) → mangle_unique f ≡ some u → u ≡ unique_text (unique_of f)
unfolding mangle_unique
mangle_unique-unique_text f u h = ground arith

kind_cancel :
    (k l : Kind) (r q : Reader)
    → KindIsProper k
    → KindIsProper l
    → kind_text k ++ r ≡ kind_text l ++ q
    → (k ≡ l) × (r ≡ q)
kind_cancel test_kind test_kind r q h g e = (refl, cc)
kind_cancel func_kind func_kind r q h g e = (refl, cc)
kind_cancel (method_kind t) (method_kind u) r q h g e =
    let (et, er) = mangle_type_cancel t u r q h g (cc) in (ap method_kind et, er)
kind_cancel test_kind func_kind r q h g e = ground arith
kind_cancel test_kind (method_kind u) r q h g e = ground arith
kind_cancel func_kind test_kind r q h g e = ground arith
kind_cancel func_kind (method_kind u) r q h g e = ground arith
kind_cancel (method_kind t) test_kind r q h g e = ground arith
kind_cancel (method_kind t) func_kind r q h g e = ground arith

append-cons-ne-nil : (xs ys zs : Bytes) (y : ℕ) → (xs ++ (y ∷ ys)) ++ zs ≢ []
append-cons-ne-nil [] ys zs y e = cc
append-cons-ne-nil (x ∷ xs) ys zs y e = cc

write_int-ne-nil : (i : ℕ) (r : Reader) → write_int i ++ r ≢ []
unfolding write_int
write_int-ne-nil i r = append-cons-ne-nil (decimal i) [] r underscore

unique_cancel :
    (u v : Option (ℕ × Bytes))
    → UniqueIsProper u
    → UniqueIsProper v
    → unique_text u ≡ unique_text v
    → u ≡ v
unique_cancel none none h k e = refl
unique_cancel none (some (i, m)) h k e = absurd (write_int-ne-nil i (write_str m) (sym e))
unique_cancel (some (i, m)) none h k e = absurd (write_int-ne-nil i (write_str m) e)
unique_cancel (some (i, m)) (some (j, n)) (hi, hm) (hj, hn) e =
    let (ei, em) = write_int_cancel i j (write_str m) (write_str n) hi hj e in
    let (es, _) =
      write_str_cancel m n [] [] hm hn
        (append-nil (write_str m) ∙ em ∙ sym (append-nil (write_str n))) in
    cc

-- The mangled name as one row of parts.
unfoldable pub row : Fun → Bytes → Reader
row f u =
    kind_text (kind_of f.test f.recv)
    ++ (write_int (count f.targs)
        ++ (mangle_types f.targs ++ (write_str f.mod_path ++ (write_str f.sel ++ u))))

mangle_head-row : (f : Fun) (u : Bytes) → mangle_head f ++ u ≡ row f u
unfolding mangle_head row
mangle_head-row f u = simp (append_assoc, mangle_kind-kind_text)

pub mangle_fun-row :
    (f : Fun) (s : Bytes) → mangle_fun f ≡ some s → s ≡ row f (unique_text (unique_of f))
unfolding mangle_fun
mangle_fun-row f s h =
    let (u, eu, es) = (Option.map-eq-some_iff (λ u. mangle_head f ++ u) (mangle_unique f)).0 h in
    sym es ∙ ap (λ t. mangle_head f ++ t) (mangle_unique-unique_text f u eu) ∙ mangle_head-row f _

row_cancel :
    (f g : Fun) (u v : Bytes)
    → FunIsProper f
    → FunIsProper g
    → row f u ≡ row g v
    → (kind_of f.test f.recv ≡ kind_of g.test g.recv)
      × (f.targs ≡ g.targs)
      × (f.mod_path ≡ g.mod_path)
      × (f.sel ≡ g.sel)
      × (u ≡ v)
unfolding row
row_cancel f g u v p q e =
    let (ek, e1) =
      kind_cancel (kind_of f.test f.recv) (kind_of g.test g.recv) _ _ p.kind q.kind e in
    let (ec, e2) = write_int_cancel (count f.targs) (count g.targs) _ _ p.few q.few e1 in
    let (et, e3) = mangle_types_cancel f.targs g.targs _ _ p.targs q.targs ec e2 in
    let (em, e4) = write_str_cancel f.mod_path g.mod_path _ _ p.path q.path e3 in
    let (es, e5) = write_str_cancel f.sel g.sel u v p.selector q.selector e4 in (ek, et, em, es, e5)

-- Two functions that get the same name agree in what is mangled: test, function or method and the
-- receiver's type, type arguments, module, selector and, where a type variable has a constraint,
-- the number and the module of the instance. The types have as many arguments as their arity says,
-- numbers are at most 40969, and strings are UTF-8.
pub mangle_fun_injective :
    (f g : Fun) (s : Bytes)
    → FunIsProper f
    → FunIsProper g
    → mangle_fun f ≡ some s
    → mangle_fun g ≡ some s
    → (kind_of f.test f.recv ≡ kind_of g.test g.recv)
      × (f.targs ≡ g.targs)
      × (f.mod_path ≡ g.mod_path)
      × (f.sel ≡ g.sel)
      × (unique_of f ≡ unique_of g)
mangle_fun_injective f g s p q hf hg =
    let (ek, et, em, es, eu) =
      row_cancel f g (unique_text (unique_of f)) (unique_text (unique_of g)) p q
        (sym (mangle_fun-row f s hf) ∙ mangle_fun-row g s hg) in
    (ek, et, em, es, unique_cancel (unique_of f) (unique_of g) p.unique q.unique eu)
