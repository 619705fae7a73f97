-- ===== src/Gengo/Mangle/TypeNames.antt =====
-- gengo/mangle.go: `demangleType` on mangled types.
use pea_old.Prelude.{
  ℕ, zero, suc, ◌+◌, ◌≤◌, ◌<◌, ◌≡◌, refl, ap, ◌∙◌, List, [], ◌∷◌, ◌++◌, arith, length,
  length-append,
}
use mathlib.Core.List.{append_assoc}
use pea_old.Utf8.{Bytes}
use pea_old.Gengo.Escape.{ok, ◌>>=◌, escape, underscore}
use pea_old.Gengo.Token.{Reader, write_str, write_int, read_str, read_int, decimal}
use pea_old.Gengo.Token.RoundTrip.{read_str-write_str, read_int-write_int}
use pea_old.Gengo.Mangle.{
  PeaType, named, Types, nil, cons, count, mangle_type, mangle_types, args_text, mod_text,
  demangle_type, demangle_args, fuel_for,
}
use pea_old.Gengo.Mangle.Injective.{IsUtf8, IsProper, AllProper, fields, fields_lem}

-- The text of a type: its arguments, its module and its name.
unfoldable mutual
  pub show_type : PeaType → Bytes
  show_type (named m n s args) = args_text (show_types args) ++ (mod_text m ++ s)

  pub show_types : Types → List Bytes
  show_types nil = []
  show_types (cons t ts) = show_type t ∷ show_types ts

-- How deep the calls for a type go.
mutual
  depth : PeaType → ℕ
  depth (named m n s args) = suc (depth_all args)

  depth_all : Types → ℕ
  depth_all nil = 1
  depth_all (cons t ts) = suc (depth t + depth_all ts)

pub read_str_utf8 : (s : Bytes) (r : Reader) → IsUtf8 s → read_str (write_str s ++ r) ≡ ok (s, r)
read_str_utf8 s r h = read_str-write_str s r ∙ ap (λ t. ok (t, r)) h

-- One round of `demangleType`, and one of its loop.
demangle_type-round :
    (fuel : ℕ) (rr r1 r2 r3 r4 : Reader) (m s : Bytes) (n : ℕ) (args : List Bytes)
    → read_str rr ≡ ok (m, r1)
    → read_int r1 ≡ ok (n, r2)
    → read_str r2 ≡ ok (s, r3)
    → demangle_args fuel n r3 ≡ ok (args, r4)
    → demangle_type (suc fuel) rr ≡ ok (args_text args ++ (mod_text m ++ s), r4)
unfolding demangle_type
demangle_type-round fuel rr r1 r2 r3 r4 m s n args h1 h2 h3 h4 = rw (h1, ◌>>=◌, h2, h3, h4)

demangle_args-round :
    (fuel n : ℕ) (rr r1 r2 : Reader) (arg : Bytes) (args : List Bytes)
    → demangle_type fuel rr ≡ ok (arg, r1)
    → demangle_args fuel n r1 ≡ ok (args, r2)
    → demangle_args (suc fuel) (suc n) rr ≡ ok (arg ∷ args, r2)
unfolding demangle_args
demangle_args-round fuel n rr r1 r2 arg args h1 h2 = rw (h1, ◌>>=◌, h2)

demangle_args-none : (fuel : ℕ) (rr : Reader) → demangle_args (suc fuel) 0 rr ≡ ok ([], rr)
unfolding demangle_args
demangle_args-none fuel rr = refl

mutual
  unfolding depth depth_all mangle_types count show_type show_types fields

  demangle_one :
      (fuel : ℕ) (t : PeaType) (r : Reader)
      → IsProper t
      → depth t ≤ fuel
      → demangle_type fuel (mangle_type t ++ r) ≡ ok (show_type t, r)
  demangle_one zero (named m n s args) r h d = absurd (omega arith)
  demangle_one (suc fuel) (named m n s args) r (hm, hs, hn, ha, hp) d =
      rw (fields_lem m n s args r) (
        demangle_type-round fuel _ _ _ _ r m s n (show_types args) (read_str_utf8 m _ hm)
          (read_int-write_int n _ hn) (read_str_utf8 s _ hs)
          (rw ha (demangle_all fuel args r hp (omega arith))))

  demangle_all :
      (fuel : ℕ) (ts : Types) (r : Reader)
      → AllProper ts
      → depth_all ts ≤ fuel
      → demangle_args fuel (count ts) (mangle_types ts ++ r) ≡ ok (show_types ts, r)
  demangle_all zero nil r h d = absurd (omega arith)
  demangle_all zero (cons t ts) r h d = absurd (omega arith)
  demangle_all (suc fuel) nil r h d = demangle_args-none fuel r
  demangle_all (suc fuel) (cons t ts) r (h, hs) d =
      rw (append_assoc (mangle_type t) (mangle_types ts) r) (
        demangle_args-round fuel (count ts) _ (mangle_types ts ++ r) r (show_type t) (show_types ts)
          (demangle_one fuel t (mangle_types ts ++ r) h (omega arith))
          (demangle_all fuel ts r hs (omega arith)))

write_str-long : (s : Bytes) → 2 ≤ length (write_str s)
unfolding write_str
write_str-long s = omega (arith, length-append (escape s) (underscore ∷ underscore ∷ []))

write_int-long : (n : ℕ) → 1 ≤ length (write_int n)
unfolding write_int
write_int-long n = omega (arith, length-append (decimal n) (underscore ∷ []))

mutual
  unfolding depth depth_all mangle_types

  depth-le : (t : PeaType) → depth t < length (mangle_type t)
  depth-le (named m n s args) = omega (
    arith,
    length-append (write_str m) (write_int n ++ (write_str s ++ mangle_types args)),
    length-append (write_int n) (write_str s ++ mangle_types args),
    length-append (write_str s) (mangle_types args),
    write_str-long m,
    write_str-long s,
    write_int-long n,
    depth_all-le args,
  )

  depth_all-le : (ts : Types) → depth_all ts ≤ suc (length (mangle_types ts))
  depth_all-le nil = omega arith
  depth_all-le (cons t ts) =
      omega (arith, length-append (mangle_type t) (mangle_types ts), depth-le t, depth_all-le ts)

-- `demangleType` reads back what `mangleType` wrote, whatever follows it: the result is the text of
-- the type, and the reader stands behind it. The type has as many arguments as its arity says, at
-- most 40969, and names in UTF-8. The fuel is what the demangler gives itself.
pub demangle_type-mangle_type :
    (t : PeaType) (r : Reader)
    → IsProper t
    → demangle_type (fuel_for (mangle_type t ++ r)) (mangle_type t ++ r) ≡ ok (show_type t, r)
unfolding fuel_for
demangle_type-mangle_type t r h =
    demangle_one _ t r h (omega (arith, depth-le t, length-append (mangle_type t) r))

pub demangle_args-mangle_types :
    (ts : Types) (r : Reader)
    → AllProper ts
    → demangle_args (fuel_for (mangle_types ts ++ r)) (count ts) (mangle_types ts ++ r)
      ≡ ok (show_types ts, r)
unfolding fuel_for
demangle_args-mangle_types ts r h =
    demangle_all _ ts r h (omega (arith, depth_all-le ts, length-append (mangle_types ts) r))
