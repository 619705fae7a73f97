-- ===== src/Gengo/Mangle/Injective.antt =====
-- gengo/mangle.go: what the mangled name of a type determines.
use pea_old.Prelude.{ℕ, ◌≤◌, ◌≡◌, refl, sym, ap, ◌∙◌, ◌++◌, arith}
use mathlib.Core.List.{append_assoc}
use pea_old.Utf8.{Bytes, runes, encode_all}
use pea_old.Gengo.Token.{Reader, write_str, write_int, read_str, read_int}
use pea_old.Gengo.Token.RoundTrip.{read_str-write_str, read_int-write_int}
use pea_old.Gengo.Mangle.{PeaType, named, Types, nil, cons, count, mangle_type, mangle_types}

-- A string that decoding and encoding leave as it is, as valid UTF-8 is.
abbrev pub IsUtf8 : Bytes → Type 0
IsUtf8 s = encode_all (runes s) ≡ s

-- The arity is the number of arguments, and small enough to be read; the strings are UTF-8.
abbrev mutual
  pub IsProper : PeaType → Type 0
  IsProper (named m n s args) =
      IsUtf8 m × IsUtf8 s × (n ≤ 40969) × (n ≡ count args) × AllProper args

  pub AllProper : Types → Type 0
  AllProper nil = Unit
  AllProper (cons t ts) = IsProper t × AllProper ts

pub write_str_cancel :
    (s t : Bytes) (r q : Reader)
    → IsUtf8 s
    → IsUtf8 t
    → write_str s ++ r ≡ write_str t ++ q
    → (s ≡ t) × (r ≡ q)
write_str_cancel s t r q hs ht e =
    ground (arith, read_str-write_str s r, read_str-write_str t q, ap read_str e)

pub write_int_cancel :
    (n m : ℕ) (r q : Reader)
    → n ≤ 40969
    → m ≤ 40969
    → write_int n ++ r ≡ write_int m ++ q
    → (n ≡ m) × (r ≡ q)
write_int_cancel n m r q hn hm e =
    ground (arith, read_int-write_int n r, read_int-write_int m q, ap read_int e)

unfoldable pub fields : Bytes → ℕ → Bytes → Types → Reader → Reader
fields m n s args r = write_str m ++ (write_int n ++ (write_str s ++ (mangle_types args ++ r)))

pub fields_lem :
    (m : Bytes) (n : ℕ) (s : Bytes) (args : Types) (r : Reader)
    → mangle_type (named m n s args) ++ r ≡ fields m n s args r
unfolding mangle_type fields
fields_lem m n s args r = simp append_assoc

mutual
  unfolding mangle_type mangle_types count fields

  type_cancel :
      (t u : PeaType) (r q : Reader)
      → IsProper t
      → IsProper u
      → mangle_type t ++ r ≡ mangle_type u ++ q
      → (t ≡ u) × (r ≡ q)
  type_cancel (named m n s args) (named m' n' s' args') r q (hm, hs, hn, ha, hp)
        (km, ks, kn, ka, kp) e =
      let (em, e1) =
        write_str_cancel m m' _ _ hm km
          (sym (fields_lem m n s args r) ∙ e ∙ fields_lem m' n' s' args' q) in
      let (en, e2) = write_int_cancel n n' _ _ hn kn e1 in
      let (es, e3) = write_str_cancel s s' _ _ hs ks e2 in
      let (et, e4) = types_cancel args args' r q hp kp (sym ha ∙ en ∙ ka) e3 in (cc, e4)

  types_cancel :
      (ts us : Types) (r q : Reader)
      → AllProper ts
      → AllProper us
      → count ts ≡ count us
      → mangle_types ts ++ r ≡ mangle_types us ++ q
      → (ts ≡ us) × (r ≡ q)
  types_cancel nil nil r q h k c e = (refl, e)
  types_cancel nil (cons u us) r q h k c e = absurd (omega arith)
  types_cancel (cons t ts) nil r q h k c e = absurd (omega arith)
  types_cancel (cons t ts) (cons u us) r q (h, hs) (k, ks) c e =
      let (et, e1) = type_cancel t u (mangle_types ts ++ r) (mangle_types us ++ q) h k (
        sym (append_assoc (mangle_type t) (mangle_types ts) r)
        ∙ e
        ∙ append_assoc (mangle_type u) (mangle_types us) q) in
      let (es, e2) = types_cancel ts us r q hs ks (omega arith) e1 in (cc, e2)

-- Two types whose mangled names agree, each with text behind it, are the same type, and the texts
-- agree. No mangled type is the beginning of another. Both types have as many arguments as their
-- arity says, at most 40969, and names in UTF-8.
pub mangle_type_cancel :
    (t u : PeaType) (r q : Reader)
    → IsProper t
    → IsProper u
    → mangle_type t ++ r ≡ mangle_type u ++ q
    → (t ≡ u) × (r ≡ q)
mangle_type_cancel t u r q h k e = type_cancel t u r q h k e

pub mangle_types_cancel :
    (ts us : Types) (r q : Reader)
    → AllProper ts
    → AllProper us
    → count ts ≡ count us
    → mangle_types ts ++ r ≡ mangle_types us ++ q
    → (ts ≡ us) × (r ≡ q)
mangle_types_cancel ts us r q h k c e = types_cancel ts us r q h k c e
