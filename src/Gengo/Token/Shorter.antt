-- ===== src/Gengo/Token/Shorter.antt =====
-- gengo/mangle.go: the reader behind a string or a number.
use pea_old.Prelude.{
  ℕ, ◌+◌, ◌-◌, ◌*◌, ◌<◌, ◌≡◌, ◌≢◌, ◌⊎◌, refl, Bool, false, true, List, [], ◌∷◌, ◌++◌, arith, length,
  inl, inr,
}
use pea_old.Utf8.{Bytes, encode_rune, rune_error, runes}
use pea_old.Gengo.Escape.{
  Error, out_of_fuel, hex_val, Pending, plain, first, second, unescape_runes, underscore, Result,
  ok, err, ◌>>=◌, unescape,
}
use pea_old.Gengo.Token.{
  Reader, read_str_from, read_str, got, read_int_from, read_int_or_eof, read_int, int_or_error,
}

read_str_from-shorter :
    (esc : Bool) (out s : Bytes) (rr rest : Reader)
    → read_str_from esc out rr ≡ ok (s, rest)
    → length rest < length rr
unfolding read_str_from
read_str_from-shorter esc out s [] rest h = cc
read_str_from-shorter true out s (r ∷ rr) rest h =
    ground (arith, read_str_from-shorter false (out ++ underscore ∷ encode_rune r) s rr rest)
read_str_from-shorter false out s (r ∷ rr) rest h = ground (
  arith,
  read_str_from-shorter true out s rr rest,
  read_str_from-shorter false (out ++ encode_rune r) s rr rest,
)

pub read_str-shorter :
    (rr rest : Reader) (s : Bytes) → read_str rr ≡ ok (s, rest) → length rest < length rr
unfolding read_str
read_str-shorter rr rest s h = read_str_from-shorter false [] s rr rest h

read_int_from-shorter :
    (n m : ℕ) (rr rest : Reader) → read_int_from n rr ≡ got m rest → length rest < length rr
unfolding read_int_from
read_int_from-shorter n m [] rest h = cc
read_int_from-shorter n m (r ∷ rr) rest h =
    ground (arith, read_int_from-shorter (n * 10 + (r - b'0')) m rr rest)

pub read_int-shorter :
    (rr rest : Reader) (n : ℕ) → read_int rr ≡ ok (n, rest) → length rest < length rr
unfolding read_int read_int_or_eof
read_int-shorter rr rest n h = ground (arith, read_int_from-shorter 0 n rr rest)

-- No reader runs out of fuel: that is not an error of the source.
Result-cases : {A : Type 0} (m : Result A) → ((a : A) × (m ≡ ok a)) ⊎ ((e : Error) × (m ≡ err e))
Result-cases (ok a) = inl (a, refl)
Result-cases (err e) = inr (e, refl)

hex_val-cases : (d : ℕ) → ((n : ℕ) × (hex_val d ≡ ok n)) ⊎ ((e : Error) × (hex_val d ≡ err e))
hex_val-cases d = Result-cases (hex_val d)

hex_val-total : (d : ℕ) → hex_val d ≢ err out_of_fuel
unfolding hex_val
hex_val-total d = ground arith

unescape_runes-total : (p : Pending) (rs : List ℕ) → unescape_runes p rs ≢ err out_of_fuel
unfolding unescape_runes
unescape_runes-total plain [] = ground arith
unescape_runes-total first [] = ground (arith, hex_val-total rune_error)
unescape_runes-total (second n) [] = ground (arith, hex_val-total rune_error)
unescape_runes-total plain (r ∷ rs) =
    ground (arith, unescape_runes-total first rs, unescape_runes-total plain rs)
unescape_runes-total first (r ∷ rs) = elim (hex_val-cases r) [
  | inl (n, e) ↦ rw (e, ◌>>=◌) (unescape_runes-total (second n) rs)
  | inr (x, e) ↦ rw (e, ◌>>=◌) (λ q. hex_val-total r (cc))
]
unescape_runes-total (second n) (r ∷ rs) =
    ground (arith, hex_val-total r, unescape_runes-total plain rs)

read_str_from-total :
    (esc : Bool) (out : Bytes) (rr : Reader) → read_str_from esc out rr ≢ err out_of_fuel
unfolding read_str_from unescape
read_str_from-total esc out [] = ground arith
read_str_from-total true out (r ∷ rr) = ground (
  arith,
  read_str_from-total false (out ++ underscore ∷ encode_rune r) rr,
  unescape_runes-total plain (runes out),
)
read_str_from-total false out (r ∷ rr) =
    ground
      (arith, read_str_from-total true out rr, read_str_from-total false (out ++ encode_rune r) rr)

pub read_str-total : (rr : Reader) → read_str rr ≢ err out_of_fuel
unfolding read_str
read_str-total rr = read_str_from-total false [] rr

read_int_from-total : (n : ℕ) (rr : Reader) → int_or_error (read_int_from n rr) ≢ err out_of_fuel
unfolding read_int_from
read_int_from-total n [] = ground arith
read_int_from-total n (r ∷ rr) = ground (arith, read_int_from-total (n * 10 + (r - b'0')) rr)

pub read_int-total : (rr : Reader) → read_int rr ≢ err out_of_fuel
unfolding read_int read_int_or_eof
read_int-total rr = read_int_from-total 0 rr
