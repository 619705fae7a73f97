-- ===== src/Gengo/Token.antt =====
-- gengo/mangle.go: the strings and numbers that mangled names are made of, written and read.
-- A reader is the list of the runes that `ReadRune` still has to return.
pub mod RoundTrip
pub mod Shorter
use pea_old.Prelude.{
  ℕ, zero, suc, ◌+◌, ◌-◌, ◌*◌, ◌/◌, ◌%◌, Bool, true, false, ◌||◌, List, [], ◌∷◌, ◌++◌, ltb, ◌==◌,
  if◌then◌else◌,
}
use pea_old.Utf8.{Bytes, encode_rune}
use pea_old.Gengo.Escape.{
  Error, Result, ok, err, ◌>>=◌, underscore, escape, unescape, unexpected_eof, bad_digit,
  number_too_big,
}

abbrev pub Reader : Type 0
Reader = List ℕ

-- What is read, and the reader behind it.
abbrev pub Read : Type 0 → Type 0
Read A = Result (A × Reader)

unfoldable pub write_str : Bytes → Bytes
write_str s = escape s ++ underscore ∷ underscore ∷ []

-- The loop of `readStr`: the flag is `esc`, and `out` the builder.
unfoldable pub read_str_from : Bool → Bytes → Reader → Read Bytes
read_str_from esc out [] = err unexpected_eof
read_str_from true out (r ∷ rr) =
    let more = read_str_from false (out ++ underscore ∷ encode_rune r) rr in
    if r == underscore then (unescape out >>= λ s. ok (s, rr)) else more
read_str_from false out (r ∷ rr) =
    let behind = read_str_from true out rr in
    let more = read_str_from false (out ++ encode_rune r) rr in
    if r == underscore then behind else more

unfoldable pub read_str : Reader → Read Bytes
read_str rr = read_str_from false [] rr

-- `%d` of a number that is not negative: its decimal digits in front of `out`. The fuel is more
-- than the number, which is at least its count of digits.
unfoldable pub decimal_from : ℕ → ℕ → Bytes → Bytes
decimal_from zero n out = out
decimal_from (suc fuel) n out =
    let more = decimal_from fuel (n / 10) ((b'0' + n % 10) ∷ out) in
    if ltb n 10 then (b'0' + n) ∷ out else more

unfoldable pub decimal : ℕ → Bytes
decimal n = decimal_from (suc n) n []

unfoldable pub write_int : ℕ → Bytes
write_int n = decimal n ++ underscore ∷ []

-- `readIntOrEOF` returns `io.EOF` as an error of its own.
pub data IntRead : Type 0 where
  got : ℕ → Reader → IntRead
  eof : IntRead
  failed : Error → IntRead

unfoldable pub read_int_from : ℕ → Reader → IntRead
read_int_from n [] = eof
read_int_from n (r ∷ rr) =
    let more = read_int_from (n * 10 + (r - b'0')) rr in
    if r == underscore
    then got n rr
    else if ltb r b'0' || ltb b'9' r
    then failed (bad_digit r)
    else if ltb 4096 n
    then failed number_too_big
    else more

unfoldable pub read_int_or_eof : Reader → IntRead
read_int_or_eof rr = read_int_from 0 rr

abbrev pub int_or_error : IntRead → Read ℕ
int_or_error (got n rest) = ok (n, rest)
int_or_error eof = err unexpected_eof
int_or_error (failed e) = err e

unfoldable pub read_int : Reader → Read ℕ
read_int rr = int_or_error (read_int_or_eof rr)
