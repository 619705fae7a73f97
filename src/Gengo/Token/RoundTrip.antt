-- ===== src/Gengo/Token/RoundTrip.antt =====
-- gengo/mangle.go: `readStr` and `readInt` on what `writeStr` and `writeInt` write.
use pea_old.Prelude.{
  ℕ, zero, suc, ◌+◌, ◌/◌, ◌%◌, ◌<◌, ◌≤◌, ◌≡◌, refl, ◌∙◌, false, true, List, [], ◌∷◌, ◌++◌, ltb,
  arith, Bool-cases, inl, inr,
}
use mathlib.Core.List.{append_assoc, append-nil}
use pea_old.Utf8.{Bytes, encode_rune, encode_all, runes}
use pea_old.Gengo.Escape.{
  underscore, az_az09, hex_digit, escape_bytes, escape_rune, escape_runes, escape, ok, ◌>>=◌,
  unescape, err, number_too_big,
}
use pea_old.Gengo.Escape.RoundTrip.{unescape-escape}
use pea_old.Gengo.Token.{
  Reader, write_str, read_str_from, read_str, decimal_from, decimal, write_int, got, failed,
  read_int_from, read_int_or_eof, read_int,
}

-- Reading a plain character.
read_str_from-plain :
    (c : ℕ) (out : Bytes) (rr : Reader)
    → az_az09 c ≡ true
    → read_str_from false out (c ∷ rr) ≡ read_str_from false (out ++ c ∷ []) rr
unfolding read_str_from encode_rune
read_str_from-plain c out rr h = ground arith

hex_digit-az_az09 : (b : ℕ) → az_az09 (hex_digit b) ≡ true
unfolding hex_digit
hex_digit-az_az09 b = ground arith

read_str_from-escaped :
    (c : ℕ) (out : Bytes) (rr : Reader)
    → az_az09 c ≡ true
    → read_str_from false out (underscore ∷ c ∷ rr)
      ≡ read_str_from false (out ++ underscore ∷ c ∷ []) rr
unfolding read_str_from encode_rune
read_str_from-escaped c out rr h = ground arith

read_str_from-byte :
    (d0 d1 : ℕ) (out : Bytes) (rr : Reader)
    → az_az09 d0 ≡ true
    → az_az09 d1 ≡ true
    → read_str_from false out (underscore ∷ d0 ∷ d1 ∷ rr)
      ≡ read_str_from false (out ++ underscore ∷ d0 ∷ d1 ∷ []) rr
read_str_from-byte d0 d1 out rr h k =
    read_str_from-escaped d0 out (d1 ∷ rr) h
    ∙ read_str_from-plain d1 (out ++ underscore ∷ d0 ∷ []) rr k
    ∙ rw append_assoc

read_str_from-escape_bytes :
    (bs out : Bytes) (rr : Reader)
    → read_str_from false out (escape_bytes bs ++ rr)
      ≡ read_str_from false (out ++ escape_bytes bs) rr
unfolding escape_bytes
read_str_from-escape_bytes [] out rr = rw append-nil
read_str_from-escape_bytes (b ∷ bs) out rr =
    read_str_from-byte (hex_digit (b / 16)) (hex_digit (b % 16)) out (escape_bytes bs ++ rr)
      (hex_digit-az_az09 (b / 16)) (hex_digit-az_az09 (b % 16))
    ∙ read_str_from-escape_bytes bs _ rr
    ∙ rw append_assoc

encode_rune-az_az09 : (r : ℕ) → az_az09 r ≡ true → encode_rune r ≡ r ∷ []
unfolding encode_rune
encode_rune-az_az09 r h = ground arith

read_str_from-escape_rune :
    (r : ℕ) (out : Bytes) (rr : Reader)
    → read_str_from false out (escape_rune r ++ rr) ≡ read_str_from false (out ++ escape_rune r) rr
unfolding escape_rune
read_str_from-escape_rune r out rr = elim (Bool-cases (az_az09 r)) [
  | inl safe ↦ rw (safe, encode_rune-az_az09 r safe) (read_str_from-plain r out rr safe)
  | inr other ↦ rw other (read_str_from-escape_bytes (encode_rune r) out rr)
]

read_str_from-escape_runes :
    (rs : List ℕ) (out : Bytes) (rr : Reader)
    → read_str_from false out (escape_runes rs ++ rr)
      ≡ read_str_from false (out ++ escape_runes rs) rr
unfolding escape_runes
read_str_from-escape_runes [] out rr = rw append-nil
read_str_from-escape_runes (r ∷ rs) out rr = rw append_assoc (
    read_str_from-escape_rune r out (escape_runes rs ++ rr)
    ∙ read_str_from-escape_runes rs _ rr
    ∙ rw append_assoc)

read_str_from-end :
    (out : Bytes) (rr : Reader)
    → read_str_from false out (underscore ∷ underscore ∷ rr) ≡ (unescape out >>= λ s. ok (s, rr))
unfolding read_str_from
read_str_from-end out rr = refl

-- `readStr` reads back what `writeStr` wrote, whatever follows it. A byte that is not UTF-8 comes
-- back as U+FFFD.
pub read_str-write_str :
    (s : Bytes) (rest : Reader) → read_str (write_str s ++ rest) ≡ ok (encode_all (runes s), rest)
unfolding read_str write_str
read_str-write_str s rest = rw append_assoc (
    unfold escape in
    read_str_from-escape_runes (runes s) [] (underscore ∷ underscore ∷ rest)
    ∙ read_str_from-end (escape s) rest
    ∙ rw (unescape-escape s))

-- Reading digits behind a number continues it.
read_int_from-decimal_from :
    (fuel n : ℕ) (out : Bytes)
    → n < fuel
    → n ≤ 40969
    → read_int_from 0 (decimal_from fuel n out) ≡ read_int_from n out
unfolding read_int_from decimal_from
read_int_from-decimal_from zero n out h k = elim h [ ]
read_int_from-decimal_from (suc fuel) n out h k =
    ground (arith, read_int_from-decimal_from fuel (n / 10) ((b'0' + n % 10) ∷ out))

decimal_from-append :
    (fuel n : ℕ) (out rest : Bytes)
    → decimal_from fuel n out ++ rest ≡ decimal_from fuel n (out ++ rest)
unfolding decimal_from
decimal_from-append zero n out rest = refl
decimal_from-append (suc fuel) n out rest =
    ground (arith, decimal_from-append fuel (n / 10) ((b'0' + n % 10) ∷ out) rest)

write_int-append :
    (n : ℕ) (rest : Reader) → write_int n ++ rest ≡ decimal_from (suc n) n (underscore ∷ rest)
unfolding write_int decimal
write_int-append n rest =
    append_assoc (decimal_from (suc n) n []) (underscore ∷ []) rest
    ∙ decimal_from-append (suc n) n [] (underscore ∷ rest)

read_int_from-end : (n : ℕ) (rest : Reader) → read_int_from n (underscore ∷ rest) ≡ got n rest
unfolding read_int_from
read_int_from-end n rest = refl

-- `readIntOrEOF` reads back what `writeInt` wrote, up to the number 40969.
pub read_int_or_eof-write_int :
    (n : ℕ) (rest : Reader) → n ≤ 40969 → read_int_or_eof (write_int n ++ rest) ≡ got n rest
unfolding read_int_or_eof
read_int_or_eof-write_int n rest h = rw (write_int-append n rest) (
    read_int_from-decimal_from (suc n) n (underscore ∷ rest) (omega arith) h
    ∙ read_int_from-end n rest)

-- `readInt` reads back what `writeInt` wrote, up to the number 40969.
pub read_int-write_int :
    (n : ℕ) (rest : Reader) → n ≤ 40969 → read_int (write_int n ++ rest) ≡ ok (n, rest)
unfolding read_int
read_int-write_int n rest h = rw (read_int_or_eof-write_int n rest h)

read_int_from-refuse :
    (n d : ℕ) (out : Bytes)
    → 4096 < n
    → d < 10
    → read_int_from n ((b'0' + d) ∷ out) ≡ failed number_too_big
unfolding read_int_from
read_int_from-refuse n d out h k = ground arith

decimal_from-round :
    (fuel n : ℕ) (out : Bytes)
    → 10 ≤ n
    → decimal_from (suc fuel) n out ≡ decimal_from fuel (n / 10) ((b'0' + n % 10) ∷ out)
unfolding decimal_from
decimal_from-round fuel n out h = ground arith

read_int_from-too_big :
    (fuel n d : ℕ) (out : Bytes)
    → n < fuel
    → 4096 < n
    → d < 10
    → read_int_from 0 (decimal_from fuel n ((b'0' + d) ∷ out)) ≡ failed number_too_big
read_int_from-too_big zero n d out h k l = elim h [ ]
read_int_from-too_big (suc fuel) n d out h k l = elim (Bool-cases (ltb 40969 n)) [
  | inl big ↦ rw (decimal_from-round fuel n ((b'0' + d) ∷ out) (ground arith)) (
      read_int_from-too_big fuel (n / 10) (n % 10) ((b'0' + d) ∷ out) (omega arith) (ground arith)
        (omega arith))
  | inr small ↦
      read_int_from-decimal_from (suc fuel) n ((b'0' + d) ∷ out) h (ground arith)
      ∙ read_int_from-refuse n d out k l
]

-- A number above 40969 is written, and cannot be read.
pub read_int-too_big :
    (n : ℕ) (rest : Reader) → 40969 < n → read_int (write_int n ++ rest) ≡ err number_too_big
unfolding read_int
read_int-too_big n rest h =
    rw (write_int-append n rest ∙ decimal_from-round n n (underscore ∷ rest) (omega arith)) (
      unfold read_int_or_eof in
      rw (
        read_int_from-too_big n (n / 10) (n % 10) (underscore ∷ rest) (omega arith) (omega arith)
          (omega arith)))
