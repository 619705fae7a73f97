-- ===== src/Gengo/Escape/RoundTrip.antt =====
-- gengo/escape.go: `escape` and `unescape` together.
use pea_old.Prelude.{
  ℕ, ◌/◌, ◌%◌, ◌<◌, ◌≡◌, refl, ◌∙◌, ap, true, List, [], ◌∷◌, ◌++◌, ◌==◌, ◌||◌, arith, Bool-cases,
  inl, inr,
}
use pea_old.Utf8.{decode_rune, Bytes, encode_rune, encode_all, runes, runes_after}
use pea_old.Utf8.Decode.{AllScalar, runes-encode_all}
use pea_old.Gengo.Escape.{
  underscore, az_az09, hex_digit, escape_bytes, escape_rune, escape_runes, escape, ok, hex_val,
  plain, unescape_runes, unescape,
}

abbrev pub AllBytes : Bytes → Type 0
AllBytes [] = Unit
AllBytes (b ∷ bs) = (b < 256) × AllBytes bs

-- The characters of a Go identifier in ASCII.
abbrev pub IsIdent : ℕ → Type 0
IsIdent c = (az_az09 c || c == underscore) ≡ true

abbrev pub AllIdent : Bytes → Type 0
AllIdent [] = Unit
AllIdent (c ∷ cs) = IsIdent c × AllIdent cs

pub AllIdent-append : (s t : Bytes) → AllIdent s → AllIdent t → AllIdent (s ++ t)
AllIdent-append [] t h k = k
AllIdent-append (c ∷ s) t (h, hs) k = (h, AllIdent-append s t hs k)

pub hex_digit-IsIdent : (b : ℕ) → IsIdent (hex_digit b)
unfolding hex_digit
hex_digit-IsIdent b = ground arith

pub hex_digit-lt : (b : ℕ) → hex_digit b < 0x80
unfolding hex_digit
hex_digit-lt b = ground arith

hex_val-hex_digit : (b : ℕ) → b < 16 → hex_val (hex_digit b) ≡ ok b
unfolding hex_digit hex_val
hex_val-hex_digit b h = ground arith

escape_bytes-AllIdent : (bs : Bytes) → AllIdent (escape_bytes bs)
unfolding escape_bytes
escape_bytes-AllIdent [] = tt
escape_bytes-AllIdent (b ∷ bs) =
    (refl, (hex_digit-IsIdent (b / 16), (hex_digit-IsIdent (b % 16), escape_bytes-AllIdent bs)))

encode_rune-AllIdent : (r : ℕ) → az_az09 r ≡ true → AllIdent (encode_rune r)
unfolding encode_rune
encode_rune-AllIdent r h = ground arith

escape_rune-AllIdent : (r : ℕ) → AllIdent (escape_rune r)
unfolding escape_rune
escape_rune-AllIdent r =
    ground (arith, escape_bytes-AllIdent (encode_rune r), encode_rune-AllIdent r)

pub escape_runes-AllIdent : (rs : List ℕ) → AllIdent (escape_runes rs)
unfolding escape_runes
escape_runes-AllIdent [] = tt
escape_runes-AllIdent (r ∷ rs) =
    AllIdent-append (escape_rune r) (escape_runes rs) (escape_rune-AllIdent r)
      (escape_runes-AllIdent rs)

-- Every string, valid UTF-8 or not, is escaped to letters, digits and `_`.
pub escape-AllIdent : (s : Bytes) → AllIdent (escape s)
unfolding escape
escape-AllIdent s = escape_runes-AllIdent (runes s)

runes_after-ident : (c : ℕ) (s : Bytes) → c < 0x80 → runes_after 0 (c ∷ s) ≡ c ∷ runes_after 0 s
unfolding runes_after decode_rune
runes_after-ident c s h = ground arith

IsIdent-lt : (c : ℕ) → IsIdent c → c < 0x80
IsIdent-lt c h = ground arith

-- Characters of identifiers are runes of one byte.
pub runes-AllIdent : (s : Bytes) → AllIdent s → runes s ≡ s
unfolding runes
runes-AllIdent [] h = unfold runes_after in refl
runes-AllIdent (c ∷ s) (h, hs) =
    runes_after-ident c s (IsIdent-lt c h) ∙ ap (λ t. c ∷ t) (runes-AllIdent s hs)

encode_rune-bytes : (r : ℕ) → AllBytes (encode_rune r)
unfolding encode_rune
encode_rune-bytes r = ground arith

unescape_runes-byte :
    (b : ℕ) (rest out : Bytes)
    → b < 256
    → unescape_runes plain rest ≡ ok out
    → unescape_runes plain (underscore ∷ hex_digit (b / 16) ∷ hex_digit (b % 16) ∷ rest)
      ≡ ok (b ∷ out)
unfolding unescape_runes
unescape_runes-byte b rest out h e =
    ground (arith, hex_val-hex_digit (b / 16), hex_val-hex_digit (b % 16))

unescape_runes-escape_bytes :
    (bs : Bytes) (rest out : Bytes)
    → AllBytes bs
    → unescape_runes plain rest ≡ ok out
    → unescape_runes plain (escape_bytes bs ++ rest) ≡ ok (bs ++ out)
unfolding escape_bytes
unescape_runes-escape_bytes [] rest out h e = e
unescape_runes-escape_bytes (b ∷ bs) rest out (h, hs) e =
    unescape_runes-byte b (escape_bytes bs ++ rest) (bs ++ out) h
      (unescape_runes-escape_bytes bs rest out hs e)

encode_rune-az_az09 : (r : ℕ) → az_az09 r ≡ true → encode_rune r ≡ r ∷ []
unfolding encode_rune
encode_rune-az_az09 r h = ground arith

unescape_runes-copied :
    (r : ℕ) (rest out : Bytes)
    → az_az09 r ≡ true
    → unescape_runes plain rest ≡ ok out
    → unescape_runes plain (r ∷ rest) ≡ ok (encode_rune r ++ out)
unfolding unescape_runes
unescape_runes-copied r rest out h e = ground arith

unescape_runes-escape_rune :
    (r : ℕ) (rest out : Bytes)
    → unescape_runes plain rest ≡ ok out
    → unescape_runes plain (escape_rune r ++ rest) ≡ ok (encode_rune r ++ out)
unfolding escape_rune
unescape_runes-escape_rune r rest out e = elim (Bool-cases (az_az09 r)) [
  | inl safe ↦
      let one = encode_rune-az_az09 r safe in
      let copied = unescape_runes-copied r rest out safe e in rw (safe, one) (rw one at copied)
  | inr other ↦
      rw other (unescape_runes-escape_bytes (encode_rune r) rest out (encode_rune-bytes r) e)
]

pub unescape_runes-escape_runes :
    (rs : List ℕ) → unescape_runes plain (escape_runes rs) ≡ ok (encode_all rs)
unfolding escape_runes encode_all
unescape_runes-escape_runes [] = unfold unescape_runes in refl
unescape_runes-escape_runes (r ∷ rs) =
    unescape_runes-escape_rune r (escape_runes rs) (encode_all rs) (unescape_runes-escape_runes rs)

-- `unescape` of an escaped string gives the runes that `range` saw, encoded anew: a byte that is
-- not UTF-8 comes back as U+FFFD.
pub unescape-escape : (s : Bytes) → unescape (escape s) ≡ ok (encode_all (runes s))
unfolding unescape escape
unescape-escape s =
    rw (runes-AllIdent (escape_runes (runes s)) (escape_runes-AllIdent (runes s)))
      (unescape_runes-escape_runes (runes s))

-- A string that is valid UTF-8 comes back as it was.
unescape-escape_utf8 :
    (rs : List ℕ) → AllScalar rs → unescape (escape (encode_all rs)) ≡ ok (encode_all rs)
unescape-escape_utf8 rs h =
    unescape-escape (encode_all rs) ∙ ap (λ t. ok (encode_all t)) (runes-encode_all rs h)
