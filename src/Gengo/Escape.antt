-- ===== src/Gengo/Escape.antt =====
-- gengo/escape.go: strings as parts of Go identifiers. A builder's output is the list that the
-- function returns; `WriteRune` appends the rune's UTF-8 and `WriteByte` one byte.
pub mod RoundTrip
use pea_old.Prelude.{
  ℕ, suc, ◌+◌, ◌-◌, ◌*◌, ◌/◌, ◌%◌, Bool, ◌&&◌, ◌||◌, List, [], ◌∷◌, ◌++◌, leb, ltb, ◌==◌,
  if◌then◌else◌,
}
use pea_old.Utf8.{Bytes, encode_rune, runes, rune_error, within}

abbrev pub underscore : ℕ
underscore = b'_'

-- `azAZ09`
abbrev pub az_az09 : ℕ → Bool
az_az09 r = within b'a' b'z' r || within b'A' b'Z' r || within b'0' b'9' r

-- `hexDigit` of a byte
unfoldable pub hex_digit : ℕ → ℕ
hex_digit b = let r = b % 16 in if ltb r 10 then r + b'0' else r + (b'A' - 10)

unfoldable pub escape_bytes : Bytes → Bytes
unfolding hex_digit
escape_bytes [] = []
escape_bytes (b ∷ bs) = underscore ∷ hex_digit (b / 16) ∷ hex_digit (b % 16) ∷ escape_bytes bs

-- What `escape` writes for one rune.
unfoldable pub escape_rune : ℕ → Bytes
escape_rune r = if az_az09 r then encode_rune r else escape_bytes (encode_rune r)

unfoldable pub escape_runes : List ℕ → Bytes
escape_runes [] = []
escape_runes (r ∷ rs) = escape_rune r ++ escape_runes rs

unfoldable pub escape : Bytes → Bytes
escape s = escape_runes (runes s)

-- Every error of this package, with the value that its message shows.
pub data Error : Type 0 where
  bad_hex_digit bad_digit : ℕ → Error
  unexpected_eof number_too_big : Error
  expected_t expected_0_args : Error
  expected_f_or_m : ℕ → Error
  -- not an error of the source: the model's fuel ran out
  out_of_fuel : Error

pub data Result {ℓ} (A : Type ℓ) : Type ℓ where
  ok : A → Result A
  err : Error → Result A

infixl 5 ◌>>=◌
abbrev pub ◌>>=◌ {ℓ κ} : {A : Type ℓ} {B : Type κ} → Result A → (A → Result B) → Result B
ok a >>= f = f a
err e >>= f = err e

-- `hexVal`, which looks at the low byte of a rune only
unfoldable pub hex_val : ℕ → Result ℕ
hex_val d =
    let b = d % 256 in
    if within b'A' b'F' b
    then ok (b - (b'A' - 10))
    else if within b'0' b'9' b
    then ok (b - b'0')
    else err (bad_hex_digit d)

-- Where the loop of `unescape` stands: between units, behind `_`, or behind `_` and a digit.
pub data Pending : Type 0 where
  plain first : Pending
  second : ℕ → Pending

-- The loop of `unescape` over the runes of its string; at the end of the string
-- `DecodeRuneInString` returns `RuneError`.
unfoldable pub unescape_runes : Pending → List ℕ → Result Bytes
unescape_runes plain [] = ok []
unescape_runes first [] = hex_val rune_error >>= λ n. ok []
unescape_runes (second n0) [] = hex_val rune_error >>= λ n. ok []
unescape_runes plain (r ∷ rs) =
    let escaped = unescape_runes first rs in
    let copied = unescape_runes plain rs >>= λ out. ok (encode_rune r ++ out) in
    if r == underscore then escaped else copied
unescape_runes first (d0 ∷ rs) = hex_val d0 >>= λ n0. unescape_runes (second n0) rs
unescape_runes (second n0) (d1 ∷ rs) =
    hex_val d1 >>= λ n1. unescape_runes plain rs >>= λ out. ok ((n0 * 16 % 256 + n1) ∷ out)

unfoldable pub unescape : Bytes → Result Bytes
unescape s = unescape_runes plain (runes s)
