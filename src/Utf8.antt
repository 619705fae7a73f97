-- ===== src/Utf8.antt =====
-- UTF-8 as Go's `range` over a string, `utf8.EncodeRune` and `utf8.DecodeRuneInString` have it.
-- A Go string is the list of its bytes.
pub mod Decode
use pea_old.Prelude.{
  ℕ, zero, suc, ◌+◌, ◌-◌, ◌*◌, ◌/◌, ◌%◌, Bool, ◌&&◌, ◌||◌, List, [], ◌∷◌, ◌++◌, leb, ltb, ◌==◌,
  if◌then◌else◌,
}

abbrev pub Bytes : Type 0
Bytes = List ℕ

-- U+FFFD stands for each byte that begins no encoded rune.
abbrev pub rune_error : ℕ
rune_error = 0xfffd

abbrev pub within : ℕ → ℕ → ℕ → Bool
within lo hi b = leb lo b && leb b hi

abbrev pub is_surrogate : ℕ → Bool
is_surrogate r = within 0xd800 0xdfff r

abbrev pub encode3 : ℕ → Bytes
encode3 r = (0xe0 + r / 4096) ∷ (0x80 + r / 64 % 64) ∷ (0x80 + r % 64) ∷ []

unfoldable pub encode_rune : ℕ → Bytes
encode_rune r =
    if ltb r 0x80
    then r ∷ []
    else if ltb r 0x800
    then (0xc0 + r / 64) ∷ (0x80 + r % 64) ∷ []
    else if is_surrogate r || ltb 0x10ffff r
    then encode3 rune_error
    else if ltb r 0x10000
    then encode3 r
    else (0xf0 + r / 262144) ∷ (0x80 + r / 4096 % 64) ∷ (0x80 + r / 64 % 64) ∷ (0x80 + r % 64) ∷ []

-- A rune, and how many bytes it takes.
pub record Decoded : Type 0 where
  pub rune : ℕ
  pub width : ℕ

abbrev bad : Decoded
bad = record { rune = rune_error; width = 1 }

-- The least and the greatest second byte behind the first byte `b`.
abbrev lowest : ℕ → ℕ
lowest b = if b == 0xe0 then 0xa0 else if b == 0xf0 then 0x90 else 0x80

abbrev highest : ℕ → ℕ
highest b = if b == 0xed then 0x9f else if b == 0xf4 then 0x8f else 0xbf

abbrev second_ok : ℕ → ℕ → Bool
second_ok b c = within (lowest b) (highest b) c

abbrev tail_ok : ℕ → Bool
tail_ok c = within 0x80 0xbf c

decode2 : ℕ → Bytes → Decoded
decode2 a [] = bad
decode2 a (b ∷ s) =
    if second_ok a b then record { rune = (a - 0xc0) * 64 + (b - 0x80); width = 2 } else bad

decode3 : ℕ → Bytes → Decoded
decode3 a [] = bad
decode3 a (b ∷ []) = bad
decode3 a (b ∷ c ∷ s) =
    if second_ok a b && tail_ok c
    then record { rune = (a - 0xe0) * 4096 + (b - 0x80) * 64 + (c - 0x80); width = 3 }
    else bad

decode4 : ℕ → Bytes → Decoded
decode4 a [] = bad
decode4 a (b ∷ []) = bad
decode4 a (b ∷ c ∷ []) = bad
decode4 a (b ∷ c ∷ d ∷ s) =
    if second_ok a b && tail_ok c && tail_ok d
    then record {
      rune = (a - 0xf0) * 262144 + (b - 0x80) * 4096 + (c - 0x80) * 64 + (d - 0x80);
      width = 4;
    }
    else bad

-- The rune at the head of `a ∷ s`.
unfoldable pub decode_rune : ℕ → Bytes → Decoded
unfolding decode2 decode3 decode4
decode_rune a s =
    if ltb a 0x80
    then record { rune = a; width = 1 }
    else if within 0xc2 0xdf a
    then decode2 a s
    else if within 0xe0 0xef a
    then decode3 a s
    else if within 0xf0 0xf4 a
    then decode4 a s
    else bad

-- The runes of a string in order, with `skip` bytes of the last one still to pass.
unfoldable pub runes_after : ℕ → Bytes → List ℕ
runes_after skip [] = []
runes_after zero (a ∷ s) = let d = decode_rune a s in d.rune ∷ runes_after (d.width - 1) s
runes_after (suc skip) (a ∷ s) = runes_after skip s

unfoldable pub runes : Bytes → List ℕ
unfolding runes_after
runes s = runes_after 0 s

unfoldable pub encode_all : List ℕ → Bytes
encode_all [] = []
encode_all (r ∷ rs) = encode_rune r ++ encode_all rs
