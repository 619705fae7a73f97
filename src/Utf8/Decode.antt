-- ===== src/Utf8/Decode.antt =====
-- Encoding and decoding of UTF-8 together.
use pea_old.Prelude.{
  ℕ, suc, ◌+◌, ◌*◌, ◌/◌, ◌%◌, ◌<◌, ◌≤◌, ◌≡◌, refl, ◌∙◌, ap, false, List, [], ◌∷◌, ◌++◌, arith,
  length,
}
use pea_old.Utf8.{
  Bytes, is_surrogate, encode_rune, encode3, decode_rune, Decoded, runes_after, runes, encode_all,
}

-- A Unicode scalar value.
abbrev pub IsScalar : ℕ → Type 0
IsScalar r = (r < 0x110000) × (is_surrogate r ≡ false)

abbrev pub AllScalar : List ℕ → Type 0
AllScalar [] = Unit
AllScalar (r ∷ rs) = IsScalar r × AllScalar rs

decode_rune-two :
    (q t : ℕ) (s : Bytes)
    → 2 ≤ q
    → q < 32
    → t < 64
    → decode_rune (0xc0 + q) ((0x80 + t) ∷ s) ≡ record { rune = q * 64 + t; width = 2 }
unfolding decode_rune
decode_rune-two q t s h k l = ground arith

decode_rune-three :
    (q u t : ℕ) (s : Bytes)
    → q < 16
    → u < 64
    → t < 64
    → (q ≡ 0 → 32 ≤ u)
    → (q ≡ 13 → u < 32)
    → decode_rune (0xe0 + q) ((0x80 + u) ∷ (0x80 + t) ∷ s)
      ≡ record { rune = q * 4096 + u * 64 + t; width = 3 }
unfolding decode_rune
decode_rune-three q u t s h k l m n = ground arith

decode_rune-four :
    (q v u t : ℕ) (s : Bytes)
    → q < 5
    → v < 64
    → u < 64
    → t < 64
    → (q ≡ 0 → 16 ≤ v)
    → (q ≡ 4 → v < 16)
    → decode_rune (0xf0 + q) ((0x80 + v) ∷ (0x80 + u) ∷ (0x80 + t) ∷ s)
      ≡ record { rune = q * 262144 + v * 4096 + u * 64 + t; width = 4 }
unfolding decode_rune
decode_rune-four q v u t s h k l m n o = ground arith

runes_after-one : (r : ℕ) (s : Bytes) → r < 0x80 → runes_after 0 (r ∷ s) ≡ r ∷ runes_after 0 s
unfolding runes_after decode_rune
runes_after-one r s h = ground arith

-- A rune of known width is read, and its other bytes are passed.
runes_after-width :
    (a r : ℕ) (t s : Bytes)
    → decode_rune a (t ++ s) ≡ record { rune = r; width = suc (length t) }
    → runes_after 0 (a ∷ t ++ s) ≡ r ∷ runes_after (length t) (t ++ s)
unfolding runes_after
runes_after-width a r t s h = rw h (ap (λ k. r ∷ runes_after k (t ++ s)) (omega arith))

runes_after-pass : (t s : Bytes) → runes_after (length t) (t ++ s) ≡ runes_after 0 s
unfolding runes_after
runes_after-pass [] s = refl
runes_after-pass (b ∷ t) s = runes_after-pass t s

runes_after-encoded :
    (a r : ℕ) (t s : Bytes) (d : Decoded)
    → decode_rune a (t ++ s) ≡ d
    → d.rune ≡ r
    → d.width ≡ suc (length t)
    → runes_after 0 (a ∷ t ++ s) ≡ r ∷ runes_after 0 s
runes_after-encoded a r t s d h e w =
    runes_after-width a r t s (ground arith) ∙ ap (λ l. r ∷ l) (runes_after-pass t s)

runes_after-two :
    (r : ℕ) (s : Bytes)
    → 0x80 ≤ r
    → r < 0x800
    → runes_after 0 ((0xc0 + r / 64) ∷ (0x80 + r % 64) ∷ s) ≡ r ∷ runes_after 0 s
runes_after-two r s h k =
    runes_after-encoded (0xc0 + r / 64) r ((0x80 + r % 64) ∷ []) s _
      (decode_rune-two (r / 64) (r % 64) s (omega arith) (omega arith) (omega arith)) (omega arith)
      refl

runes_after-three :
    (r : ℕ) (s : Bytes)
    → 0x800 ≤ r
    → r < 0x10000
    → is_surrogate r ≡ false
    → runes_after 0 (encode3 r ++ s) ≡ r ∷ runes_after 0 s
runes_after-three r s h k n =
    runes_after-encoded (0xe0 + r / 4096) r ((0x80 + r / 64 % 64) ∷ (0x80 + r % 64) ∷ []) s _
      (decode_rune-three (r / 4096) (r / 64 % 64) (r % 64) s (omega arith) (omega arith)
        (omega arith) (λ e. omega arith) (λ e. ground arith))
      (omega arith) refl

runes_after-four :
    (r : ℕ) (s : Bytes)
    → 0x10000 ≤ r
    → r < 0x110000
    → runes_after 0
        ((0xf0 + r / 262144) ∷ (0x80 + r / 4096 % 64) ∷ (0x80 + r / 64 % 64) ∷ (0x80 + r % 64) ∷ s)
      ≡ r ∷ runes_after 0 s
runes_after-four r s h k =
    runes_after-encoded (0xf0 + r / 262144) r
      ((0x80 + r / 4096 % 64) ∷ (0x80 + r / 64 % 64) ∷ (0x80 + r % 64) ∷ []) s _
      (decode_rune-four (r / 262144) (r / 4096 % 64) (r / 64 % 64) (r % 64) s (omega arith)
        (omega arith) (omega arith) (omega arith) (λ e. omega arith) (λ e. omega arith))
      (omega arith) refl

pub runes_after-encode_rune :
    (r : ℕ) (s : Bytes) → IsScalar r → runes_after 0 (encode_rune r ++ s) ≡ r ∷ runes_after 0 s
unfolding encode_rune
runes_after-encode_rune r s h =
    ground
      (arith, runes_after-one r s, runes_after-two r s, runes_after-three r s, runes_after-four r s)

-- A string that encodes scalar values decodes to them.
pub runes-encode_all : (rs : List ℕ) → AllScalar rs → runes (encode_all rs) ≡ rs
unfolding runes encode_all
runes-encode_all [] h = refl
runes-encode_all (r ∷ rs) (h, hs) =
    runes_after-encode_rune r (encode_all rs) h ∙ ap (λ t. r ∷ t) (runes-encode_all rs hs)
