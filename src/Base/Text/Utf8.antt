-- ===== src/Base/Text/Utf8.antt =====
-- unicode/utf8 of Go's standard library: decoding, validity and the count of runes.
use mathlib.Core.Path.{◌≡◌, refl}
use mathlib.Core.Bool.{Bool, true, not, ◌&&◌}
use mathlib.Core.List.{List, [], ◌∷◌}
use native.Mathlib.Omega.{arith}
use Prim.Native.Nat.{ℕ, zero, suc, ◌+◌, ◌-◌, ◌*◌, ◌%◌, ◌≤◌, ◌<◌}
use game_rewards_service.Base.Tests.{leb, ltb, ◌==◌, if◌then◌else◌}
use game_rewards_service.Base.Lists.{length, all}

abbrev pub rune_error : ℕ
rune_error = 0xFFFD

-- A rune, and the bytes that it was decoded from.
pub record Chunk : Type 0 where
  pub rune : ℕ
  pub width : ℕ

abbrev within : ℕ → ℕ → ℕ → Bool
within lo hi b = leb lo b && leb b hi

abbrev invalid : Chunk
invalid = record { rune = rune_error; width = 1 }

decode_two : ℕ → List ℕ → Chunk
decode_two b0 [] = invalid
decode_two b0 (b1 ∷ _) =
    if within 0x80 0xBF b1 then record { rune = b0 % 32 * 64 + b1 % 64; width = 2 } else invalid

decode_three : ℕ → List ℕ → Chunk
decode_three b0 [] = invalid
decode_three b0 (b1 ∷ []) = invalid
decode_three b0 (b1 ∷ b2 ∷ _) =
    if within (if b0 == 0xE0 then 0xA0 else 0x80) (if b0 == 0xED then 0x9F else 0xBF) b1
      && within 0x80 0xBF b2
    then record { rune = b0 % 16 * 4096 + b1 % 64 * 64 + b2 % 64; width = 3 }
    else invalid

decode_four : ℕ → List ℕ → Chunk
decode_four b0 [] = invalid
decode_four b0 (b1 ∷ []) = invalid
decode_four b0 (b1 ∷ b2 ∷ []) = invalid
decode_four b0 (b1 ∷ b2 ∷ b3 ∷ _) =
    if within (if b0 == 0xF0 then 0x90 else 0x80) (if b0 == 0xF4 then 0x8F else 0xBF) b1
      && (within 0x80 0xBF b2 && within 0x80 0xBF b3)
    then record { rune = b0 % 8 * 262144 + b1 % 64 * 4096 + b2 % 64 * 64 + b3 % 64; width = 4 }
    else invalid

-- utf8.DecodeRuneInString at a string that begins with `b0`.
unfoldable pub decode_rune : ℕ → List ℕ → Chunk
unfolding decode_two decode_three decode_four
decode_rune b0 bs =
    if ltb b0 0x80
    then record { rune = b0; width = 1 }
    else if within 0xC2 0xDF b0
    then decode_two b0 bs
    else if within 0xE0 0xEF b0
    then decode_three b0 bs
    else if within 0xF0 0xF4 b0
    then decode_four b0 bs
    else invalid

-- The runes of `for _, r := range s`; the first argument counts bytes of the last rune to skip.
unfoldable pub chunks_from : ℕ → List ℕ → List Chunk
chunks_from skip [] = []
chunks_from zero (b ∷ bs) = let c = decode_rune b bs in c ∷ chunks_from (c.width - 1) bs
chunks_from (suc k) (b ∷ bs) = chunks_from k bs

unfoldable pub chunks : List ℕ → List Chunk
unfolding chunks_from decode_rune
chunks s = chunks_from zero s

abbrev pub is_invalid : Chunk → Bool
is_invalid c = c.rune == rune_error && c.width == 1

unfoldable pub valid_string : List ℕ → Bool
unfolding chunks
valid_string s = all (λ c. not (is_invalid c)) (chunks s)

unfoldable pub rune_count : List ℕ → ℕ
unfolding chunks
rune_count s = length (chunks s)

pub width_bounds :
    (b : ℕ) (bs : List ℕ)
    → (1 ≤ (decode_rune b bs).width) × ((decode_rune b bs).width ≤ suc (length bs))
unfolding decode_rune
width_bounds b [] = ground arith
width_bounds b (b1 ∷ []) = ground arith
width_bounds b (b1 ∷ b2 ∷ []) = ground arith
width_bounds b (b1 ∷ b2 ∷ b3 ∷ bs) = ground arith

chunks_from_count : (k : ℕ) (s : List ℕ) → length (chunks_from k s) ≤ length s - k
unfolding chunks_from
chunks_from_count k [] = omega arith
chunks_from_count zero (b ∷ bs) = omega (arith, chunks_from_count ((decode_rune b bs).width - 1) bs)
chunks_from_count (suc k) (b ∷ bs) = omega (arith, chunks_from_count k bs)

-- There are at most as many runes as bytes.
pub rune_count-le-length : (s : List ℕ) → rune_count s ≤ length s
unfolding rune_count
rune_count-le-length s = omega (arith, chunks_from_count 0 s)

-- "é", a lone continuation byte, and an encoded U+FFFD.
decodes :
    chunks (0xC3 ∷ 0xA9 ∷ 0x80 ∷ 0xEF ∷ 0xBF ∷ 0xBD ∷ [])
    ≡ record { rune = 0xE9; width = 2 } ∷ invalid ∷ record { rune = 0xFFFD; width = 3 } ∷ []
unfolding chunks
decodes = refl

-- A text that is not empty has a rune.
pub rune_count_pos : (b : ℕ) (s : List ℕ) → 1 ≤ rune_count (b ∷ s)
unfolding rune_count
rune_count_pos b s = omega arith

pub decode_rune_ascii :
    (b : ℕ) (bs : List ℕ) → b < 128 → decode_rune b bs ≡ record { rune = b; width = 1 }
unfolding decode_rune
decode_rune_ascii b bs h = ground arith

-- A rune below 128 is one byte, and that byte.
pub ascii_of_rune : (b : ℕ) (bs : List ℕ) → (decode_rune b bs).rune < 128 → b < 128
unfolding decode_rune
ascii_of_rune b [] h = ground arith
ascii_of_rune b (b1 ∷ []) h = ground arith
ascii_of_rune b (b1 ∷ b2 ∷ []) h = ground arith
ascii_of_rune b (b1 ∷ b2 ∷ b3 ∷ bs) h = ground arith

pub chunks_ascii :
    (b : ℕ) (bs : List ℕ) → b < 128 → chunks (b ∷ bs) ≡ record { rune = b; width = 1 } ∷ chunks bs
unfolding chunks_from chunks
chunks_ascii b bs h = rw (decode_rune_ascii b bs h)

pub all-chunks_first :
    (p : Chunk → Bool) (b : ℕ) (bs : List ℕ)
    → all p (chunks (b ∷ bs)) ≡ true
    → p (decode_rune b bs) ≡ true
unfolding chunks_from chunks
all-chunks_first p b bs h = ground arith
