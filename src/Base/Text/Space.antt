-- ===== src/Base/Text/Space.antt =====
-- strings.TrimSpace and unicode.IsSpace of Go's standard library.
use Prim.Native.Nat.{ℕ, zero, suc, ◌+◌, ◌-◌, ◌≤◌}
use mathlib.Core.Path.{◌≡◌, refl}
use mathlib.Core.Bool.{Bool, ◌&&◌, ◌||◌}
use mathlib.Core.List.{List, [], ◌∷◌}
use native.Mathlib.Omega.{arith}
use game_rewards_service.Base.Tests.{leb, ltb, ◌==◌, if◌then◌else◌}
use game_rewards_service.Base.Lists.{length, take, length-take}
use game_rewards_service.Base.Text.Utf8.{Chunk, chunks, decode_rune}

unfoldable pub is_space : ℕ → Bool
is_space r =
    (leb 0x09 r && leb r 0x0D)
    || (r == 0x20
        || (r == 0x85
            || (r == 0xA0
                || (r == 0x1680
                    || ((leb 0x2000 r && leb r 0x200A)
                        || (r == 0x2028
                            || (r == 0x2029 || (r == 0x202F || (r == 0x205F || r == 0x3000)))))))))

-- The first argument counts bytes of a space that are still to be dropped.
unfoldable pub trim_left_from : ℕ → List ℕ → List ℕ
trim_left_from skip [] = []
trim_left_from zero (b ∷ bs) =
    let c = decode_rune b bs in if is_space c.rune then trim_left_from (c.width - 1) bs else b ∷ bs
trim_left_from (suc k) (b ∷ bs) = trim_left_from k bs

-- The number of bytes up to the last rune that is no space.
unfoldable pub content_width : List Chunk → ℕ
content_width [] = 0
content_width (c ∷ cs) =
    let n = content_width cs in
    if ltb 0 n then c.width + n else if is_space c.rune then 0 else c.width

unfoldable pub trim_space : List ℕ → List ℕ
unfolding trim_left_from content_width is_space decode_rune chunks
trim_space s = let t = trim_left_from zero s in take (content_width (chunks t)) t

trim_left_from-length : (k : ℕ) (s : List ℕ) → length (trim_left_from k s) ≤ length s
unfolding trim_left_from
trim_left_from-length k [] = omega arith
trim_left_from-length zero (b ∷ bs) =
    ground (arith, trim_left_from-length ((decode_rune b bs).width - 1) bs)
trim_left_from-length (suc k) (b ∷ bs) = omega (arith, trim_left_from-length k bs)

-- Trimming never lengthens a text.
pub length-trim_space-le : (s : List ℕ) → length (trim_space s) ≤ length s
unfolding trim_space
length-trim_space-le s = omega (
  arith,
  length-take (content_width (chunks (trim_left_from 0 s))) (trim_left_from 0 s),
  trim_left_from-length 0 s,
)

-- A tab, "a", a space, "b", and U+2003 in three bytes.
trims : trim_space (9 ∷ 97 ∷ 32 ∷ 98 ∷ 0xE2 ∷ 0x80 ∷ 0x83 ∷ []) ≡ 97 ∷ 32 ∷ 98 ∷ []
unfolding trim_space
trims = refl
