-- ===== src/Base/Text/Hex.antt =====
-- encoding/hex of Go's standard library: EncodeToString, and the reading of a fixed number of bytes.
use Prim.Native.Nat.{ℕ, zero, suc, ◌+◌, ◌-◌, ◌*◌, ◌/◌, ◌%◌, ◌<◌}
use mathlib.Core.Path.{◌≡◌, refl}
use mathlib.Core.Bool.{Bool, true, ◌&&◌, ◌||◌}
use mathlib.Core.Option.{Option, none, some}
use mathlib.Core.List.{List, [], ◌∷◌, ◌++◌}
use native.Mathlib.Omega.{arith}
use game_rewards_service.Base.Tests.{leb, ltb, if◌then◌else◌}
use game_rewards_service.Base.Lists.{length, all, All}

abbrev pub IsByte : ℕ → Type 0
IsByte b = b < 256

unfoldable pub hex_digit : ℕ → ℕ
hex_digit n = if ltb n 10 then 48 + n else 87 + n

unfoldable pub hex_encode : List ℕ → List ℕ
unfolding hex_digit
hex_encode [] = []
hex_encode (b ∷ bs) = hex_digit (b / 16) ∷ hex_digit (b % 16) ∷ hex_encode bs

-- The value of a lower-case digit.
unfoldable pub hex_value : ℕ → Option ℕ
hex_value c =
    if leb 48 c && leb c 57
    then some (c - 48)
    else if leb 97 c && leb c 102
    then some (c - 87)
    else none

two_digits : Option ℕ → Option ℕ → Option ℕ
two_digits none o = none
two_digits (some h) none = none
two_digits (some h) (some l) = some (h * 16 + l)

prefixed : Option ℕ → Option (List ℕ × List ℕ) → Option (List ℕ × List ℕ)
prefixed none o = none
prefixed (some b) none = none
prefixed (some b) (some (bs, rest)) = some (b ∷ bs, rest)

-- `n` bytes off the front of a text, and the rest of it.
unfoldable pub hex_read : ℕ → List ℕ → Option (List ℕ × List ℕ)
unfolding hex_value two_digits prefixed
hex_read zero s = some ([], s)
hex_read (suc n) [] = none
hex_read (suc n) (h ∷ []) = none
hex_read (suc n) (h ∷ l ∷ s) = prefixed (two_digits (hex_value h) (hex_value l)) (hex_read n s)

hex_value-hex_digit : (n : ℕ) → n < 16 → hex_value (hex_digit n) ≡ some n
unfolding hex_value hex_digit
hex_value-hex_digit n h = ground arith

-- What is encoded is read back, whatever follows it.
pub hex_read-hex_encode :
    (n : ℕ) (bs rest : List ℕ)
    → length bs ≡ n
    → All IsByte bs
    → hex_read n (hex_encode bs ++ rest) ≡ some (bs, rest)
unfolding hex_read hex_encode
hex_read-hex_encode zero [] rest e h = refl
hex_read-hex_encode zero (b ∷ bs) rest e h = absurd (omega arith)
hex_read-hex_encode (suc n) [] rest e h = absurd (omega arith)
hex_read-hex_encode (suc n) (b ∷ bs) rest e h =
    let whole : b / 16 * 16 + b % 16 ≡ b = omega arith in
    rw (
      hex_value-hex_digit (b / 16) (omega arith),
      hex_value-hex_digit (b % 16) (omega arith),
      hex_read-hex_encode n bs rest (omega arith) h.1,
      whole,
    )

pub length-hex_encode : (bs : List ℕ) → length (hex_encode bs) ≡ 2 * length bs
unfolding hex_encode
length-hex_encode [] = refl
length-hex_encode (b ∷ bs) = omega (arith, length-hex_encode bs)

-- A lower-case hexadecimal digit.
abbrev pub is_hex : ℕ → Bool
is_hex c = (leb 48 c && leb c 57) || (leb 97 c && leb c 102)

is_hex-hex_digit : (n : ℕ) → n < 16 → is_hex (hex_digit n) ≡ true
unfolding hex_digit
is_hex-hex_digit n h = ground arith

pub all-is_hex : (bs : List ℕ) → All IsByte bs → all is_hex (hex_encode bs) ≡ true
unfolding hex_encode
all-is_hex [] h = refl
all-is_hex (b ∷ bs) h = rw (
  is_hex-hex_digit (b / 16) (omega arith),
  is_hex-hex_digit (b % 16) (omega arith),
  all-is_hex bs h.1,
)

encodes : hex_encode (0x0F ∷ 0xA0 ∷ []) ≡ 48 ∷ 102 ∷ 97 ∷ 48 ∷ []
unfolding hex_encode
encodes = refl
