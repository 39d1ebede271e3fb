-- ===== src/Base/Int.antt =====
-- Signed integers over the native numbers (the library's ℤ stands on the unary ℕ), and int64.
use Prim.Native.Nat.{ℕ, suc, ◌+◌, ◌-◌, ◌%◌, ◌^◌, ◌≤◌, ◌<◌}
use mathlib.Core.Path.{◌≡◌, refl}
use mathlib.Core.Bool.{Bool}
use native.Mathlib.Omega.{arith}
use game_rewards_service.Base.Tests.{ltb, leb, if◌then◌else◌}

-- `negsuc n` is -(n + 1).
pub data ℤ : Type 0 where
  pos : ℕ → ℤ
  negsuc : ℕ → ℤ

abbrev pub pos_part : ℤ → ℕ
pos_part (pos n) = n
pos_part (negsuc n) = 0

abbrev pub neg_part : ℤ → ℕ
neg_part (pos n) = 0
neg_part (negsuc n) = suc n

abbrev pub sub_ℕ : ℕ → ℕ → ℤ
sub_ℕ a b = if leb b a then pos (a - b) else negsuc (b - a - 1)

infixl 65 ◌+ℤ◌ ◌-ℤ◌
infix 50 ◌≤ℤ◌ ◌<ℤ◌
abbrev pub ◌+ℤ◌ : ℤ → ℤ → ℤ
a +ℤ b = sub_ℕ (pos_part a + pos_part b) (neg_part a + neg_part b)

abbrev pub ◌-ℤ◌ : ℤ → ℤ → ℤ
a -ℤ b = sub_ℕ (pos_part a + neg_part b) (neg_part a + pos_part b)

abbrev pub ◌≤ℤ◌ : ℤ → ℤ → Type 0
a ≤ℤ b = pos_part a + neg_part b ≤ pos_part b + neg_part a

abbrev pub ◌<ℤ◌ : ℤ → ℤ → Type 0
a <ℤ b = pos_part a + neg_part b < pos_part b + neg_part a

abbrev pub leb_ℤ : ℤ → ℤ → Bool
leb_ℤ a b = leb (pos_part a + neg_part b) (pos_part b + neg_part a)

abbrev pub ltb_ℤ : ℤ → ℤ → Bool
ltb_ℤ a b = ltb (pos_part a + neg_part b) (pos_part b + neg_part a)

abbrev pub max_int64 : ℕ
max_int64 = 2 ^ 63 - 1

-- Two's complement at 64 bits, from the unsigned residue.
abbrev of_residue : ℕ → ℤ
of_residue u = if ltb u (2 ^ 63) then pos u else negsuc (2 ^ 64 - 1 - u)

abbrev pub wrap64 : ℤ → ℤ
wrap64 (pos n) = of_residue (n % 2 ^ 64)
wrap64 (negsuc n) = of_residue (2 ^ 64 - 1 - n % 2 ^ 64)

pub wrap64-pos : (n : ℕ) → n ≤ max_int64 → wrap64 (pos n) ≡ pos n
wrap64-pos n h = ground arith

wrap64_turns : wrap64 (pos (2 ^ 63)) ≡ negsuc (2 ^ 63 - 1)
wrap64_turns = refl
