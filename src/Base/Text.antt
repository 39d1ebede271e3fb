-- ===== src/Base/Text.antt =====
-- Go strings: sequences of bytes, with equality and the byte-wise order that PostgreSQL gives uuids.
pub mod Utf8
pub mod Space
pub mod Hex
use Prim.Native.Char.{code}
use Prim.Native.String.{String}
use Prim.Native.Nat.{ℕ}
use mathlib.Core.Path.{◌≡◌, refl}
use mathlib.Core.Logic.{◌↔◌, ◌⊎◌}
use mathlib.Core.Bool.{Bool, true, false, ◌&&◌}
use mathlib.Core.List.{List, [], ◌∷◌}
use native.Mathlib.Omega.{arith}
use game_rewards_service.Base.Tests.{ltb, ◌==◌, if◌then◌else◌}

abbrev pub Bytes : Type 0
Bytes = List ℕ

-- The bytes of an ASCII literal.
abbrev pub bytes : String → Bytes
bytes String.[] = []
bytes (String.◌∷◌ c s) = code c ∷ bytes s

unfoldable pub str_eq : Bytes → Bytes → Bool
str_eq [] [] = true
str_eq [] (y ∷ ys) = false
str_eq (x ∷ xs) [] = false
str_eq (x ∷ xs) (y ∷ ys) = x == y && str_eq xs ys

abbrev pub is_empty : Bytes → Bool
is_empty [] = true
is_empty (x ∷ xs) = false

-- a ≤ b in the order of memcmp.
unfoldable pub str_leb : Bytes → Bytes → Bool
str_leb [] ys = true
str_leb (x ∷ xs) [] = false
str_leb (x ∷ xs) (y ∷ ys) = if ltb x y then true else if ltb y x then false else str_leb xs ys

pub str_eq_refl : (s : Bytes) → str_eq s s ≡ true
unfolding str_eq
str_eq_refl [] = refl
str_eq_refl (x ∷ xs) = ground (arith, str_eq_refl xs)

pub eq_of_str_eq : (s t : Bytes) → str_eq s t ≡ true → s ≡ t
unfolding str_eq
eq_of_str_eq [] [] h = refl
eq_of_str_eq [] (y ∷ ys) h = cc
eq_of_str_eq (x ∷ xs) [] h = cc
eq_of_str_eq (x ∷ xs) (y ∷ ys) h = ground (arith, eq_of_str_eq xs ys)

pub str_eq_iff : (s t : Bytes) → (str_eq s t ≡ true) ↔ (s ≡ t)
str_eq_iff s t = (eq_of_str_eq s t, λ e. rw e (str_eq_refl t))

pub str_leb_refl : (s : Bytes) → str_leb s s ≡ true
unfolding str_leb
str_leb_refl [] = refl
str_leb_refl (x ∷ xs) = ground (arith, str_leb_refl xs)

pub str_leb_total : (s t : Bytes) → str_leb s t ≡ false → str_leb t s ≡ true
unfolding str_leb
str_leb_total [] [] h = cc
str_leb_total [] (y ∷ ys) h = cc
str_leb_total (x ∷ xs) [] h = refl
str_leb_total (x ∷ xs) (y ∷ ys) h = ground (arith, str_leb_total xs ys)

pub str_leb_trans : (s t u : Bytes) → str_leb s t ≡ true → str_leb t u ≡ true → str_leb s u ≡ true
unfolding str_leb
str_leb_trans [] t u h k = refl
str_leb_trans (x ∷ xs) [] u h k = cc
str_leb_trans (x ∷ xs) (y ∷ ys) [] h k = cc
str_leb_trans (x ∷ xs) (y ∷ ys) (z ∷ zs) h k = ground (arith, str_leb_trans xs ys zs)
