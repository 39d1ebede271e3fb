-- ===== src/Rewards/Uuid.antt =====
-- newUUIDV4 of internal/rewards/uuid.go, over the sixteen bytes that crypto/rand gives.
use Prim.Native.Nat.{bit_and, bit_or}
use game_rewards_service.Base.{
  ℕ, zero, suc, ◌+◌, ◌%◌, ◌<◌, ◌≡◌, refl, true, Option, none, some, List, [], ◌∷◌, ◌++◌, arith,
  ◌==◌, ==_iff, if◌then◌else◌, length, length-take, length-drop, take, drop, take-drop, take_all,
  slice-drop, append_nil, length-append, map, ap, ◌∙◌, All, All-take, All-drop, check_below,
  check_below-true, ◌≤◌,
}
use game_rewards_service.Base.Text.{Bytes}
use game_rewards_service.Base.Text.Hex.{
  IsByte, hex_encode, hex_read, hex_read-hex_encode, length-hex_encode,
}

-- (b[6] & 0x0f) | 0x40 and (b[8] & 0x3f) | 0x80
abbrev pub with_version : ℕ → ℕ
with_version b = bit_or (bit_and b 0x0F) 0x40

abbrev pub with_variant : ℕ → ℕ
with_variant b = bit_or (bit_and b 0x3F) 0x80

-- A change of the element at an index, which nothing happens to out of range.
abbrev pub update_at : ℕ → (ℕ → ℕ) → List ℕ → List ℕ
update_at n f [] = []
update_at zero f (b ∷ bs) = f b ∷ bs
update_at (suc n) f (b ∷ bs) = b ∷ update_at n f bs

unfoldable pub stamp : List ℕ → List ℕ
stamp random = update_at 8 with_variant (update_at 6 with_version random)

abbrev slice : ℕ → ℕ → List ℕ → List ℕ
slice from count b = take count (drop from b)

unfoldable pub format_uuid : List ℕ → Bytes
format_uuid b =
    hex_encode (slice 0 4 b)
    ++ 45
      ∷ (hex_encode (slice 4 2 b)
          ++ 45
            ∷ (hex_encode (slice 6 2 b)
                ++ 45 ∷ (hex_encode (slice 8 2 b) ++ 45 ∷ hex_encode (slice 10 6 b))))

unfoldable pub new_uuid_v4 : List ℕ → Bytes
unfolding stamp format_uuid
new_uuid_v4 random = format_uuid (stamp random)

-- The canonical form of a uuid, read back: groups of 4, 2, 2, 2 and 6 bytes between hyphens.
hyphen : Option (List ℕ × Bytes) → Option (List ℕ × Bytes)
hyphen none = none
hyphen (some (bs, [])) = none
hyphen (some (bs, c ∷ s)) = if c == 45 then some (bs, s) else none

and_then : Option (List ℕ × Bytes) → (Bytes → Option (List ℕ)) → Option (List ℕ)
and_then none f = none
and_then (some (bs, s)) f = elim (f s) [ none ↦ none | some cs ↦ some (bs ++ cs) ]

whole : Option (List ℕ × Bytes) → Option (List ℕ)
whole none = none
whole (some (bs, [])) = some bs
whole (some (bs, c ∷ s)) = none

unfoldable pub parse_uuid : Bytes → Option (List ℕ)
unfolding hyphen and_then whole
parse_uuid s = and_then (hyphen (hex_read 4 s)) (λ t. and_then (hyphen (hex_read 2 t)) (λ u.
    and_then (hyphen (hex_read 2 u))
      (λ v. and_then (hyphen (hex_read 2 v)) (λ w. whole (hex_read 6 w)))))

version_table : check_below 256 (λ b. with_version b == 64 + b % 16) ≡ true
unfolding check_below
version_table = refl

variant_table : check_below 256 (λ b. with_variant b == 128 + b % 64) ≡ true
unfolding check_below
variant_table = refl

with_version_lem : (b : ℕ) → b < 256 → with_version b ≡ 64 + b % 16
with_version_lem b h =
    (==_iff (with_version b) (64 + b % 16)).0 (check_below-true 256 _ b version_table h)

with_variant_lem : (b : ℕ) → b < 256 → with_variant b ≡ 128 + b % 64
with_variant_lem b h =
    (==_iff (with_variant b) (128 + b % 64)).0 (check_below-true 256 _ b variant_table h)

length-update_at : (n : ℕ) (f : ℕ → ℕ) (bs : List ℕ) → length (update_at n f bs) ≡ length bs
length-update_at n f [] = refl
length-update_at zero f (b ∷ bs) = refl
length-update_at (suc n) f (b ∷ bs) = omega (arith, length-update_at n f bs)

All-update_at :
    (n : ℕ) (f : ℕ → ℕ) (bs : List ℕ)
    → ((b : ℕ) → b < 256 → f b < 256)
    → All IsByte bs
    → All IsByte (update_at n f bs)
All-update_at n f [] keeps h = tt
All-update_at zero f (b ∷ bs) keeps h = (keeps b h.0, h.1)
All-update_at (suc n) f (b ∷ bs) keeps h = (h.0, All-update_at n f bs keeps h.1)

and_then-some :
    (o : Option (List ℕ × Bytes)) (f : Bytes → Option (List ℕ)) {bs cs : List ℕ} {s : Bytes}
    → o ≡ some (bs, s)
    → f s ≡ some cs
    → and_then o f ≡ some (bs ++ cs)
unfolding and_then
and_then-some o f h k = rw (h, and_then, k)

module _ (b : List ℕ) (sixteen : length b ≡ 16) (valid : All IsByte b) where
  read_slice :
      (from count : ℕ) (rest : Bytes)
      → from + count ≤ 16
      → hex_read count (hex_encode (slice from count b) ++ rest) ≡ some (slice from count b, rest)
  read_slice from count rest fits =
      hex_read-hex_encode count (slice from count b) rest
        (omega (arith, length-take count (drop from b), length-drop from b))
        (All-take IsByte count (drop from b) (All-drop IsByte from b valid))

  slices : slice 0 4 b ++ (slice 4 2 b ++ (slice 6 2 b ++ (slice 8 2 b ++ slice 10 6 b))) ≡ b
  slices =
      let last : slice 10 6 b ≡ drop 10 b =
        take_all 6 (drop 10 b) (omega (arith, length-drop 10 b)) in
      rw (last, slice-drop 8 2 b, slice-drop 6 2 b, slice-drop 4 2 b) (take-drop 4 b)

  read_group :
      (from count : ℕ) (rest : Bytes)
      → from + count ≤ 16
      → hyphen (hex_read count (hex_encode (slice from count b) ++ 45 ∷ rest))
        ≡ some (slice from count b, rest)
  unfolding hyphen
  read_group from count rest fits = rw (hyphen, read_slice from count (45 ∷ rest) fits)

  read_last : whole (hex_read 6 (hex_encode (slice 10 6 b))) ≡ some (slice 10 6 b)
  unfolding whole
  read_last = rw (← append_nil (hex_encode (slice 10 6 b)), read_slice 10 6 [] (omega arith))

  parse-format : parse_uuid (format_uuid b) ≡ some b
  unfolding parse_uuid format_uuid
  parse-format =
      and_then-some _ _ (read_group 0 4 _ (omega arith)) (
        and_then-some _ _ (read_group 4 2 _ (omega arith)) (
          and_then-some _ _ (read_group 6 2 _ (omega arith))
            (and_then-some _ _ (read_group 8 2 _ (omega arith)) read_last)))
      ∙ ap (λ xs. some xs) slices

length-format : (b : List ℕ) → length b ≡ 16 → length (format_uuid b) ≡ 36
unfolding format_uuid
length-format b h =
    omega (arith, length-append {0}, length-hex_encode, length-take {0}, length-drop {0})

-- The random bytes with the version and the variant in place.
abbrev pub marked : List ℕ → List ℕ
marked r =
    take 6 r
    ++ (map (λ b. 64 + b % 16) (slice 6 1 r)
        ++ (slice 7 1 r ++ (map (λ b. 128 + b % 64) (slice 8 1 r) ++ drop 9 r)))

stamp-marked : (r : List ℕ) → length r ≡ 16 → All IsByte r → stamp r ≡ marked r
unfolding stamp
stamp-marked [] h v = absurd (omega arith)
stamp-marked (a ∷ []) h v = absurd (omega arith)
stamp-marked (a ∷ b ∷ []) h v = absurd (omega arith)
stamp-marked (a ∷ b ∷ c ∷ []) h v = absurd (omega arith)
stamp-marked (a ∷ b ∷ c ∷ d ∷ []) h v = absurd (omega arith)
stamp-marked (a ∷ b ∷ c ∷ d ∷ e ∷ []) h v = absurd (omega arith)
stamp-marked (a ∷ b ∷ c ∷ d ∷ e ∷ f ∷ []) h v = absurd (omega arith)
stamp-marked (a ∷ b ∷ c ∷ d ∷ e ∷ f ∷ g ∷ []) h v = absurd (omega arith)
stamp-marked (a ∷ b ∷ c ∷ d ∷ e ∷ f ∷ g ∷ i ∷ []) h v = absurd (omega arith)
stamp-marked (a ∷ b ∷ c ∷ d ∷ e ∷ f ∷ g ∷ i ∷ j ∷ rest) h v =
    rw (with_version_lem g (omega arith), with_variant_lem j (omega arith))

module _ (random : List ℕ) (sixteen : length random ≡ 16) (valid : All IsByte random) where
  stamp-bytes : (length (stamp random) ≡ 16) × All IsByte (stamp random)
  unfolding stamp
  stamp-bytes = (
    length-update_at 8 with_variant (update_at 6 with_version random)
        ∙ length-update_at 6 with_version random
        ∙ sixteen,
    All-update_at 8 with_variant (update_at 6 with_version random)
        (λ b h. omega (arith, with_variant_lem b h))
        (All-update_at 6 with_version random (λ b h. omega (arith, with_version_lem b h)) valid),
  )

  length-new_uuid_v4 : length (new_uuid_v4 random) ≡ 36
  unfolding new_uuid_v4
  length-new_uuid_v4 = length-format (stamp random) stamp-bytes.0

  -- The text of a new uuid is 36 bytes long and reads back as the random bytes, but for the version 4
  -- in the upper half of the seventh and the variant 2 in the upper quarter of the ninth.
  pub parse_uuid-new_uuid_v4 :
      (parse_uuid (new_uuid_v4 random) ≡ some (marked random)) × (length (new_uuid_v4 random) ≡ 36)
  unfolding new_uuid_v4
  parse_uuid-new_uuid_v4 = (
    parse-format (stamp random) stamp-bytes.0 stamp-bytes.1
        ∙ ap (λ xs. some xs) (stamp-marked random sixteen valid),
    length-new_uuid_v4,
  )
