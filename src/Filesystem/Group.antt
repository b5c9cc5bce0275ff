-- ===== src/Filesystem/Group.antt =====
-- Which group a volume's attribute asks for.
use csi_driver_trusted_ca.Common.{
  ℕ, suc, ◌+◌, ◌-◌, ◌*◌, ◌^◌, ◌≡◌, ◌≢◌, ◌≤◌, ◌↔◌, ap, [], ◌∷◌, Option, none, some, Bytes, lookup,
  length, All, ltb, ne→=?, list_eq, nat_eq, arith, inl, inr, Bool-cases,
}
use native.Mathlib.Nat.{pow-suc, add-mul, mul_assoc, mul_comm}
use csi_driver_trusted_ca.Storage.{Metadata}
use csi_driver_trusted_ca.Filesystem.{
  ℤ, pos, negsuc, parse_digits, positive, parse_int, FilesystemOptions, group, check_group,
  group_of_attribute, fs_group_for_metadata,
}

-- the number that a row of digits stands for, each digit at its place
unfoldable pub decimal : Bytes → ℕ
decimal [] = 0
decimal (c ∷ s) = (c - b'0') * 10 ^ length s + decimal s

pub record IsDigit (c : ℕ) : Type 0 where
  pub low : b'0' ≤ c
  pub high : c ≤ b'9'

next_place : (n d k r : ℕ) → (n * 10 + d) * 10 ^ k + r ≡ n * 10 ^ suc k + (d * 10 ^ k + r)
next_place n d k r = rw (pow-suc 10 k) (
    omega (
      arith,
      add-mul (n * 10) d (10 ^ k),
      mul_assoc n 10 (10 ^ k),
      mul_assoc n (10 ^ k) 10,
      mul_comm (10 ^ k) 10,
      ap (λ x. n * x) (mul_comm (10 ^ k) 10),
    ))

parse_digits-decimal :
    (n : ℕ) (s : Bytes) → All IsDigit s → parse_digits n s ≡ some (n * 10 ^ length s + decimal s)
unfolding parse_digits decimal
parse_digits-decimal n [] _ = ap some (omega arith)
parse_digits-decimal n (c ∷ s) (h, hs) = ground (
  arith,
  h.low,
  h.high,
  parse_digits-decimal (n * 10 + (c - b'0')) s hs,
  next_place n (c - b'0') (length s) (decimal s),
)

parse_int-decimal :
    (c : ℕ) (s : Bytes)
    → All IsDigit (c ∷ s)
    → parse_int (c ∷ s) ≡ positive (some (decimal (c ∷ s)))
unfolding parse_int
parse_int-decimal c s (h, hs) = ground (arith, h.low, parse_digits-decimal 0 (c ∷ s) (h, hs))

check_group-range :
    (n m : ℕ)
    → (check_group (positive (some m)) ≡ group (some (pos n)))
      ↔ ((n ≡ m) × (1 ≤ n) × (n ≤ 4294967295))
check_group-range n m = elim (Bool-cases (ltb m (2 ^ 63))) [
  | inl e ↦ rw e (ground arith)
  | inr e ↦ rw e (ground arith)
]

-- Without a fixed group and with a key for the attribute, an attribute that is a row of digits
-- sets the group to the number that it stands for, exactly if that is between 1 and 4294967295.
pub fs_group_for_metadata-decimal :
    (f : FilesystemOptions) (meta : Metadata) (c : ℕ) (s : Bytes) (n : ℕ)
    → f.fixed_fs_group ≡ none
    → f.fs_group_volume_attribute_key ≢ []
    → lookup f.fs_group_volume_attribute_key meta.volume_context ≡ some (c ∷ s)
    → All IsDigit (c ∷ s)
    → (fs_group_for_metadata f meta ≡ group (some (pos n)))
      ↔ ((n ≡ decimal (c ∷ s)) × (1 ≤ n) × (n ≤ 4294967295))
unfolding fs_group_for_metadata decimal
fs_group_for_metadata-decimal f meta c s n fixed key attribute digits =
    rw
      (
        fixed,
        fs_group_for_metadata,
        ne→=? f.fs_group_volume_attribute_key [] key,
        attribute,
        parse_int-decimal c s digits,
      )
      (check_group-range n (decimal (c ∷ s)))

-- a group that may be set
abbrev pub InRange : ℤ → Type 0
InRange g = (n : ℕ) × (g ≡ pos n) × (1 ≤ n) × (n ≤ 4294967295)

by_value : (r : Option ℤ) (g : ℤ) → check_group r ≡ group (some g) → InRange g
by_value none g h = absurd (cc)
by_value (some (negsuc n)) g h = absurd (cc)
by_value (some (pos n)) g h = (n, ground arith, ground arith, ground arith)

by_text : (r : Option Bytes) (g : ℤ) → group_of_attribute r ≡ group (some g) → InRange g
by_text none g h = absurd (cc)
by_text (some s) g h = by_value (parse_int s) g h

-- Without a fixed group, whatever the attribute holds, a group that is set is between 1 and 4294967295.
pub fs_group_for_metadata-range :
    (f : FilesystemOptions) (meta : Metadata) (g : ℤ)
    → f.fixed_fs_group ≡ none
    → fs_group_for_metadata f meta ≡ group (some g)
    → InRange g
unfolding fs_group_for_metadata
fs_group_for_metadata-range f meta g fixed h =
    by_text (lookup f.fs_group_volume_attribute_key meta.volume_context) g (ground (arith, fixed))
