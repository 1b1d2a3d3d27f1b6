-- ===== src/Prelude/Int.antt =====
-- The C++ `int`: its values as integers, its conversions to and from `uint32_t`, and its tests.
use Prim.Native.Nat.{ℕ, ◌+◌, ◌-◌, ◌%◌, ◌^◌, ◌≤◌, ◌<◌}
use mathlib.Core.Path.{◌≡◌}
use mathlib.Core.Bool.{Bool, false}
use native.Mathlib.Omega.{arith}
use squid_storage.Prelude.Tests.{ltb, leb, if◌then◌else◌}

-- `negsuc n` is -(n + 1).
pub data ℤ : Type 0 where
  pos : ℕ → ℤ
  negsuc : ℕ → ℤ

abbrev pub pos_part : ℤ → ℕ
pos_part (pos n) = n
pos_part (negsuc n) = 0

abbrev pub neg_part : ℤ → ℕ
neg_part (pos n) = 0
neg_part (negsuc n) = n + 1

-- `a < b` and `a ≤ b` on `int`, as tests and as statements.
abbrev pub ltz : ℤ → ℤ → Bool
ltz a b = ltb (pos_part a + neg_part b) (pos_part b + neg_part a)

abbrev pub lez : ℤ → ℤ → Bool
lez a b = leb (pos_part a + neg_part b) (pos_part b + neg_part a)

infix 50 ◌≤ℤ◌ ◌<ℤ◌
abbrev pub ◌≤ℤ◌ : ℤ → ℤ → Type 0
a ≤ℤ b = pos_part a + neg_part b ≤ pos_part b + neg_part a

abbrev pub ◌<ℤ◌ : ℤ → ℤ → Type 0
a <ℤ b = pos_part a + neg_part b < pos_part b + neg_part a

-- `v + 1`, where it does not overflow.
abbrev pub succz : ℤ → ℤ
succz (pos n) = pos (n + 1)
succz (negsuc n) = if ltb 0 n then negsuc (n - 1) else pos 0

-- `std::max`.
abbrev pub maxz : ℤ → ℤ → ℤ
maxz a b = if ltz a b then b else a

-- The range of a 32-bit `int`.
abbrev pub IsInt : ℤ → Type 0
IsInt (pos n) = n < 2 ^ 31
IsInt (negsuc n) = n < 2 ^ 31

-- `static_cast<uint32_t>`.
unfoldable pub to_u32 : ℤ → ℕ
to_u32 (pos n) = n % 2 ^ 32
to_u32 (negsuc n) = 2 ^ 32 - 1 - n % 2 ^ 32

-- `static_cast<int>` of a `uint32_t`.
unfoldable pub of_u32 : ℕ → ℤ
of_u32 w = if ltb w (2 ^ 31) then pos w else negsuc (2 ^ 32 - 1 - w)

pub to_u32-lt : (z : ℤ) → to_u32 z < 2 ^ 32
unfolding to_u32
to_u32-lt (pos n) = omega arith
to_u32-lt (negsuc n) = omega arith

-- The two casts undo one another.
pub of_u32-to_u32 : (z : ℤ) → IsInt z → of_u32 (to_u32 z) ≡ z
unfolding to_u32 of_u32
of_u32-to_u32 (pos n) h = ground arith
of_u32-to_u32 (negsuc n) h = ground arith

-- Two integers neither of which is below the other are one.
pub eq_of_not_lt : (a b : ℤ) → ltz a b ≡ false → ltz b a ≡ false → a ≡ b
eq_of_not_lt a b h k = ground arith

pub lt-succz : (z : ℤ) → z <ℤ succz z
lt-succz (pos n) = omega arith
lt-succz (negsuc n) = ground arith
