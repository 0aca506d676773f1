-- ===== src/Base/Int.antt =====
-- The C type `int` as an integer, its conversions to and from `uint32_t`, and the errno values that
-- the program returns negated.
use Prim.Native.Nat.{ℕ, zero, suc, ◌+◌, ◌-◌, ◌%◌, ◌^◌}
use mathlib.Core.Bool.{Bool, true, false}
use amdtop.Base.Tests.{ltb, if◌then◌else◌}

-- `negsuc n` is -(n + 1).
pub data ℤ : Type 0 where
  pos : ℕ → ℤ
  negsuc : ℕ → ℤ

abbrev pub inc : ℤ → ℤ
inc (pos n) = pos (n + 1)
inc (negsuc zero) = pos 0
inc (negsuc (suc n)) = negsuc n

abbrev pub dec : ℤ → ℤ
dec (pos zero) = negsuc 0
dec (pos (suc n)) = pos n
dec (negsuc n) = negsuc (n + 1)

abbrev pub is_neg : ℤ → Bool
is_neg (pos n) = false
is_neg (negsuc n) = true

abbrev pub is_zero : ℤ → Bool
is_zero (pos zero) = true
is_zero (pos (suc n)) = false
is_zero (negsuc n) = false

abbrev pub u32_mod : ℕ
u32_mod = 2 ^ 32

abbrev pub u64_mod : ℕ
u64_mod = 2 ^ 64

-- `(uint32_t) i` for an `int` i, and back.
abbrev pub to_u32 : ℤ → ℕ
to_u32 (pos n) = n % u32_mod
to_u32 (negsuc n) = u32_mod - 1 - n % u32_mod

abbrev pub of_u32 : ℕ → ℤ
of_u32 n =
    if ltb (n % u32_mod) (2 ^ 31) then pos (n % u32_mod) else negsuc (u32_mod - 1 - n % u32_mod)

-- `a - b` on `uint32_t`, for operands below the modulus.
abbrev pub sub32 : ℕ → ℕ → ℕ
sub32 a b = (a + u32_mod - b) % u32_mod

abbrev pub einval : ℤ
einval = negsuc 21

abbrev pub eacces : ℤ
eacces = negsuc 12

abbrev pub enomem : ℤ
enomem = negsuc 11

abbrev pub eagain : ℤ
eagain = negsuc 10

abbrev pub eio : ℤ
eio = negsuc 4
