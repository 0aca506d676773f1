-- ===== src/Tui/Rings/Count.antt =====
-- The number of rings that the ring page shows (tui/ringinfo.c).
use amdtop.Base.{
  ℕ, zero, suc, ◌+◌, ◌*◌, ◌/◌, ◌%◌, ◌^◌, ◌==◌, ◌<◌, ◌≤◌, ◌≡◌, true, false, refl, arith, ap, ◌∙◌,
  sym, u32_mod, if◌then◌else◌,
}
use amdtop.Tui.Rings.{has_ring, ring_loop, calc_ring_count}
use native.Mathlib.Nat.{div-div-eq-div-mul, pow-suc}

-- The sum of the `k` lowest binary digits of a number, by halving.
unfoldable pub digit_sum : ℕ → ℕ → ℕ
digit_sum zero n = 0
digit_sum (suc k) n = n % 2 + digit_sum k (n / 2)

halve : (n i : ℕ) → n / 2 ^ i / 2 ≡ n / 2 ^ suc i
halve n i =
    let twice : 2 ^ i * 2 ≡ 2 ^ suc i = sym (pow-suc 2 i) in
    div-div-eq-div-mul n (2 ^ i) 2 ∙ ap (λ d. n / d) twice

bit :
    (n : ℕ) (count : ℕ)
    → count + 1 < 2 ^ 32
    → (if (if n % 2 == 0 then false else true) then (count + 1) % u32_mod else count)
      ≡ count + n % 2
bit n count l = ground arith

ring_loop-digit_sum :
    (rings k i count : ℕ)
    → count + k < 2 ^ 32
    → ring_loop rings k i count ≡ count + digit_sum k (rings / 2 ^ i)
unfolding ring_loop digit_sum
ring_loop-digit_sum rings zero i count l = omega arith
ring_loop-digit_sum rings (suc k) i count l =
    let n = rings / 2 ^ i in
    let one = bit n count (omega arith) in
    let next = if has_ring rings i then (count + 1) % u32_mod else count in
    let small : next + k < 2 ^ 32 = ground arith in
    let rest = ring_loop-digit_sum rings k (suc i) next small in
    let same = ap (digit_sum k) (halve rings i) in omega (arith, rest, same, one)

digit_sum-le : (k n : ℕ) → digit_sum k n ≤ k
unfolding digit_sum
digit_sum-le zero n = omega arith
digit_sum-le (suc k) n = let rest = digit_sum-le k (n / 2) in omega arith

from_zero : (rings : ℕ) → calc_ring_count rings ≡ ring_loop rings 32 0 0
unfolding calc_ring_count
from_zero rings = refl

-- The ring page counts the rings of a mask of 32 bits as the sum of its binary digits, and never more than 32.
pub calc_ring_count-digit_sum :
    (rings : ℕ) → (calc_ring_count rings ≡ digit_sum 32 rings) × (calc_ring_count rings ≤ 32)
calc_ring_count-digit_sum rings =
    let e = from_zero rings ∙ ring_loop-digit_sum rings 32 0 0 (omega arith) in
    let one : rings / 2 ^ 0 ≡ rings = omega arith in
    let same : calc_ring_count rings ≡ digit_sum 32 rings =
      omega (arith, e, ap (digit_sum 32) one) in
    let few = digit_sum-le 32 rings in (same, omega (arith, few, same))
