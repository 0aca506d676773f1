-- ===== src/Core/Mode/Settled.antt =====
-- What a query of core/gpumode.c owes to the heap when it returns.
use amdtop.Base.{
  ℕ, zero, suc, Bool, true, false, not, Option, none, some, if◌then◌else◌, ℤ, pos, negsuc, is_zero,
}
use amdtop.Core.Heap.{Heap}
use amdtop.Core.Heap.Ledger.{Owes}

module _ {A : Type 0} (owned : A → ℕ) (q : ℕ) where
  -- A call that returns 0 leaves behind the blocks of its result, and without a result none.
  unfoldable pub Settled : Heap → ℤ × Option A × Heap → Type 0
  Settled h (pos zero, none, h') = Owes q h h' 0
  Settled h (pos zero, some r, h') = Owes q h h' (owned r)
  Settled h (pos (suc n), r, h') = Unit {0}
  Settled h (negsuc n, r, h') = Unit {0}

  Settled-none : (r : ℤ) (h h' : Heap) → Owes q h h' 0 → Settled h (r, none, h')
  unfolding Settled
  Settled-none (pos zero) h h' e = e
  Settled-none (pos (suc n)) h h' e = tt
  Settled-none (negsuc n) h h' e = tt

  -- The guards of a query that does not try again and returns `failed` after a failed allocation.
  pub Settled-guards_failed :
      (h h1 h2 h3 : Heap) (first second failed : ℤ) (ok : Bool) (built : ℤ × Option A × Heap)
      → Owes q h h1 0
      → Owes q h h2 0
      → Settled h built
      → Settled h (
          if not (is_zero first)
          then (first, none, h1)
          else (if not ok
              then (failed, none, h2)
              else (if not (is_zero second) then (second, none, h3) else built)))
  unfolding Settled
  Settled-guards_failed h h1 h2 h3 (pos (suc n)) second failed ok built e1 e2 e3 = tt
  Settled-guards_failed h h1 h2 h3 (negsuc n) second failed ok built e1 e2 e3 = tt
  Settled-guards_failed h h1 h2 h3 (pos zero) second failed false built e1 e2 e3 =
      Settled-none failed h h2 e2
  Settled-guards_failed h h1 h2 h3 (pos zero) (pos (suc n)) failed true built e1 e2 e3 = tt
  Settled-guards_failed h h1 h2 h3 (pos zero) (negsuc n) failed true built e1 e2 e3 = tt
  Settled-guards_failed h h1 h2 h3 (pos zero) (pos zero) failed true built e1 e2 e3 = e3

  -- The same, where `failed` is the result of the first ioctl.
  pub Settled-guards :
      (h h1 h2 h3 : Heap) (first second : ℤ) (ok : Bool) (built : ℤ × Option A × Heap)
      → Owes q h h1 0
      → Owes q h h2 0
      → Settled h built
      → Settled h (
          if not (is_zero first)
          then (first, none, h1)
          else (if not ok
              then (first, none, h2)
              else (if not (is_zero second) then (second, none, h3) else built)))
  Settled-guards h h1 h2 h3 first second ok built =
      Settled-guards_failed h h1 h2 h3 first second first ok built
