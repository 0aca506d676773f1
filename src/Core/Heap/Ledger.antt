-- ===== src/Core/Heap/Ledger.antt =====
-- How many times an address was allocated and freed, for every operation of the heap.
use amdtop.Base.{
  ℕ, ◌+◌, Option, none, some, List, [], ◌∷◌, ◌==◌, if◌then◌else◌, ◌≡◌, refl, arith, Bool, true,
  false,
}
use Prim.Native.String.{String}
use amdtop.Core.Heap.{
  ask, write, Block, took, gave, asked, Events, Heap, block, alloc, alloc_some, free, copy,
}

unfoldable pub hit : ℕ → ℕ → ℕ
hit q p = if p == q then 1 else 0

unfoldable pub taken : ℕ → Events → ℕ
unfolding hit
taken q [] = 0
taken q (took none ∷ l) = taken q l
taken q (took (some p) ∷ l) = hit q p + taken q l
taken q (gave p ∷ l) = taken q l
taken q (asked s ∷ l) = taken q l

unfoldable pub given : ℕ → Events → ℕ
unfolding hit
given q [] = 0
given q (took p ∷ l) = given q l
given q (gave p ∷ l) = hit q p + given q l
given q (asked s ∷ l) = given q l

-- 1 where the pointer holds the address `q`.
unfoldable pub held : ℕ → Option Block → ℕ
unfolding hit
held q none = 0
held q (some b) = hit q b.addr

-- The address `q` has been allocated `owned` times more than it has been freed since `h`.
unfoldable pub Owes : ℕ → Heap → Heap → ℕ → Type 0
Owes q h h' owned = taken q h'.log + given q h.log ≡ owned + taken q h.log + given q h'.log

Owes-trans :
    (q : ℕ) (h h' h'' : Heap) (m n : ℕ) → Owes q h h' m → Owes q h' h'' n → Owes q h h'' (m + n)
unfolding Owes
Owes-trans q h h' h'' m n e f = omega arith

pub Owes-refl : (q : ℕ) (h : Heap) → Owes q h h 0
unfolding Owes
Owes-refl q h = omega arith

pub Owes-alloc :
    (malloc : Events → Option ℕ) (q n : ℕ) (h : Heap)
    → Owes q h (alloc malloc n h).1 (held q (alloc malloc n h).0)
unfolding Owes alloc taken given held
Owes-alloc malloc q n h = step (malloc h.log)
  where
    step :
        (p : Option ℕ)
        → taken q (took p ∷ h.log) + given q h.log
          ≡ held q (block n p) + taken q h.log + given q (took p ∷ h.log)
    step none = omega arith
    step (some p) = omega arith

pub Owes-alloc_some :
    (malloc : Events → Option ℕ) (q n : ℕ) (h : Heap)
    → Owes q h (alloc_some malloc n h).1 (held q (alloc_some malloc n h).0)
unfolding alloc_some held
Owes-alloc_some malloc q n h = step (n == 0)
  where
    step :
        (b : Bool)
        → Owes q h
            (if b then (none, h) else alloc malloc n h).1
            (held q (if b then (none, h) else alloc malloc n h).0)
    step true = Owes-refl q h
    step false = Owes-alloc malloc q n h

pub Owes-ask : (q : ℕ) (s : String) (h : Heap) → Owes q h (ask s h) 0
unfolding Owes taken given
Owes-ask q s h = omega arith

pub Owes-copy : (q n : ℕ) (dst src : Option Block) (h : Heap) → Owes q h (copy n dst src h).1 0
unfolding Owes copy
Owes-copy q n none src h = omega arith
Owes-copy q n (some d) src h = omega arith

pub held-copy :
    (q n : ℕ) (dst src : Option Block) (h : Heap) → held q (copy n dst src h).0 ≡ held q dst
unfolding held copy
held-copy q n none src h = refl
held-copy q n (some d) src h = refl

pub held-write : (q : ℕ) (xs : List ℕ) (b : Option Block) → held q (write xs b) ≡ held q b
unfolding held
held-write q xs none = refl
held-write q xs (some b) = refl

-- Freeing pays back what the pointer holds.
pub Owes-free :
    (q : ℕ) (h h' : Heap) (b : Option Block) (n : ℕ)
    → Owes q h h' (held q b + n)
    → Owes q h (free b h') n
unfolding Owes free held given taken
Owes-free q h h' none n e = omega arith
Owes-free q h h' (some b) n e = omega arith
