-- ===== src/Core/Heap.antt =====
-- utils/utils.c: `xAlloc` and `xFree`, and the copies that core/gpumode.c makes between blocks.
-- The allocator is a parameter: the address that it answers, or NULL, is a function of all events so
-- far, and an address may come back after it was freed.
pub mod Ledger
use amdtop.Base.{
  ℕ, zero, suc, ◌+◌, Bool, true, false, ◌||◌, Option, none, some, List, [], ◌∷◌, ◌++◌, ltb, ◌==◌,
  if◌then◌else◌,
}
use Prim.Native.String.{String}

-- A block of `size` elements, with what has been written to it.
pub record Block : Type 0 where
  pub addr : ℕ
  pub size : ℕ
  pub words : List ℕ

-- An allocation with the address it answered, a call of free, an ioctl.
pub data Event : Type 0 where
  took : Option ℕ → Event
  gave : ℕ → Event
  asked : String → Event

-- All events so far, the latest first.
abbrev pub Events : Type 0
Events = List Event

-- `fault` says that a copy read or wrote behind the end of a block.
pub record Heap : Type 0 where
  pub log : Events
  pub fault : Bool

abbrev pub ask : String → Heap → Heap
ask s h = record h { log = asked s ∷ h.log }

abbrev pub block : ℕ → Option ℕ → Option Block
block n none = none
block n (some p) = some (record { addr = p; size = n; words = [] })

module _ (malloc : Events → Option ℕ) where
  -- `xAlloc` for n elements
  unfoldable pub alloc : ℕ → Heap → Option Block × Heap
  alloc n h = (block n (malloc h.log), record h { log = took (malloc h.log) ∷ h.log })

  -- `if (n) p = xAlloc(n);` on a pointer that is NULL
  unfoldable pub alloc_some : ℕ → Heap → Option Block × Heap
  unfolding alloc
  alloc_some n h = if n == 0 then (none, h) else alloc n h

-- `n && !p`
abbrev pub is_missing : ℕ → Option Block → Bool
is_missing n (some b) = false
is_missing n none = if n == 0 then false else true

-- `xFree`
unfoldable pub free : Option Block → Heap → Heap
free none h = h
free (some b) h = record h { log = gave b.addr ∷ h.log }

-- What an ioctl writes through a pointer.
abbrev pub write : List ℕ → Option Block → Option Block
write xs none = none
write xs (some b) = some (record b { words = xs })

abbrev pub size_of : Option Block → ℕ
size_of none = 0
size_of (some b) = b.size

abbrev pub words_of : Option Block → List ℕ
words_of none = []
words_of (some b) = b.words

-- The first n elements of a block that was cleared before these were written to it.
abbrev pub front : ℕ → List ℕ → List ℕ
front zero xs = []
front (suc n) [] = 0 ∷ front n []
front (suc n) (x ∷ xs) = x ∷ front n xs

-- What lies behind the first n elements.
abbrev pub behind : ℕ → List ℕ → List ℕ
behind zero xs = xs
behind (suc n) [] = []
behind (suc n) (x ∷ xs) = behind n xs

-- `if (dst) memcpy(dst, src, n)`: it overwrites n elements, and neither block may be smaller.
unfoldable pub copy : ℕ → (dst src : Option Block) → Heap → Option Block × Heap
copy n none src h = (none, h)
copy n (some d) src h = (
  some (record d { words = front n (words_of src) ++ behind n d.words }),
  record h { fault = (h.fault || ltb (size_of src) n) || ltb d.size n },
)
