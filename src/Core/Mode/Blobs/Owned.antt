-- ===== src/Core/Mode/Blobs/Owned.antt =====
-- Who owns the blocks that `gpuGetPropBlob` allocates (core/gpumode.c).
use amdtop.Base.{
  ℕ, ◌+◌, Bool, true, false, Option, none, some, if◌then◌else◌, pos, enomem, ◌≡◌, refl, sym, arith,
}
use mathlib.Core.Path.{subst}
use amdtop.Core.Heap.{Block, Heap, ask, alloc, is_missing, free, write}
use amdtop.Core.Heap.Ledger.{held, Owes, Owes-alloc, Owes-free, Owes-ask, held-write}
use amdtop.Core.Mode.{PropBlob, BlobReply, Sys}
use amdtop.Core.Mode.Settled.{Settled, Settled-guards}
use amdtop.Core.Mode.Resources.{alloc_next, duplicate}
use amdtop.Core.Mode.Resources.Owned.{Owes-alloc_next, Owes-duplicate}
use amdtop.Core.Mode.Blobs.{build, get_prop_blob, free_prop_blob}

-- The blocks that belong to a blob.
unfoldable pub owned : ℕ → PropBlob → ℕ
owned q b = held q b.self + held q b.content

module _ (sys : Sys) (q : ℕ) where
  Settled-build :
      (h0 : Heap) (r : BlobReply) (temp : Option Block) (h : Heap)
      → Owes q h0 h (held q temp)
      → Settled (owned q) q h0 (build sys r temp h)
  unfolding build Owes Settled owned held
  Settled-build h0 r temp h e = finish self refl (is_missing r.length content)
    where
      self : Option Block
      self = (alloc sys.malloc 1 h).0

      h1 : Heap
      h1 = (alloc sys.malloc 1 h).1

      content : Option Block
      content = (duplicate sys r.length temp h1).0

      h2 : Heap
      h2 = (duplicate sys r.length temp h1).1

      made : PropBlob
      made = record { self = self; id = r.id; length = r.length; content = content }

      after_self : Owes q h0 h1 (held q self + held q temp)
      after_self = let e1 = Owes-alloc sys.malloc q 1 h in omega arith

      finish :
          (s : Option Block)
          → s ≡ self
          → (b : Bool)
          → Settled (owned q) q h0 (elim s [
            | none ↦ (pos 0, none, free temp h1)
            | some p ↦
                if b
                then (enomem, none, free (some p) (free content h2))
                else (pos 0, some made, free temp h2)
          ])
      finish none e' b = Owes-free q h0 h1 temp 0 (
          let t = subst (λ s. Owes q h0 h1 (held q s + held q temp)) (sym e') after_self in
          omega arith)
      finish (some p) e' true = tt
      finish (some p) e' false =
          Owes-free q h0 h2 temp (held q self + held q content)
            (let a = after_self in let e2 = Owes-duplicate sys q r.length temp h1 in omega arith)

  Settled-get : (id : ℕ) (h : Heap) → Settled (owned q) q h (get_prop_blob sys id h)
  unfolding get_prop_blob Owes
  Settled-get id h =
      let first = sys.blob h.log id in
      let asked_once = ask "GETPROPBLOB" h in
      let made = alloc_next sys true first.length asked_once in
      let second = sys.blob (made.2).log id in
      let h2 = ask "GETPROPBLOB" made.2 in
      let e1 = Owes-ask q "GETPROPBLOB" h in
      let e2 = Owes-alloc_next sys q true first.length asked_once in
      let e3 = Owes-ask q "GETPROPBLOB" made.2 in
      let e4 = held-write q second.content made.1 in
      Settled-guards (owned q) q h asked_once (free made.1 made.2) h2 first.ret second.ret made.0
        (build sys second (write second.content made.1) h2) (omega arith)
        (Owes-free q h made.2 made.1 0 (omega arith))
        (Settled-build h second (write second.content made.1) h2 (omega arith))

-- When `gpuGetPropBlob` returns 0 with a blob and `gpuFreePropBlob` is given it, every address has been
-- freed exactly as often as it has been allocated since the first call, whatever the kernel and the
-- allocator answer.
pub free_prop_blob-get_prop_blob :
    (sys : Sys) (q id : ℕ) (h h' : Heap) (b : PropBlob)
    → get_prop_blob sys id h ≡ (pos 0, some b, h')
    → Owes q h (free_prop_blob b h').1 0
unfolding free_prop_blob Settled owned Owes
free_prop_blob-get_prop_blob sys q id h h' b e =
    let s : Owes q h h' (owned q b) = subst (Settled (owned q) q h) e (Settled-get sys q id h) in
    Owes-free q h _ b.self 0 (Owes-free q h h' b.content (held q b.self + 0) (omega arith))
