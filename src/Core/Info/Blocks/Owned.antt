-- ===== src/Core/Info/Blocks/Owned.antt =====
-- What the queries of core/gpuinfo.c leave allocated.
use amdtop.Base.{ℕ, ◌+◌, ◌≡◌, Option, none, some, pos, is_zero, length, arith}
use mathlib.Core.Path.{subst}
use amdtop.Core.Heap.{Block, Heap, ask, alloc, free, write}
use amdtop.Core.Heap.Ledger.{held, Owes, Owes-alloc, Owes-ask, Owes-free, held-write}
use amdtop.Core.Info.Blocks.{
  VersionReply, Sys, GpuDriverInfo, text_of, strdup, copy_version, gpu_query_driver_info,
}
use amdtop.Core.Info.Blocks.Ends.{Reaches}

module _ (sys : Sys) (q : ℕ) where
  -- The three copies that the caller owns.
  abbrev pub owned : GpuDriverInfo → ℕ
  owned i = held q i.driver_name + held q i.desc + held q i.date

  Owes-strdup :
      (b : Option Block) (h : Heap) → Owes q h (strdup sys b h).1 (held q (strdup sys b h).0)
  unfolding strdup Owes held
  Owes-strdup none h = omega arith
  Owes-strdup (some b) h =
      let e = Owes-alloc sys.malloc q (length (text_of b.words) + 1) h in
      let f =
        held-write q (text_of b.words) (alloc sys.malloc (length (text_of b.words) + 1) h).0 in
      omega arith

  Owes-copy_version :
      (h : Heap) (v : VersionReply) (name date desc : Option Block) (h' : Heap)
      → Owes q h h' (held q name + held q date + held q desc)
      → Owes q h
          (copy_version sys v name date desc h').1
          (owned (copy_version sys v name date desc h').0)
  unfolding copy_version Owes
  Owes-copy_version h v name date desc h' e =
      let c1 = strdup sys name h' in
      let c2 = strdup sys desc c1.1 in
      let c3 = strdup sys date c2.1 in
      let o = held q c1.0 + held q c2.0 + held q c3.0 in
      let e1 = Owes-strdup name h' in
      let e2 = Owes-strdup desc c1.1 in
      let e3 = Owes-strdup date c2.1 in
      let f1 = Owes-free q h c3.1 name (held q date + held q desc + o) (omega arith) in
      let f2 = Owes-free q h (free name c3.1) date (held q desc + o) (omega arith) in
      Owes-free q h (free date (free name c3.1)) desc o (omega arith)

  Owes-taken :
      (h : Heap)
      → let first = sys.version h.log in
        let m1 = alloc sys.malloc first.name_len (ask "VERSION" h) in
        let m2 = alloc sys.malloc first.date_len m1.1 in
        let m3 = alloc sys.malloc first.desc_len m2.1 in
        Owes q h (ask "VERSION" m3.1) (held q m1.0 + held q m2.0 + held q m3.0)
  unfolding Owes
  Owes-taken h =
      let first = sys.version h.log in
      let m1 = alloc sys.malloc first.name_len (ask "VERSION" h) in
      let m2 = alloc sys.malloc first.date_len m1.1 in
      let m3 = alloc sys.malloc first.desc_len m2.1 in
      let e0 = Owes-ask q "VERSION" h in
      let e1 = Owes-alloc sys.malloc q first.name_len (ask "VERSION" h) in
      let e2 = Owes-alloc sys.malloc q first.date_len m1.1 in
      let e3 = Owes-alloc sys.malloc q first.desc_len m2.1 in
      let e4 = Owes-ask q "VERSION" m3.1 in omega arith

  -- When `gpuQueryDriverInfo` sets the result and returns 0, an address is allocated exactly as often
  -- as it is held by the three copies in the result.
  Owes-gpu_query_driver_info :
      (h h' : Heap) (i : GpuDriverInfo)
      → gpu_query_driver_info sys h ≡ (pos 0, some i, h')
      → Owes q h h' (owned i)
  unfolding gpu_query_driver_info Owes
  Owes-gpu_query_driver_info h h' i e =
      let first = sys.version h.log in
      let m1 = alloc sys.malloc first.name_len (ask "VERSION" h) in
      let m2 = alloc sys.malloc first.date_len m1.1 in
      let m3 = alloc sys.malloc first.desc_len m2.1 in
      let second = sys.version m3.1.log in
      let name = write second.name m1.0 in
      let date = write second.date m2.0 in
      let desc = write second.desc m3.0 in
      let made = copy_version sys second name date desc (ask "VERSION" m3.1) in
      let reached =
        Reaches (is_zero first.ret) (is_zero second.ret) first.ret second.ret made.0 i
          (ask "VERSION" h) (ask "VERSION" m3.1) made.1 h' e in
      let e0 = Owes-taken h in
      let e1 = held-write q second.name m1.0 in
      let e2 = held-write q second.date m2.0 in
      let e3 = held-write q second.desc m3.0 in
      let e4 : Owes q h made.1 (owned made.0) =
        Owes-copy_version h second name date desc (ask "VERSION" m3.1) (omega arith) in
      let e5 = subst (λ j. Owes q h made.1 (owned j)) reached.0 e4 in
      subst (λ k. Owes q h k (owned i)) reached.1 e5
