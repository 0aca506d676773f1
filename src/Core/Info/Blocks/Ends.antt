-- ===== src/Core/Info/Blocks/Ends.antt =====
-- gpuQueryDriverInfo of core/gpuinfo.c: where it returns a result, and when `strdup` reads too far.
use amdtop.Base.{
  ℕ, ◌≡◌, refl, Bool, true, false, not, ◌||◌, Option, none, some, is_some, List, ℤ, pos, is_zero,
  ltb, length, ap, ◌∙◌, sym, if◌then◌else◌,
}
use amdtop.Core.Heap.{Block, Events, Heap, ask, alloc, block, free, write}
use amdtop.Core.Info.Blocks.{
  VersionReply, Sys, GpuDriverInfo, text_of, has_end, strdup, copy_version, gpu_query_driver_info,
}

-- The result is set only behind the two tests.
pub Reaches :
    (z1 z2 : Bool) (r1 r2 : ℤ) (i i' : GpuDriverInfo) (h0 h4 h5 h' : Heap)
    → ◌≡◌ {A = ℤ × Option GpuDriverInfo × Heap}
        (if not z1 then (r1, none, h0) else (if not z2 then (r2, none, h4) else (r2, some i, h5)))
        (pos 0, some i', h')
    → (i ≡ i') × (h5 ≡ h')
Reaches true true r1 r2 i i' h0 h4 h5 h' e = (cc, cc)
Reaches true false r1 r2 i i' h0 h4 h5 h' e = (cc, cc)
Reaches false z2 r1 r2 i i' h0 h4 h5 h' e = (cc, cc)

-- A text that leaves no room for its zero in a block of that size.
abbrev pub overruns : List ℕ → ℕ → Bool
overruns s size = not (ltb (length (text_of s)) size)

abbrev unended : Option Block → Bool
unended none = true
unended (some b) = not (has_end b)

unended-block :
    (p : Option ℕ) (s : List ℕ) (n : ℕ)
    → is_some p ≡ true
    → unended (write s (block n p)) ≡ overruns s n
unended-block none s n e = cc
unended-block (some p) s n e = refl

fault-free : (b : Option Block) (h : Heap) → (free b h).fault ≡ h.fault
unfolding free
fault-free none h = refl
fault-free (some b) h = refl

or_true : (b : Bool) → true ≡ b || true
or_true true = refl
or_true false = refl

module _ (sys : Sys) where
  -- The heap at the second ioctl.
  unfoldable pub after_lengths : Heap → Heap
  after_lengths h =
      let first = sys.version h.log in
      let m1 = alloc sys.malloc first.name_len (ask "VERSION" h) in
      let m2 = alloc sys.malloc first.date_len m1.1 in
      let m3 = alloc sys.malloc first.desc_len m2.1 in m3.1

  fault-strdup : (b : Option Block) (h : Heap) → (strdup sys b h).1.fault ≡ h.fault || unended b
  unfolding strdup alloc
  fault-strdup none h = or_true h.fault
  fault-strdup (some b) h = refl

  fault-copy_version :
      (v : VersionReply) (name date desc : Option Block) (h : Heap)
      → (copy_version sys v name date desc h).1.fault
        ≡ ((h.fault || unended name) || unended desc) || unended date
  unfolding copy_version
  fault-copy_version v name date desc h =
      let c1 = strdup sys name h in
      let c2 = strdup sys desc c1.1 in
      let c3 = strdup sys date c2.1 in
      let f1 = fault-free desc (free date (free name c3.1)) in
      let f2 = fault-free date (free name c3.1) in
      let f3 = fault-free name c3.1 in
      let e1 = fault-strdup name h in
      let e2 = fault-strdup desc c1.1 in let e3 = fault-strdup date c2.1 in cc

  -- When the allocator never answers NULL and `gpuQueryDriverInfo` returns 0 with a result, it reads
  -- behind the end of a block exactly when one of the three texts of the kernel's second answer is as
  -- long as the length in the kernel's first one, or longer.
  pub fault-gpu_query_driver_info :
      (h h' : Heap) (i : GpuDriverInfo)
      → ((l : Events) → is_some (sys.malloc l) ≡ true)
      → gpu_query_driver_info sys h ≡ (pos 0, some i, h')
      → h'.fault
        ≡ let first = sys.version h.log in
          let second = sys.version (after_lengths h).log in
          ((h.fault || overruns second.name first.name_len) || overruns second.desc first.desc_len)
          || overruns second.date first.date_len
  unfolding gpu_query_driver_info alloc after_lengths
  fault-gpu_query_driver_info h h' i available e =
      let first = sys.version h.log in
      let m1 = alloc sys.malloc first.name_len (ask "VERSION" h) in
      let m2 = alloc sys.malloc first.date_len m1.1 in
      let m3 = alloc sys.malloc first.desc_len m2.1 in
      let second = sys.version m3.1.log in
      let name = write second.name m1.0 in
      let date = write second.date m2.0 in
      let desc = write second.desc m3.0 in
      let made = copy_version sys second name date desc (ask "VERSION" m3.1) in
      let reached =
        Reaches (is_zero first.ret) (is_zero second.ret) first.ret second.ret made.0 i
          (ask "VERSION" h) (ask "VERSION" m3.1) made.1 h' e in
      let e1 =
        unended-block (sys.malloc (ask "VERSION" h).log) second.name first.name_len (available _) in
      let e2 = unended-block (sys.malloc m1.1.log) second.date first.date_len (available _) in
      let e3 = unended-block (sys.malloc m2.1.log) second.desc first.desc_len (available _) in
      let e4 = fault-copy_version second name date desc (ask "VERSION" m3.1) in
      let e5 : h'.fault ≡ made.1.fault = ap (λ (k : Heap). k.fault) (sym reached.1) in
      e5
      ∙ e4
      ∙ (ap (λ b. ((h.fault || b) || unended desc) || unended date) e1)
      ∙ (ap (λ b. ((h.fault || overruns second.name first.name_len) || b) || unended date) e3)
      ∙ ap
          (λ b.
            ((h.fault || overruns second.name first.name_len)
              || overruns second.desc first.desc_len)
            || b)
          e2
