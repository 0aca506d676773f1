-- ===== src/Core/Debug/Sections.antt =====
-- The fence file as sections, one for each ring, and what is read of a section (core/gpudridebug.c).
use amdtop.Base.{
  ℕ, ◌≡◌, refl, true, false, Option, none, some, List, [], ◌∷◌, ◌++◌, map, ℤ, pos, ap, ◌∙◌,
  if◌then◌else◌,
}
use amdtop.Base.Text.{Bytes, starts}
use amdtop.Core.Debug.Fences.{
  AmdGpuFenceInfo, no_fences, Line, emitted_line, trailing_line, signaled_line, preempted_line,
  reset_line, both_line, other_line, read_line, note_line, header, at_header, is_dashed, fence_loop,
  amd_gpu_query_fence_info,
}

-- What the page shows of `struct AmdGpuFenceInfo`: all but `ringid`.
pub record Reading : Type 0 where
  pub signaled : ℕ
  pub emitted : ℕ
  pub trailing_fence : ℕ
  pub emitted_trial : ℕ
  pub preempted : ℕ
  pub reset : ℕ
  pub both : ℕ

abbrev pub reading : AmdGpuFenceInfo → Reading
reading i = record {
  signaled = i.signaled;
  emitted = i.emitted;
  trailing_fence = i.trailing_fence;
  emitted_trial = i.emitted_trial;
  preempted = i.preempted;
  reset = i.reset;
  both = i.both;
}

-- Lines among which no header is the ring's.
abbrev IsOther : Bytes → Option (ℤ × Bytes) → Type 0
IsOther name none = Unit {0}
IsOther name (some (n, s)) = starts name s ≡ false

abbrev pub AreOther : Bytes → List Bytes → Type 0
AreOther name [] = Unit {0}
AreOther name (l ∷ ls) = IsOther name (header l) × AreOther name ls

-- The ring's own header.
abbrev IsOwn : Bytes → Option (ℤ × Bytes) → Type 0
IsOwn name none = ⊥
IsOwn name (some (n, s)) = starts name s ≡ true

abbrev pub IsHeader : Bytes → Bytes → Type 0
IsHeader name l = IsOwn name (header l)

-- Lines without dashes in front.
abbrev pub AreBody : List Bytes → Type 0
AreBody [] = Unit {0}
AreBody (l ∷ ls) = (is_dashed l ≡ false) × AreBody ls

-- What the lines of a section change, one after the other.
notes : List Line → ℕ → AmdGpuFenceInfo → ℕ × AmdGpuFenceInfo
notes [] k i = (k, i)
notes (l ∷ ls) k i = let (k', i') = note_line l k i in notes ls k' i'

module _ (name : Bytes) where
  at_header-other :
      (o : Option (ℤ × Bytes)) (i : AmdGpuFenceInfo)
      → IsOther name o
      → ((at_header name o i).0 ≡ none) × (reading (at_header name o i).1 ≡ reading i)
  unfolding at_header
  at_header-other none i h = (refl, refl)
  at_header-other (some (n, s)) i h = (ap (λ b. if b then some 0 else none) h, refl)

  at_header-own :
      (o : Option (ℤ × Bytes)) (i : AmdGpuFenceInfo)
      → IsOwn name o
      → ((at_header name o i).0 ≡ some 0) × (reading (at_header name o i).1 ≡ reading i)
  unfolding at_header
  at_header-own none i h = elim h [ ]
  at_header-own (some (n, s)) i h = (ap (λ b. if b then some 0 else none) h, refl)

  -- Before the section: some result with the same reading goes on behind the lines.
  fence_loop-before :
      (ls rest : List Bytes) (b : Bytes) (i : AmdGpuFenceInfo)
      → AreOther name ls
      → (b' : Bytes) × (i' : AmdGpuFenceInfo) × (reading i' ≡ reading i)
        × (fence_loop name none b (ls ++ rest) i ≡ fence_loop name none b' rest i')
  unfolding fence_loop
  fence_loop-before [] rest b i h = (b, i, refl, refl)
  fence_loop-before (l ∷ ls) rest b i (here, later) =
      let (place, same) = at_header-other (header l) i here in
      let (b', i', r, e) = fence_loop-before ls rest l (at_header name (header l) i).1 later in
      (
        b',
        i',
        r ∙ same,
        ap (λ p. fence_loop name p l (ls ++ rest) (at_header name (header l) i).1) place ∙ e,
      )

  fence_loop-after :
      (ls : List Bytes) (b : Bytes) (i : AmdGpuFenceInfo)
      → AreOther name ls
      → reading (fence_loop name none b ls i) ≡ reading i
  unfolding fence_loop
  fence_loop-after [] b i h = refl
  fence_loop-after (l ∷ ls) b i (here, later) =
      let (place, same) = at_header-other (header l) i here in
      ap (λ p. reading (fence_loop name p l ls (at_header name (header l) i).1)) place
      ∙ (fence_loop-after ls l (at_header name (header l) i).1 later ∙ same)

  -- Inside, up to the next line with dashes, which is noted as well.
  fence_loop-inside :
      (ls rest : List Bytes) (d b : Bytes) (k : ℕ) (i : AmdGpuFenceInfo)
      → AreBody ls
      → is_dashed d ≡ true
      → read_line d ≡ other_line
      → fence_loop name (some k) b (ls ++ (d ∷ rest)) i
        ≡ fence_loop name none d rest (notes (map read_line ls) k i).1
  unfolding fence_loop notes note_line
  fence_loop-inside [] rest d b k i h dashed other =
      ap
        (λ t.
          fence_loop name (if t then none else some (note_line (read_line d) k i).0) d rest
            (note_line (read_line d) k i).1)
        dashed
      ∙ ap (λ l. fence_loop name none d rest (note_line l k i).1) other
  fence_loop-inside (l ∷ ls) rest d b k i (here, later) dashed other =
      let n = note_line (read_line l) k i in
      ap (λ t. fence_loop name (if t then none else some n.0) l (ls ++ (d ∷ rest)) n.1) here
      ∙ fence_loop-inside ls rest d l n.0 n.1 later dashed other

  -- A file up to the section: the inner loop begins with a result that reads as the empty one.
  pub fence_loop-begins :
      (before rest : List Bytes) (h : Bytes)
      → AreOther name before
      → IsHeader name h
      → (i : AmdGpuFenceInfo) × (reading i ≡ reading no_fences)
        × (fence_loop name none [] (before ++ (h ∷ rest)) no_fences
            ≡ fence_loop name (some 0) h rest i)
  unfolding fence_loop
  fence_loop-begins before rest h others own =
      let (b, i, r, e) = fence_loop-before before (h ∷ rest) [] no_fences others in
      let (place, same) = at_header-own (header h) i own in
      (
        (at_header name (header h) i).1,
        same ∙ r,
        e ∙ ap (λ p. fence_loop name p h rest (at_header name (header h) i).1) place,
      )

  -- A ring with a section of seven numbers, in front of another header that is no line of numbers: when no
  -- other line is a header for the ring, amdGpuQueryFenceInfo gives these numbers.
  pub amd_gpu_query_fence_info-section :
      (s e t f p r b : ℕ) (before body after : List Bytes) (h d : Bytes)
      → AreOther name before
      → IsHeader name h
      → AreBody body
      → map read_line body
        ≡ signaled_line (some s)
          ∷ emitted_line (some e)
          ∷ trailing_line (some t)
          ∷ emitted_line (some f)
          ∷ preempted_line (some p)
          ∷ reset_line (some r)
          ∷ both_line (some b)
          ∷ []
      → is_dashed d ≡ true
      → read_line d ≡ other_line
      → AreOther name after
      → (i : AmdGpuFenceInfo) × (amd_gpu_query_fence_info name
            (some (before ++ (h ∷ (body ++ (d ∷ after)))))
          ≡ some (pos 0, i))
        × (reading i ≡ record {
          signaled = s;
          emitted = e;
          trailing_fence = t;
          emitted_trial = f;
          preempted = p;
          reset = r;
          both = b;
        })
  unfolding amd_gpu_query_fence_info note_line notes
  amd_gpu_query_fence_info-section s e t f p r b before body after h d others own inner lines dashed
        other others' =
      let (i, same, begins) = fence_loop-begins before (body ++ (d ∷ after)) h others own in
      (
        fence_loop name none [] (before ++ (h ∷ (body ++ (d ∷ after)))) no_fences,
        refl,
        ap reading begins
            ∙ (ap reading (fence_loop-inside body after d h 0 i inner dashed other)
                ∙ (fence_loop-after after d (notes (map read_line body) 0 i).1 others'
                    ∙ ap (λ ls. reading (notes ls 0 i).1) lines)),
      )
