-- ===== src/Core/Debug/Twice.antt =====
-- The end of the fence file (core/gpudridebug.c): the inner loop notes the last line again.
use amdtop.Base.{ℕ, ◌≡◌, refl, none, some, List, [], ◌∷◌, ◌++◌, map, pos, ap, ◌∙◌, if◌then◌else◌}
use amdtop.Base.Text.{Bytes}
use amdtop.Core.Debug.Fences.{
  AmdGpuFenceInfo, no_fences, Line, emitted_line, signaled_line, read_line, note_line, fence_loop,
  amd_gpu_query_fence_info,
}
use amdtop.Core.Debug.Sections.{reading, AreOther, IsHeader, AreBody, fence_loop-begins}

-- Two lines, the second of them twice.
last_again : List Line → AmdGpuFenceInfo → AmdGpuFenceInfo
last_again (a ∷ b ∷ []) i =
    let n = note_line a 0 i in let k = note_line b n.0 n.1 in (note_line b k.0 k.1).1
last_again _ i = i

module _ (name : Bytes) where
  -- At the end of the file the last line is noted twice.
  fence_loop-ends :
      (l m b : Bytes) (i : AmdGpuFenceInfo)
      → AreBody (l ∷ m ∷ [])
      → fence_loop name (some 0) b (l ∷ m ∷ []) i ≡ last_again (map read_line (l ∷ m ∷ [])) i
  unfolding fence_loop last_again
  fence_loop-ends l m b i (here, (there, _)) =
      let n = note_line (read_line l) 0 i in
      let k = note_line (read_line m) n.0 n.1 in
      ap (λ t. fence_loop name (if t then none else some n.0) l (m ∷ []) n.1) here
      ∙ ap (λ t. fence_loop name (if t then none else some k.0) m [] k.1) there

  -- A section of two numbers at the end of the file: the last line is read twice, so that the number of the
  -- emitted fence is given as the trailing one too, which the section does not have.
  pub amd_gpu_query_fence_info-twice :
      (s e : ℕ) (before : List Bytes) (h l m : Bytes)
      → AreOther name before
      → IsHeader name h
      → AreBody (l ∷ m ∷ [])
      → map read_line (l ∷ m ∷ []) ≡ signaled_line (some s) ∷ emitted_line (some e) ∷ []
      → (i : AmdGpuFenceInfo) × (amd_gpu_query_fence_info name (some (before ++ (h ∷ l ∷ m ∷ [])))
          ≡ some (pos 0, i))
        × (i.emitted ≡ e)
        × (i.emitted_trial ≡ e)
        × (i.trailing_fence ≡ 0)
  unfolding amd_gpu_query_fence_info note_line last_again
  amd_gpu_query_fence_info-twice s e before h l m others own inner lines =
      let (i, same, begins) = fence_loop-begins name before (l ∷ m ∷ []) h others own in
      let r : reading (fence_loop name none [] (before ++ (h ∷ l ∷ m ∷ [])) no_fences)
          ≡ reading (last_again (signaled_line (some s) ∷ emitted_line (some e) ∷ []) i) =
        ap reading begins
        ∙ (ap reading (fence_loop-ends l m h i inner)
            ∙ ap (λ ls. reading (last_again ls i)) lines) in
      (
        fence_loop name none [] (before ++ (h ∷ l ∷ m ∷ [])) no_fences,
        refl,
        ap (λ v. v.emitted) r,
        ap (λ v. v.emitted_trial) r,
        ap (λ v. v.trailing_fence) r ∙ ap (λ v. v.trailing_fence) same,
      )
