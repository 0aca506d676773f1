-- ===== src/Tests/Blocks.antt =====
-- The theorems on the queries of core/gpuinfo.c that hand out memory.
use amdtop.Base.{ℕ, ◌+◌, ◌≡◌, refl, true, false, none, some, Option, List, [], ◌∷◌, length, ℤ, pos}
use amdtop.Core.Heap.{Block, Heap, alloc, free}
use amdtop.Core.Heap.Ledger.{Owes, held}
use amdtop.Core.Info.Blocks.{
  VersionReply, Sys, GpuDriverInfo, GpuVBiosInfo, strdup, copy_version, keep_image,
  gpu_query_driver_info, gpu_query_vbios_info, gpu_query_vbios_version,
}
use amdtop.Core.Info.Blocks.Ends.{after_lengths, fault-gpu_query_driver_info}
use amdtop.Core.Info.Blocks.Image.{after_size, Owes-gpu_query_vbios_info}

-- A kernel whose texts fill the lengths that it gives.
abbrev answer : VersionReply
answer = record {
  ret = pos 0;
  version_major = 3;
  version_minor = 40;
  name_len = 2;
  date_len = 1;
  desc_len = 3;
  name = 97 ∷ 109 ∷ [];
  date = 50 ∷ [];
  desc = 65 ∷ 77 ∷ 68 ∷ [];
}

abbrev card : Sys
card = record {
  malloc = λ l. some (length l);
  version = λ l. answer;
  vbios_size = λ l. (pos 0, 4);
  vbios_image = λ l. (pos 0, 85 ∷ 170 ∷ 1 ∷ 2 ∷ []);
  vbios_version = λ l. none;
}

abbrev fresh : Heap
fresh = record { log = []; fault = false }

abbrev copied : ℕ → List ℕ → Option Block
copied p s = some (record { addr = p; size = length s + 1; words = s })

abbrev driver : GpuDriverInfo
driver = record {
  version_major = 3;
  version_minor = 40;
  driver_name = copied 5 (97 ∷ 109 ∷ []);
  date = copied 7 (50 ∷ []);
  desc = copied 6 (65 ∷ 77 ∷ 68 ∷ []);
}

abbrev heap_of : ℤ × Option GpuDriverInfo × Heap → Heap
heap_of r = r.2

fault-gpu_query_driver_info_example : (heap_of (gpu_query_driver_info card fresh)).fault ≡ true
unfolding gpu_query_driver_info copy_version strdup alloc free after_lengths
fault-gpu_query_driver_info_example =
    fault-gpu_query_driver_info card fresh (heap_of (gpu_query_driver_info card fresh)) driver
      (λ l. refl) refl

abbrev nothing_yet : GpuVBiosInfo
nothing_yet = record { vbios_version = []; image = none; imagelen = 0 }

-- The version cannot be read, so the image at the address 1 stays allocated.
Owes-gpu_query_vbios_info_example : Owes 1 fresh (gpu_query_vbios_info card nothing_yet fresh).2 1
unfolding gpu_query_vbios_info keep_image gpu_query_vbios_version alloc after_size held Owes
Owes-gpu_query_vbios_info_example = Owes-gpu_query_vbios_info card 1 fresh nothing_yet
