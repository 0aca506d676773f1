-- ===== src/Tests/Files.antt =====
-- The theorems on the files of debugfs and on the fence page.
use amdtop.Base.{◌≡◌, refl, true, some, List, [], ◌∷◌, ◌++◌, pos, arith, ltb, length}
use amdtop.Base.Text.{
  Bytes, codes, take, contains, sscanf, read_int, read_sign, read_digits, read_hex, read_hex_more,
  hex_digit, read_word, first_word, skip_space, is_space, is_digit, first_hex, read_more,
}
use amdtop.Base.Text.Digits.{show, show_from}
use amdtop.Core.Debug.{Scan, ring_name_size, parse_ring_info, amd_gpu_ring_info}
use amdtop.Core.Debug.Names.{comp_ring, short_name, kind_of, numbers, parse_ring_info-short_name}
use amdtop.Core.Debug.Directory.{ring_names, Lists, amd_gpu_ring_info-Lists}
use amdtop.Core.Debug.Fences.{AmdGpuFenceInfo, read_line, header, amd_gpu_query_fence_info}
use amdtop.Core.Debug.Sections.{reading, amd_gpu_query_fence_info-section}
use amdtop.Core.Debug.Twice.{amd_gpu_query_fence_info-twice}
use amdtop.Core.Debug.Clients.{
  AmdGpuClientInfo, amd_gpu_query_client_info, client_loop, read_client, read_command, read_u32,
  sign_width, digits_width, read_width, word_width,
}
use amdtop.Core.Debug.Clients.Printed.{print_clients, Fits, amd_gpu_query_client_info-take}
use amdtop.Tui.World.{main, get_active_device}
use amdtop.Tui.Fences.{DebugFs, start_page, max_ring_count, tab_fence_info_init}
use amdtop.Tui.Fences.Overflow.{Opens, fault-tab_fence_info_init}
use amdtop.Tests.Screens.{terminal, ready, card}

parse_ring_info-short_name_example :
    parse_ring_info (codes "amdgpu_ring_" ++ short_name (comp_ring 1 0 31))
    ≡ some (record {
      type = kind_of (comp_ring 1 0 31);
      name = take ring_name_size (codes "amdgpu_ring_" ++ short_name (comp_ring 1 0 31));
      shortname = short_name (comp_ring 1 0 31);
      values = numbers (comp_ring 1 0 31);
    })
unfolding show show_from
parse_ring_info-short_name_example =
    parse_ring_info-short_name (comp_ring 1 0 31) (omega arith, omega arith, omega arith)
      (omega arith)

-- A directory with two rings.
abbrev entries : List Bytes
entries = codes "." ∷ codes "amdgpu_ring_gfx" ∷ codes "clients" ∷ codes "amdgpu_ring_sdma0" ∷ []

amd_gpu_ring_info-Lists_example :
    (s : Scan) × (amd_gpu_ring_info (some entries) (some 1) ≡ some s)
    × Lists 1 (ring_names entries) s
unfolding ring_names
amd_gpu_ring_info-Lists_example = amd_gpu_ring_info-Lists 1 entries (omega arith, (omega arith, tt))

abbrev sections : List Bytes
sections =
    codes "Last signaled fence          0x0000002a"
    ∷ codes "Last emitted                 0x0000002b"
    ∷ codes "Last signaled trailing fence 0x00000001"
    ∷ codes "Last emitted                 0x00000002"
    ∷ codes "Last preempted               0x00000003"
    ∷ codes "Last reset                   0x00000004"
    ∷ codes "Last both                    0x00000005"
    ∷ []

abbrev next_ring : Bytes
next_ring = codes "--- ring 1 (sdma0) ---"

amd_gpu_query_fence_info-section_example :
    (i : AmdGpuFenceInfo) × (amd_gpu_query_fence_info
        (codes "gfx")
        (some ([] ++ (codes "--- ring 0 (gfx) ---" ∷ (sections ++ (next_ring ∷ [])))))
      ≡ some (pos 0, i))
    × (reading i ≡ record {
      signaled = 0x2a;
      emitted = 0x2b;
      trailing_fence = 1;
      emitted_trial = 2;
      preempted = 3;
      reset = 4;
      both = 5;
    })
unfolding header read_line sscanf contains read_int read_sign read_digits read_more read_hex
    first_hex read_hex_more hex_digit read_word first_word skip_space is_space is_digit
amd_gpu_query_fence_info-section_example =
    amd_gpu_query_fence_info-section (codes "gfx") 0x2a 0x2b 1 2 3 4 5 [] sections []
      (codes "--- ring 0 (gfx) ---") next_ring tt refl
      (refl, (refl, (refl, (refl, (refl, (refl, (refl, tt))))))) refl refl refl tt

-- The last ring of the file, which has no trailing fence.
amd_gpu_query_fence_info-twice_example :
    (i : AmdGpuFenceInfo) × (amd_gpu_query_fence_info (codes "vce0") (
        some (
          []
          ++ (codes "--- ring 9 (vce0) ---"
              ∷ codes "Last signaled fence          0x00000007"
              ∷ codes "Last emitted                 0x00000009"
              ∷ [])))
      ≡ some (pos 0, i))
    × (i.emitted ≡ 9)
    × (i.emitted_trial ≡ 9)
    × (i.trailing_fence ≡ 0)
unfolding header read_line sscanf contains read_int read_sign read_digits read_more read_hex
    first_hex read_hex_more hex_digit read_word first_word skip_space is_space is_digit
amd_gpu_query_fence_info-twice_example =
    amd_gpu_query_fence_info-twice (codes "vce0") 7 9 [] (codes "--- ring 9 (vce0) ---")
      (codes "Last signaled fence          0x00000007")
      (codes "Last emitted                 0x00000009") tt refl (refl, (refl, tt)) refl

abbrev server : AmdGpuClientInfo
server = record {
  command = codes "Xorg";
  pid = 1224;
  dev = 0;
  master = b'y';
  a = b'y';
  uid = 0;
  magic = 4000000000;
}

server-Fits : Fits server
unfolding is_space
server-Fits = record {
  command = ((refl, (refl, (refl, (refl, tt)))), omega arith);
  pid = omega arith;
  dev = omega arith;
  master = refl;
  a = refl;
  uid = omega arith;
  magic = omega arith;
}

amd_gpu_query_client_info-take_example :
    amd_gpu_query_client_info 1 (
      some (
        codes "  command   pid dev master a   uid      magic",
        print_clients (server ∷ server ∷ []),
      ))
    ≡ record { ret = pos 0; clients = some (take 1 (server ∷ server ∷ [])); open_files = 0 }
unfolding contains
amd_gpu_query_client_info-take_example =
    amd_gpu_query_client_info-take 1 (codes "  command   pid dev master a   uid      magic")
      (server ∷ server ∷ []) refl (server-Fits, (server-Fits, tt))

-- A client with a process number of seven digits ends the list, as does the one behind it.
large_pid :
    amd_gpu_query_client_info 40 (
      some (codes "master", print_clients (server ∷ record server { pid = 1234567 } ∷ server ∷ [])))
    ≡ record { ret = pos 0; clients = some (server ∷ []); open_files = 0 }
unfolding amd_gpu_query_client_info contains print_clients show show_from client_loop read_client
    read_command read_u32 sign_width digits_width read_width word_width skip_space is_space is_digit
large_pid = refl

abbrev debug : DebugFs
debug = record { is_root = λ h. true; entries = λ h g. some entries; fences = λ h g. some [] }

debug-Opens : Opens terminal debug 4
unfolding Opens
debug-Opens h = refl

fault-tab_fence_info_init_example :
    (tab_fence_info_init terminal debug main start_page ready).2.fault
    ≡ ltb max_ring_count (length (ring_names entries))
unfolding get_active_device ring_names
fault-tab_fence_info_init_example =
    fault-tab_fence_info_init terminal debug main start_page ready card 4 entries refl refl refl
      refl (omega arith, (omega arith, tt)) debug-Opens refl
