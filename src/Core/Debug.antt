-- ===== src/Core/Debug.antt =====
-- core/gpudridebug.c: what debugfs says of the rings of a card.
-- The entries of its directory and the lines of its files are parameters. `none` is an undefined access.
pub mod Names
pub mod Directory
pub mod Fences
pub mod Sections
pub mod Twice
pub mod Clients
use amdtop.Base.{
  ℕ, suc, ◌+◌, Bool, true, false, ◌||◌, Option, none, some, List, [], ◌∷◌, ◌++◌, ℤ, pos, negsuc,
  length, ltb, leb, if◌then◌else◌,
}
use amdtop.Base.Text.{Bytes, codes, take, drop, starts, Item, int, Value, num, lits, sscanf}
use Prim.Native.String.{String}

-- `enum RingType`
pub data RingType : Type 0 where
  unknown gfx comp kiq sdma vce uvd : RingType

-- `values` of `struct AmdGpuRing`
pub record Values : Type 0 where
  pub fst : ℤ
  pub snd : ℤ
  pub trd : ℤ

-- `struct AmdGpuRing` without its device
pub record AmdGpuRing : Type 0 where
  pub type : RingType
  pub name : Bytes
  pub shortname : Bytes
  pub values : Values

abbrev pub ring_name_size : ℕ
ring_name_size = 50

abbrev pub no_values : Values
no_values = record { fst = negsuc 0; snd = negsuc 0; trd = negsuc 0 }

-- The values that are set when all conversions were made.
abbrev pub one : List Value → Values
one (num a ∷ []) = record no_values { fst = a }
one _ = no_values

abbrev pub two : List Value → Values
two (num a ∷ num b ∷ []) = record no_values { fst = a; snd = b }
two _ = no_values

abbrev pub three : List Value → Values
three (num a ∷ num b ∷ num c ∷ []) = record { fst = a; snd = b; trd = c }
three _ = no_values

-- The test of "uvd_%d" first, then "uvd_enc_%d.%d".
abbrev pub one_or_two : List Value → List Value → Values
one_or_two (num a ∷ []) vs = record no_values { fst = a }
one_or_two _ vs = two vs

abbrev pub dotted : String → List Item
dotted s = lits s ++ (int ∷ lits "." ++ (int ∷ lits "." ++ (int ∷ [])))

-- The cases of `parseRingInfo` on the short name.
unfoldable pub ring_kind : Bytes → RingType × Values
ring_kind p =
    if starts (codes "gfx") p
    then (gfx, one (sscanf (lits "gfx_" ++ (int ∷ [])) p))
    else (if starts (codes "sdma") p
        then (sdma, one (sscanf (lits "sdma" ++ (int ∷ [])) p))
        else (if starts (codes "comp") p
            then (comp, three (sscanf (dotted "comp_") p))
            else (if starts (codes "uvd") p
                then (
                  uvd,
                  one_or_two (sscanf (lits "uvd_" ++ (int ∷ [])) p)
                      (sscanf (lits "uvd_enc_" ++ (int ∷ lits "." ++ (int ∷ []))) p),
                )
                else (if starts (codes "kiq") p
                    then (kiq, three (sscanf (dotted "kiq_") p))
                    else (if starts (codes "vce") p
                        then (vce, one (sscanf (lits "vce" ++ (int ∷ [])) p))
                        else (unknown, no_values))))))

-- `parseRingInfo` for a name of at least 12 bytes. A short name that fills its buffer has no end there:
-- what is read behind it is not said.
unfoldable pub parse_ring_info : Bytes → Option AmdGpuRing
unfolding ring_kind
parse_ring_info name =
    let short = take ring_name_size (drop 12 name) in
    let (t, vs) = ring_kind short in
    if ltb (length short) ring_name_size
    then some (record { type = t; name = take ring_name_size name; shortname = short; values = vs })
    else none

-- The loop of `amdGpuRingInfo`: the elements of the array that it wrote, in their order, `ring_num`, and
-- whether it wrote behind the end of the array or read behind a name.
pub record Scan : Type 0 where
  pub rings : List AmdGpuRing
  pub ring_num : ℕ
  pub fault : Bool

abbrev pub is_hidden : Bytes → Bool
is_hidden s = starts (codes ".") s

abbrev pub is_ring : Bytes → Bool
is_ring s = starts (codes "amdgpu_ring_") s

abbrev pub store : (room : ℕ) → Option AmdGpuRing → Scan → Scan
store room none s = record s { ring_num = s.ring_num + 1; fault = true }
store room (some r) s = record {
  rings = s.rings ++ (r ∷ []);
  ring_num = s.ring_num + 1;
  fault = s.fault || leb room s.ring_num;
}

-- A round of the loop; the array has `room` elements, `none` where the caller gives none.
unfoldable pub add_entry : (room : Option ℕ) → Bytes → Scan → Scan
add_entry room name s =
    if is_hidden name
    then s
    else (if is_ring name
        then elim room as (λ o. Scan) [
          | none ↦ record s { ring_num = s.ring_num + 1 }
          | some n ↦ store n (parse_ring_info name) s
        ]
        else s)

unfoldable pub add_entries : (room : Option ℕ) → List Bytes → Scan → Scan
unfolding add_entry
add_entries room [] s = s
add_entries room (e ∷ es) s = add_entries room es (add_entry room e s)

abbrev pub no_rings : Scan
no_rings = record { rings = []; ring_num = 0; fault = false }

-- `amdGpuRingInfo` on the entries of the directory, `none` where `opendir` fails: then its NULL is read.
unfoldable pub amd_gpu_ring_info : (entries : Option (List Bytes)) → (room : Option ℕ) → Option Scan
unfolding add_entries
amd_gpu_ring_info none room = none
amd_gpu_ring_info (some es) room = some (add_entries room es no_rings)
