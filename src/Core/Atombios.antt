-- ===== src/Core/Atombios.antt =====
-- core/atombios.h and core/atombios.c: finding the tables of the video BIOS.
-- A pointer into the image is the number of bytes before it. Reading outside of the image is `none`.
pub mod Layout
pub mod Room
use amdtop.Base.{
  ℕ, ◌+◌, ◌*◌, ◌==◌, ◌&&◌, ◌||◌, Bool, true, false, not, Option, none, some, List, ℤ, pos, length,
  get_elem?, einval, if◌then◌else◌, u32_mod, ◌%◌,
}

-- `struct atombios` without `rom_header`, which is never set.
pub record Atombios : Type 0 where
  pub image : List ℕ
  pub len : ℕ
  pub function_offset : ℕ
  pub data_offset : ℕ

abbrev pub word : (low high : Option ℕ) → Option ℕ
word none high = none
word (some l) none = none
word (some l) (some h) = some (l + 256 * h)

-- `*(uint16_t *)p`, the low byte first
unfoldable pub read16 : List ℕ → ℕ → Option ℕ
read16 image p = word (get_elem? image p) (get_elem? image (p + 1))

abbrev pub offset_to_rom_header_pointer : ℕ
offset_to_rom_header_pointer = 0x48

-- Where `masterhwfunction_offset` and `masterdatatable_offset` stand in the ROM header, and the size
-- of `struct atom_common_table_header`.
abbrev pub function_field : ℕ
function_field = 30

abbrev pub data_field : ℕ
data_field = 32

abbrev pub header_size : ℕ
header_size = 4

-- `atombios_get_image`; NULL for a NULL argument.
unfoldable pub atombios_get_image : Option Atombios → ℕ → Option ℕ
atombios_get_image none offset = none
atombios_get_image (some a) offset = some (offset % u32_mod)

-- `atombios_get_romheader`: its outer `none` says that the image ends before.
unfoldable pub atombios_get_romheader : List ℕ → Option ℕ
unfolding read16
atombios_get_romheader image = read16 image offset_to_rom_header_pointer

-- The two assignments from the header at `p`.
unfoldable pub read_header : Atombios → Option ℕ → Option (ℤ × Atombios)
unfolding read16
read_header a none = none
read_header a (some p) = elim (read16 a.image (p + data_field)) [
  | none ↦ none
  | some table ↦ elim (read16 a.image (p + function_field)) [
    | none ↦ none
    | some functions ↦ some (pos 0, (record a { data_offset = table; function_offset = functions }))
  ]
]

-- Whether the image begins with 0x55 0xaa; the second byte is read only if the first one fits.
unfoldable pub has_magic : List ℕ → Option Bool
has_magic image = elim (get_elem? image 0) [
  | none ↦ none
  | some a ↦
      if a == 0x55
      then elim (get_elem? image 1) as (λ o. Option Bool) [
        | none ↦ none
        | some b ↦ some (b == 0xaa)
      ]
      else some false
]

-- `atombios_init` with pointers that are not NULL.
unfoldable pub atombios_init : Atombios → List ℕ → ℕ → Option (ℤ × Atombios)
unfolding has_magic atombios_get_romheader read_header
atombios_init a image len = if len == 0 then some (einval, a) else elim (has_magic image) [
  | none ↦ none
  | some b ↦
      if b
      then read_header (record a { image = image; len = len }) (atombios_get_romheader image)
      else some (einval, a)
]

-- `atombios_get_data_by_id` and `atombios_get_func_by_id`: the entry of a table at `offset`.
unfoldable pub get_entry : Option Atombios → (Atombios → ℕ) → ℕ → Option (Option ℕ)
unfolding read16 atombios_get_image
get_entry none field index = some none
get_entry (some a) field index = elim (read16 a.image (field a + header_size + 2 * index)) [
  | none ↦ none
  | some entry ↦ some (atombios_get_image (some a) entry)
]

unfoldable pub atombios_get_data_by_id : Option Atombios → ℕ → Option (Option ℕ)
unfolding get_entry
atombios_get_data_by_id a index = get_entry a (λ a. a.data_offset) index

unfoldable pub atombios_get_func_by_id : Option Atombios → ℕ → Option (Option ℕ)
unfolding get_entry
atombios_get_func_by_id a index = get_entry a (λ a. a.function_offset) index
