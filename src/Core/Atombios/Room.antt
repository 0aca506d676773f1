-- ===== src/Core/Atombios/Room.antt =====
-- When the header of the video BIOS lies within its image (core/atombios.c).
use amdtop.Base.{
  ℕ, zero, suc, ◌+◌, ◌==◌, ◌&&◌, ◌≡◌, ◌∙◌, Bool, true, false, Option, none, some, List, [], ◌∷◌,
  length, get_elem?, is_some, refl, ap, ℤ, pos, sym, arith, ltb,
}
use amdtop.Core.Atombios.{
  Atombios, word, read16, has_magic, atombios_get_romheader, read_header, atombios_init, data_field,
  function_field, offset_to_rom_header_pointer,
}

is_some-get_elem? : (xs : List ℕ) (i : ℕ) → is_some (get_elem? xs i) ≡ ltb i (length xs)
is_some-get_elem? [] i = ground arith
is_some-get_elem? (x ∷ xs) zero = ground arith
is_some-get_elem? (x ∷ xs) (suc i) = is_some-get_elem? xs i ∙ ground arith

is_some-word : (a b : Option ℕ) → is_some (word a b) ≡ (is_some a && is_some b)
is_some-word none b = refl
is_some-word (some a) none = refl
is_some-word (some a) (some b) = refl

is_some-read16 : (xs : List ℕ) (p : ℕ) → is_some (read16 xs p) ≡ ltb (p + 1) (length xs)
unfolding read16
is_some-read16 xs p =
    is_some-word (get_elem? xs p) (get_elem? xs (p + 1))
    ∙ ap (λ b. b && is_some (get_elem? xs (p + 1))) (is_some-get_elem? xs p)
    ∙ ap (λ b. ltb p (length xs) && b) (is_some-get_elem? xs (p + 1))
    ∙ both p (length xs)
  where
    both : (p n : ℕ) → (ltb p n && ltb (p + 1) n) ≡ ltb (p + 1) n
    both p n = ground arith

-- The pointer to the header lies within the image, and the two fields that are read behind it.
unfoldable pub header_fits : List ℕ → Bool
header_fits image = elim (read16 image offset_to_rom_header_pointer) [
  | none ↦ false
  | some p ↦ ltb (p + data_field + 1) (length image)
]

is_some-read_header :
    (a : Atombios) (o : Option ℕ)
    → is_some (read_header a o)
      ≡ elim o as (λ o. Bool) [ none ↦ false | some p ↦ ltb (p + data_field + 1) (length a.image) ]
unfolding read_header
is_some-read_header a none = refl
is_some-read_header a (some p) =
    fields (read16 a.image (p + data_field)) (read16 a.image (p + function_field))
      (is_some-read16 a.image (p + data_field)) (is_some-read16 a.image (p + function_field))
  where
    earlier : (n : ℕ) → ltb (p + data_field + 1) n ≡ true → ltb (p + function_field + 1) n ≡ true
    earlier n e = ground arith

    fields :
        (x y : Option ℕ)
        → is_some x ≡ ltb (p + data_field + 1) (length a.image)
        → is_some y ≡ ltb (p + function_field + 1) (length a.image)
        → is_some (elim x as (λ o. Option (ℤ × Atombios)) [
          | none ↦ none
          | some table ↦ elim y [
            | none ↦ none
            | some functions ↦
                some (pos 0, (record a { data_offset = table; function_offset = functions }))
          ]
        ])
          ≡ ltb (p + data_field + 1) (length a.image)
    fields none y e f = e
    fields (some t) none e f = let g = earlier (length a.image) (sym e) in cc
    fields (some t) (some u) e f = e

-- On an image that begins with 0x55 0xaa, and with a length that is not 0, atombios_init stays within the
-- image exactly when the pointer to the ROM header does and the header up to its last field that is read;
-- the length that it is given plays no part.
pub is_some-atombios_init :
    (a : Atombios) (rest : List ℕ) (len : ℕ)
    → is_some (atombios_init a (0x55 ∷ 0xaa ∷ rest) (suc len)) ≡ header_fits (0x55 ∷ 0xaa ∷ rest)
unfolding atombios_init has_magic atombios_get_romheader header_fits
is_some-atombios_init a rest len =
    let given : (suc len == 0) ≡ false = ground arith in
    simp given (
      is_some-read_header (record a { image = 0x55 ∷ 0xaa ∷ rest; len = suc len })
        (read16 (0x55 ∷ 0xaa ∷ rest) offset_to_rom_header_pointer))
