-- ===== src/Core/Atombios/Layout.antt =====
-- What the tables of the video BIOS say (core/atombios.c).
use amdtop.Base.{
  ℕ, zero, suc, ◌+◌, ◌*◌, ◌/◌, ◌%◌, ◌^◌, ◌≡◌, ◌<◌, ◌∙◌, Option, none, some, List, [], ◌∷◌, ◌++◌,
  length, get_elem?, refl, ap, arith, u32_mod,
}
use amdtop.Core.Atombios.{
  Atombios, word, read16, atombios_get_image, get_entry, atombios_get_data_by_id, header_size,
}

-- Numbers of 16 bits as bytes, the low byte first.
unfoldable pub bytes_of : List ℕ → List ℕ
bytes_of [] = []
bytes_of (n ∷ ns) = (n % 256) ∷ (n / 256) ∷ bytes_of ns

get_elem?-append :
    (xs ys : List ℕ) (p i : ℕ) → p ≡ length xs + i → get_elem? (xs ++ ys) p ≡ get_elem? ys i
get_elem?-append [] ys p i e = ap (get_elem? ys) (let f : p ≡ i = omega arith in f)
get_elem?-append (x ∷ xs) ys zero i e = let f : zero ≡ suc zero = omega arith in cc
get_elem?-append (x ∷ xs) ys (suc p) i e = get_elem?-append xs ys p i (omega arith)

read16-append : (xs ys : List ℕ) (p i : ℕ) → p ≡ length xs + i → read16 (xs ++ ys) p ≡ read16 ys i
unfolding read16
read16-append xs ys p i e =
    let low = get_elem?-append xs ys p i e in
    let high = get_elem?-append xs ys (p + 1) (i + 1) (omega arith) in
    ap (λ o. word o (get_elem? (xs ++ ys) (p + 1))) low ∙ ap (word (get_elem? ys i)) high

read16-bytes_of :
    (ns rest : List ℕ) (i n p : ℕ)
    → p ≡ 2 * i
    → get_elem? ns i ≡ some n
    → read16 (bytes_of ns ++ rest) p ≡ some n
unfolding read16 bytes_of
read16-bytes_of [] rest i n p e f = cc
read16-bytes_of (m ∷ ns) rest zero n p e f =
    let first : p ≡ 0 = omega arith in
    let whole : m % 256 + 256 * (m / 256) ≡ m = omega arith in
    ap (read16 (bytes_of (m ∷ ns) ++ rest)) first ∙ ap some whole ∙ f
read16-bytes_of (m ∷ ns) rest (suc i) n p e f =
    read16-append (m % 256 ∷ m / 256 ∷ []) (bytes_of ns ++ rest) p (2 * i) (omega arith)
    ∙ read16-bytes_of ns rest i n (2 * i) refl f

-- In an image in which the list of the data tables stands behind a table header of four bytes at the data
-- offset, atombios_get_data_by_id finds for each of them the pointer that the list says, when this is a
-- number of 16 bits.
pub atombios_get_data_by_id-bytes_of :
    (a : Atombios) (head tables rest : List ℕ) (index n : ℕ)
    → a.image ≡ head ++ (bytes_of tables ++ rest)
    → length head ≡ a.data_offset + header_size
    → get_elem? tables index ≡ some n
    → n < 2 ^ 16
    → atombios_get_data_by_id (some a) index ≡ some (some n)
unfolding atombios_get_data_by_id get_entry atombios_get_image
atombios_get_data_by_id-bytes_of a head tables rest index n e l f small =
    let p = a.data_offset + header_size + 2 * index in
    let found : read16 a.image p ≡ some n =
      ap (λ image. read16 image p) e
      ∙ read16-append head (bytes_of tables ++ rest) p (2 * index) (omega arith)
      ∙ read16-bytes_of tables rest index n (2 * index) refl f in
    let same : n % u32_mod ≡ n = omega arith in
    ap
      (λ o. elim o as (λ o. Option (Option ℕ)) [
        | none ↦ none
        | some entry ↦ some (atombios_get_image (some a) entry)
      ])
      found
    ∙ ap (λ m. some (some m)) same
