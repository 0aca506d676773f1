-- ===== src/Core/Debug/Names.antt =====
-- The names that the kernel gives to rings, and what is read of them (core/gpudridebug.c).
use amdtop.Base.{
  ℕ, zero, suc, ◌<◌, ◌^◌, ◌≡◌, refl, true, some, List, [], ◌∷◌, ◌++◌, pos, length, arith, ap, ◌∙◌,
  sym, ltb,
}
use mathlib.Core.List.{append-nil}
use amdtop.Base.Text.{
  Bytes, codes, take, Item, int, Value, num, lits, sscanf, read_int, read_sign, read_digits,
  skip_space, is_space, is_digit,
}
use amdtop.Base.Text.Digits.{show, ends_number, read_int-show}
use amdtop.Core.Debug.{
  RingType, gfx, comp, kiq, sdma, vce, uvd, Values, ring_name_size, no_values, one, three,
  one_or_two, ring_kind, parse_ring_info,
}

pub data RingName : Type 0 where
  gfx_ring sdma_ring uvd_ring vce_ring : ℕ → RingName
  uvd_enc_ring : ℕ → ℕ → RingName
  comp_ring kiq_ring : ℕ → ℕ → ℕ → RingName

abbrev three_dotted : (a b c : ℕ) → Bytes
three_dotted a b c = show a ++ (codes "." ++ (show b ++ (codes "." ++ show c)))

-- The name without `amdgpu_ring_`, its kind and its numbers.
abbrev pub short_name : RingName → Bytes
short_name (gfx_ring a) = codes "gfx_" ++ show a
short_name (sdma_ring a) = codes "sdma" ++ show a
short_name (uvd_ring a) = codes "uvd_" ++ show a
short_name (vce_ring a) = codes "vce" ++ show a
short_name (uvd_enc_ring a b) = codes "uvd_enc_" ++ (show a ++ (codes "." ++ show b))
short_name (comp_ring a b c) = codes "comp_" ++ three_dotted a b c
short_name (kiq_ring a b c) = codes "kiq_" ++ three_dotted a b c

abbrev pub kind_of : RingName → RingType
kind_of (gfx_ring a) = gfx
kind_of (sdma_ring a) = sdma
kind_of (uvd_ring a) = uvd
kind_of (vce_ring a) = vce
kind_of (uvd_enc_ring a b) = uvd
kind_of (comp_ring a b c) = comp
kind_of (kiq_ring a b c) = kiq

abbrev pub numbers : RingName → Values
numbers (gfx_ring a) = record no_values { fst = pos a }
numbers (sdma_ring a) = record no_values { fst = pos a }
numbers (uvd_ring a) = record no_values { fst = pos a }
numbers (vce_ring a) = record no_values { fst = pos a }
numbers (uvd_enc_ring a b) = record no_values { fst = pos a; snd = pos b }
numbers (comp_ring a b c) = record { fst = pos a; snd = pos b; trd = pos c }
numbers (kiq_ring a b c) = record { fst = pos a; snd = pos b; trd = pos c }

-- The numbers are an `int` each.
abbrev int_bound : ℕ
int_bound = 2 ^ 31

abbrev pub AreInts : RingName → Type 0
AreInts (gfx_ring a) = a < int_bound
AreInts (sdma_ring a) = a < int_bound
AreInts (uvd_ring a) = a < int_bound
AreInts (vce_ring a) = a < int_bound
AreInts (uvd_enc_ring a b) = (a < int_bound) × (b < int_bound)
AreInts (comp_ring a b c) = (a < int_bound) × (b < int_bound) × (c < int_bound)
AreInts (kiq_ring a b c) = (a < int_bound) × (b < int_bound) × (c < int_bound)

read_last : (n : ℕ) → read_int (show n) ≡ some (pos n, [])
unfolding ends_number
read_last n = ap read_int (sym (append-nil (show n))) ∙ read_int-show n [] refl

read_dot : (n : ℕ) (s : Bytes) → read_int (show n ++ (b'.' ∷ s)) ≡ some (pos n, b'.' ∷ s)
unfolding ends_number is_digit
read_dot n s = read_int-show n (b'.' ∷ s) refl

-- `%d` on the text of a number.
scan_int :
    (f : List Item) (n : ℕ) (s r : Bytes)
    → read_int s ≡ some (pos n, r)
    → sscanf (int ∷ f) s ≡ num (pos n) ∷ sscanf f r
unfolding sscanf
scan_int f n s r e = rw (e, sscanf) refl

scan_one : (a : ℕ) → sscanf (int ∷ []) (show a) ≡ num (pos a) ∷ []
unfolding sscanf
scan_one a = scan_int [] a (show a) [] (read_last a)

scan_dot :
    (f : List Item) (a : ℕ) (s : Bytes)
    → sscanf (int ∷ (lits "." ++ f)) (show a ++ (codes "." ++ s)) ≡ num (pos a) ∷ sscanf f s
unfolding sscanf
scan_dot f a s =
    scan_int (lits "." ++ f) a (show a ++ (codes "." ++ s)) (codes "." ++ s) (read_dot a s)

scan_two :
    (a b : ℕ)
    → sscanf (int ∷ (lits "." ++ (int ∷ []))) (show a ++ (codes "." ++ show b))
      ≡ num (pos a) ∷ num (pos b) ∷ []
scan_two a b = scan_dot (int ∷ []) a (show b) ∙ ap (λ vs. num (pos a) ∷ vs) (scan_one b)

scan_three :
    (a b c : ℕ)
    → sscanf (int ∷ (lits "." ++ (int ∷ (lits "." ++ (int ∷ []))))) (three_dotted a b c)
      ≡ num (pos a) ∷ num (pos b) ∷ num (pos c) ∷ []
scan_three a b c =
    scan_dot (int ∷ (lits "." ++ (int ∷ []))) a (show b ++ (codes "." ++ show c))
    ∙ ap (λ vs. num (pos a) ∷ vs) (scan_two b c)

-- "uvd_%d" on the name of a ring that encodes.
scan_uvd : (s : Bytes) → sscanf (lits "uvd_" ++ (int ∷ [])) (codes "uvd_enc_" ++ s) ≡ []
unfolding sscanf read_int read_sign read_digits skip_space is_space is_digit
scan_uvd s = refl

abbrev uvd_values : List Value → List Value → RingType × Values
uvd_values us vs = (uvd, one_or_two us vs)

ring_kind-short_name : (r : RingName) → ring_kind (short_name r) ≡ (kind_of r, numbers r)
unfolding ring_kind sscanf
ring_kind-short_name (gfx_ring a) = ap (λ vs. (gfx, one vs)) (scan_one a)
ring_kind-short_name (sdma_ring a) = ap (λ vs. (sdma, one vs)) (scan_one a)
ring_kind-short_name (uvd_ring a) =
    ap
      (λ vs.
        uvd_values vs
          (sscanf (lits "uvd_enc_" ++ (int ∷ (lits "." ++ (int ∷ [])))) (codes "uvd_" ++ show a)))
      (scan_one a)
ring_kind-short_name (vce_ring a) = ap (λ vs. (vce, one vs)) (scan_one a)
ring_kind-short_name (uvd_enc_ring a b) =
    ap
      (λ vs.
        uvd_values vs (sscanf (int ∷ (lits "." ++ (int ∷ []))) (show a ++ (codes "." ++ show b))))
      (scan_uvd (show a ++ (codes "." ++ show b)))
    ∙ ap (uvd_values []) (scan_two a b)
ring_kind-short_name (comp_ring a b c) = ap (λ vs. (comp, three vs)) (scan_three a b c)
ring_kind-short_name (kiq_ring a b c) = ap (λ vs. (kiq, three vs)) (scan_three a b c)

take-all : (n : ℕ) (s : Bytes) → length s < n → take n s ≡ s
take-all zero s h = elim h [ ]
take-all (suc n) [] h = refl
take-all (suc n) (c ∷ s) h = ap (λ t. c ∷ t) (take-all n s (omega arith))

-- What parseRingInfo reads of the name of a ring, as the kernel writes it, is the kind of the ring, its
-- numbers and the name, when the numbers are an `int` and the short name fits its buffer.
pub parse_ring_info-short_name :
    (r : RingName)
    → AreInts r
    → length (short_name r) < ring_name_size
    → parse_ring_info (codes "amdgpu_ring_" ++ short_name r)
      ≡ some (record {
        type = kind_of r;
        name = take ring_name_size (codes "amdgpu_ring_" ++ short_name r);
        shortname = short_name r;
        values = numbers r;
      })
unfolding parse_ring_info
parse_ring_info-short_name r ints h =
    let t : ltb (length (short_name r)) ring_name_size ≡ true = ground arith in
    simp (take-all ring_name_size (short_name r) h, ring_kind-short_name r, t) refl
