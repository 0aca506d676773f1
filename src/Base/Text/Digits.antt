-- ===== src/Base/Text/Digits.antt =====
-- Decimal numbers as `printf` writes them with `%d`, and how `sscanf` reads them back.
use Prim.Native.Nat.{ℕ, zero, suc, ◌+◌, ◌-◌, ◌*◌, ◌/◌, ◌%◌, ◌^◌, ◌≤◌, ◌<◌}
use mathlib.Core.Path.{◌≡◌, refl, ap, ◌∙◌, sym}
use mathlib.Core.Logic.{inl, inr}
use mathlib.Core.Bool.{Bool, true, false}
use mathlib.Core.Option.{some}
use mathlib.Core.List.{[], ◌∷◌, ◌++◌, append_assoc}
use native.Mathlib.Omega.{arith}
use amdtop.Base.Tests.{ltb, ◌==◌, if◌then◌else◌, Bool-cases, length}
use native.Mathlib.Nat.{pow-suc}
use mathlib.Core.Path.{subst}
use amdtop.Base.Int.{pos}
use amdtop.Base.Text.{
  Bytes, is_digit, is_space, skip_space, read_more, read_digits, read_int, read_sign, signed,
}

unfoldable pub show_from : (fuel n : ℕ) → Bytes
show_from zero n = []
show_from (suc k) n =
    let rest = show_from k (n / 10) in
    if ltb n 10 then (b'0' + n) ∷ [] else rest ++ ((b'0' + n % 10) ∷ [])

-- The digits of a number; n + 1 rounds are enough.
unfoldable pub show : ℕ → Bytes
unfolding show_from
show n = show_from (suc n) n

-- The bytes that are digits.
pub show-is_digit : (d : ℕ) → d < 10 → is_digit (b'0' + d) ≡ true
unfolding is_digit
show-is_digit d h = ground arith

read_more-digit :
    (m d : ℕ) (s : Bytes) → d < 10 → read_more m ((b'0' + d) ∷ s) ≡ read_more (m * 10 + d) s
unfolding read_more
read_more-digit m d s h =
    let v : b'0' + d - b'0' ≡ d = omega arith in
    simp (show-is_digit d h, read_more) (ap (λ t. read_more (m * 10 + t) s) v)

pub read_more-show_from :
    (k n : ℕ) (s : Bytes) → n < k → read_more 0 (show_from k n ++ s) ≡ read_more n s
unfolding show_from
read_more-show_from zero n s h = elim h [ ]
read_more-show_from (suc k) n s h = elim (Bool-cases (ltb n 10)) [
  | inl small ↦
      simp small (read_more-digit 0 n s (ground arith) ∙ ap (λ m. read_more m s) (omega arith))
  | inr large ↦ simp large (
      ap (λ t. read_more 0 t) (append_assoc (show_from k (n / 10)) ((b'0' + n % 10) ∷ []) s)
      ∙ (read_more-show_from k (n / 10) ((b'0' + n % 10) ∷ s) (ground arith)
          ∙ (read_more-digit (n / 10) (n % 10) s (omega arith)
              ∙ ap (λ m. read_more m s) (omega arith))))
]

-- A text that does not go on with a digit.
unfoldable pub ends_number : Bytes → Bool
ends_number [] = true
ends_number (c ∷ s) = elim (is_digit c) [ true ↦ false | false ↦ true ]

pub read_more-ends : (n : ℕ) (s : Bytes) → ends_number s ≡ true → read_more n s ≡ (n, s)
unfolding ends_number read_more
read_more-ends n [] e = refl
read_more-ends n (c ∷ s) e = elim (Bool-cases (is_digit c)) [
  | inl d ↦ cc
  | inr d ↦ simp (d, read_more) refl
]

-- The first digit of a number.
pub first :
    (fuel n : ℕ) → n < fuel → (d : ℕ) × (t : Bytes) × (d < 10) × (show_from fuel n ≡ (b'0' + d) ∷ t)
unfolding show_from
first zero n h = elim h [ ]
first (suc k) n h = elim (Bool-cases (ltb n 10)) [
  | inl small ↦ (n, [], ground arith, simp small refl)
  | inr large ↦
      let (d, t, l, e) = first k (n / 10) (ground arith) in
      (d, t ++ ((b'0' + n % 10) ∷ []), l, simp (large, e) refl)
]

pub show-is_space : (d : ℕ) → d < 10 → is_space (b'0' + d) ≡ false
unfolding is_space
show-is_space d h = ground arith

read_sign-digit :
    (d : ℕ) (t : Bytes)
    → d < 10
    → read_sign ((b'0' + d) ∷ t) ≡ signed pos (some (read_more 0 ((b'0' + d) ∷ t)))
unfolding read_sign read_digits
read_sign-digit d t h =
    let m : (b'0' + d == b'-') ≡ false = ground arith in
    let p : (b'0' + d == b'+') ≡ false = ground arith in simp (m, p, show-is_digit d h) refl

read_int-digit :
    (d : ℕ) (t : Bytes)
    → d < 10
    → read_int ((b'0' + d) ∷ t) ≡ signed pos (some (read_more 0 ((b'0' + d) ∷ t)))
unfolding read_int skip_space
read_int-digit d t h = simp (show-is_space d h) (read_sign-digit d t h)

-- What `%d` reads of a number that `%d` wrote, in front of a text that does not go on with a digit.
pub read_int-show :
    (n : ℕ) (s : Bytes) → ends_number s ≡ true → read_int (show n ++ s) ≡ some (pos n, s)
unfolding show
read_int-show n s e =
    let (d, t, l, f) = first (suc n) n (omega arith) in
    ap (λ x. read_int (x ++ s)) f
    ∙ (read_int-digit d (t ++ s) l
        ∙ ap (λ x. signed pos (some x))
            (ap (λ x. read_more 0 (x ++ s)) (sym f)
              ∙ (read_more-show_from (suc n) n s (omega arith) ∙ read_more-ends n s e)))

-- Digits only.
abbrev pub AreDigits : Bytes → Type 0
AreDigits [] = Unit {0}
AreDigits (c ∷ s) = (is_digit c ≡ true) × AreDigits s

AreDigits-append : (s t : Bytes) → AreDigits s → AreDigits t → AreDigits (s ++ t)
AreDigits-append [] t h k = k
AreDigits-append (c ∷ s) t (h, hs) k = (h, AreDigits-append s t hs k)

pub show_from-AreDigits : (k n : ℕ) → AreDigits (show_from k n)
unfolding show_from
show_from-AreDigits zero n = tt
show_from-AreDigits (suc k) n = elim (Bool-cases (ltb n 10)) [
  | inl small ↦ subst AreDigits (sym (short small)) (show-is_digit n (ground arith), tt)
  | inr large ↦ subst AreDigits (sym (long large)) (
      AreDigits-append (show_from k (n / 10)) ((b'0' + n % 10) ∷ [])
        (show_from-AreDigits k (n / 10)) (show-is_digit (n % 10) (omega arith), tt))
]
  where
    short : ltb n 10 ≡ true → show_from (suc k) n ≡ (b'0' + n) ∷ []
    short e = simp e refl

    long : ltb n 10 ≡ false → show_from (suc k) n ≡ show_from k (n / 10) ++ ((b'0' + n % 10) ∷ [])
    long e = simp e refl

length-snoc : (s : Bytes) (c : ℕ) → length (s ++ (c ∷ [])) ≡ length s + 1
length-snoc [] c = refl
length-snoc (d ∷ s) c = omega (arith, length-snoc s c)

-- A number below 10 ^ w has at most w digits.
pub length-show_from : (k n w : ℕ) → n < 10 ^ w → 0 < w → length (show_from k n) ≤ w
unfolding show_from
length-show_from zero n w h p = omega arith
length-show_from (suc k) n zero h p = elim p [ ]
length-show_from (suc k) n (suc zero) h p = simp (small n h) (omega arith)
  where
    small : (n : ℕ) → n < 10 ^ 1 → ltb n 10 ≡ true
    small n h = ground arith
length-show_from (suc k) n (suc (suc w)) h p = elim (Bool-cases (ltb n 10)) [
  | inl small ↦ simp small (omega arith)
  | inr large ↦
      simp (large, length-snoc)
        (omega (arith, length-show_from k (n / 10) (suc w) (less n h) (omega arith)))
]
  where
    less : (n : ℕ) → n < 10 ^ suc (suc w) → n / 10 < 10 ^ suc w
    less n h = omega (arith, pow-suc 10 (suc w))
