-- ===== src/Core/Debug/Clients/Words.antt =====
-- Fields of a given width, as `printf` writes and `fscanf` reads them.
use amdtop.Base.{
  ℕ, zero, suc, ◌+◌, ◌-◌, ◌*◌, ◌^◌, ◌≤◌, ◌<◌, ◌≡◌, refl, true, false, some, [], ◌∷◌, ◌++◌, pos,
  length, ◌==◌, arith, ap, ◌∙◌, sym,
}
use amdtop.Base.Text.{Bytes, is_digit, is_space, skip_space, read_more, signed}
use amdtop.Base.Text.Digits.{
  AreDigits, show, ends_number, show-is_digit, show-is_space, first, show_from-AreDigits,
  length-show_from, read_more-show_from, read_more-ends,
}
use amdtop.Core.Debug.Clients.{
  read_width, digits_width, sign_width, read_u32, word_width, not_empty, read_command,
}

abbrev pub spaces : ℕ → Bytes → Bytes
spaces zero s = s
spaces (suc k) s = b' ' ∷ spaces k s

-- `%<width>s`, in front of more text
abbrev pub pad : (width : ℕ) → Bytes → Bytes → Bytes
pad w t s = spaces (w - length t) (t ++ s)

pub skip_space-spaces : (k : ℕ) (s : Bytes) → skip_space (spaces k s) ≡ skip_space s
unfolding skip_space is_space
skip_space-spaces zero s = refl
skip_space-spaces (suc k) s = skip_space-spaces k s

ends : (c : ℕ) (t : Bytes) → is_digit c ≡ false → ends_number (c ∷ t) ≡ true
unfolding ends_number
ends c t e = simp (e, ends_number) refl

read_width-digits :
    (w n : ℕ) (s : Bytes) (c : ℕ) (t : Bytes)
    → AreDigits s
    → length s ≤ w
    → is_digit c ≡ false
    → read_width w n (s ++ (c ∷ t)) ≡ read_more n (s ++ (c ∷ t))
unfolding read_width read_more
read_width-digits zero n [] c t h l e = sym (read_more-ends n (c ∷ t) (ends c t e))
read_width-digits zero n (d ∷ s) c t h l e = elim l [ ]
read_width-digits (suc w) n [] c t h l e = stops ∙ sym (read_more-ends n (c ∷ t) (ends c t e))
  where
    stops : read_width (suc w) n (c ∷ t) ≡ (n, c ∷ t)
    stops = simp (e, read_width) refl
read_width-digits (suc w) n (d ∷ s) c t (hd, hs) l e =
    left ∙ (read_width-digits w (n * 10 + (d - b'0')) s c t hs (omega arith) e ∙ sym right)
  where
    left :
        read_width (suc w) n ((d ∷ s) ++ (c ∷ t))
        ≡ read_width w (n * 10 + (d - b'0')) (s ++ (c ∷ t))
    left =
        ap
          (λ b. elim b as (λ x. ℕ × Bytes) [
            | true ↦ read_width w (n * 10 + (d - b'0')) (s ++ (c ∷ t))
            | false ↦ (n, d ∷ (s ++ (c ∷ t)))
          ])
          hd

    right : read_more n ((d ∷ s) ++ (c ∷ t)) ≡ read_more (n * 10 + (d - b'0')) (s ++ (c ∷ t))
    right =
        ap
          (λ b. elim b as (λ x. ℕ × Bytes) [
            | true ↦ read_more (n * 10 + (d - b'0')) (s ++ (c ∷ t))
            | false ↦ (n, d ∷ (s ++ (c ∷ t)))
          ])
          hd

digits_width-show :
    (w n : ℕ) (c : ℕ) (t : Bytes)
    → n < 10 ^ w
    → 0 < w
    → is_digit c ≡ false
    → read_width w 0 (show n ++ (c ∷ t)) ≡ (n, c ∷ t)
unfolding show
digits_width-show w n c t h p e =
    read_width-digits w 0 (show n) c t (show_from-AreDigits (suc n) n)
      (length-show_from (suc n) n w h p) e
    ∙ (read_more-show_from (suc n) n (c ∷ t) (omega arith) ∙ read_more-ends n (c ∷ t) (ends c t e))

sign_width-digit :
    (w d : ℕ) (t : Bytes)
    → d < 10
    → sign_width w ((b'0' + d) ∷ t) ≡ signed pos (some (read_width w 0 ((b'0' + d) ∷ t)))
unfolding sign_width digits_width
sign_width-digit w d t h =
    let m : (b'0' + d == b'-') ≡ false = ground arith in
    let p : (b'0' + d == b'+') ≡ false = ground arith in simp (m, p, show-is_digit d h) refl

skip_space-digit : (d : ℕ) (t : Bytes) → d < 10 → skip_space ((b'0' + d) ∷ t) ≡ (b'0' + d) ∷ t
unfolding skip_space
skip_space-digit d t h = simp (show-is_space d h) refl

-- A number of at most `w` digits that stands right in a field and in front of a byte that is no digit.
pub read_u32-spaces :
    (w k n c : ℕ) (t : Bytes)
    → n < 10 ^ w
    → 0 < w
    → is_digit c ≡ false
    → read_u32 w (spaces k (show n ++ (c ∷ t))) ≡ some (pos n, c ∷ t)
unfolding read_u32 show
read_u32-spaces w k n c t h p e =
    let (d, u, l, f) = first (suc n) n (omega arith) in
    ap (sign_width w) (skip_space-spaces k (show n ++ (c ∷ t)))
    ∙ (ap (λ x. sign_width w (skip_space (x ++ (c ∷ t)))) f
        ∙ (ap (sign_width w) (skip_space-digit d (u ++ (c ∷ t)) l)
            ∙ (sign_width-digit w d (u ++ (c ∷ t)) l
                ∙ ap (λ x. signed pos (some x))
                    (ap (λ x. read_width w 0 (x ++ (c ∷ t))) (sym f)
                      ∙ digits_width-show w n c t h p e))))

-- A text without blanks.
abbrev pub AreSolid : Bytes → Type 0
AreSolid [] = Unit {0}
AreSolid (c ∷ s) = (is_space c ≡ false) × AreSolid s

word_width-blank : (w : ℕ) (t : Bytes) → word_width (suc w) (b' ' ∷ t) ≡ ([], b' ' ∷ t)
unfolding word_width is_space
word_width-blank w t = refl

pub skip_space-solid : (c : ℕ) (s : Bytes) → is_space c ≡ false → skip_space (c ∷ s) ≡ c ∷ s
unfolding skip_space
skip_space-solid c s e = simp e refl

word_width-solid :
    (w : ℕ) (s t : Bytes)
    → AreSolid s
    → length s ≤ w
    → word_width w (s ++ (b' ' ∷ t)) ≡ (s, b' ' ∷ t)
unfolding word_width
word_width-solid zero [] t h l = refl
word_width-solid zero (c ∷ s) t h l = elim l [ ]
word_width-solid (suc w) [] t h l = word_width-blank w t
word_width-solid (suc w) (c ∷ s) t (hc, hs) l =
    ap
      (λ b. elim b as (λ x. Bytes × Bytes) [
        | true ↦ ([], c ∷ (s ++ (b' ' ∷ t)))
        | false ↦ let (u, r) = word_width w (s ++ (b' ' ∷ t)) in (c ∷ u, r)
      ])
      hc
    ∙ ap (λ (p : Bytes × Bytes). (c ∷ p.0, p.1)) (word_width-solid w s t hs (omega arith))

pub read_command-spaces :
    (k c : ℕ) (s t : Bytes)
    → AreSolid (c ∷ s)
    → length (c ∷ s) ≤ 20
    → read_command (spaces k ((c ∷ s) ++ (b' ' ∷ t))) ≡ some (c ∷ s, b' ' ∷ t)
unfolding read_command
read_command-spaces k c s t (hc, hs) l =
    ap (λ x. not_empty (word_width 20 x))
      (skip_space-spaces k ((c ∷ s) ++ (b' ' ∷ t)) ∙ skip_space-solid c (s ++ (b' ' ∷ t)) hc)
    ∙ ap not_empty (word_width-solid 20 (c ∷ s) t (hc, hs) l)
