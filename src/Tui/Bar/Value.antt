-- ===== src/Tui/Bar/Value.antt =====
-- The numbers that a gauge shows (tui/window.c).
use amdtop.Base.{
  ℕ, ◌+◌, ◌*◌, ◌/◌, ◌^◌, ◌≡◌, ◌≤◌, ◌<◌, ltb, leb, u32_mod, ◌==◌, Bool, true, false, refl, arith, ℤ,
  pos, if◌then◌else◌, Option, [], ◌∷◌, ◌-◌, ◌∙◌, ap, zero, suc,
}
use native.Mathlib.Nat.{
  mod-eq_of_lt, div-mul-le_self, le-div_iff_mul-le, div-le_of_le-mul, mul-div_right,
}
use amdtop.Tui.World.{fmt, ColorType, Text, World, Env, ◌>>◌, call, crash}
use amdtop.Tui.Screen.{mvwprintwc}
use amdtop.Tui.Bar.{
  Bar, min, bar_percent, bar_cells, bar_color, digits, int_size, at_least, label_room, label_size,
  bar_set_value, bar_update_label, draw_bar, draw_cells, blank_rest,
}

div_mono : (a b k : ℕ) → 0 < k → a ≤ b → a / k ≤ b / k
div_mono a b k h l = (le-div_iff_mul-le h).1 (let e = div-mul-le_self a k in omega arith)

bar_percent-no_wrap :
    (value max : ℕ) → max * 100 < 2 ^ 32 → bar_percent value max ≡ min value max * 100 / max
unfolding bar_percent
bar_percent-no_wrap value max k = ap (λ x. x / max) (mod-eq_of_lt (ground arith))

-- With a maximum above 0 and below 2 ^ 32 / 100, the percentage that a gauge shows grows with the value, is 100 at
-- most, and is 100 for a value from the maximum on.
bar_percent_bounds :
    (value value' max : ℕ)
    → 0 < max
    → max * 100 < 2 ^ 32
    → value ≤ value'
    → (bar_percent value max ≤ bar_percent value' max)
      × (bar_percent value' max ≤ 100)
      × (max ≤ value → bar_percent value max ≡ 100)
bar_percent_bounds value value' max h k l =
    let e = bar_percent-no_wrap value max k in
    let e' = bar_percent-no_wrap value' max k in
    let grows = div_mono (min value max * 100) (min value' max * 100) max h (ground arith) in
    let below : min value' max * 100 / max ≤ 100 = div-le_of_le-mul max (ground arith) in
    (
      omega arith,
      omega arith,
      λ full. e ∙ ap (λ x. x * 100 / max) (min-full value max full) ∙ mul-div_right 100 h,
    )
  where
    min-full : (a b : ℕ) → b ≤ a → min a b ≡ b
    min-full a b l = ground arith

digits-le : (k n : ℕ) → digits k n ≤ k + 1
unfolding digits
digits-le zero n = omega arith
digits-le (suc k) n = let l = digits-le k (n / 10) in ground (arith, l)

-- A 32-bit number has at most eleven characters.
int_size-le : (n : ℕ) → int_size n ≤ 11
unfolding int_size
int_size-le n = let l = digits-le 9 n in let m = digits-le 9 (u32_mod - n) in ground (arith, l, m)

at_least-le : (a b c : ℕ) → a ≤ c → b ≤ c → at_least a b ≤ c
at_least-le a b c l m = ground arith

below_room : (n : ℕ) → n < 40 → leb label_room n ≡ false
below_room n l = ground arith

label_size-fits : (b : Bar) → b.unit_size ≤ 14 → leb label_room (label_size b) ≡ false
unfolding label_size
label_size-fits b l =
    let v = at_least-le (int_size b.value) 5 11 (int_size-le b.value) (omega arith) in
    let m = at_least-le (int_size b.max) 5 11 (int_size-le b.max) (omega arith) in
    let u = at_least-le b.unit_size 5 14 l (omega arith) in below_room _ (omega arith)

module _ (env : Env) where
  fault-mvwprintwc :
      (n : Option ℕ) (y x : ℕ) (c : ColorType) (t : Text) (w : World)
      → (mvwprintwc env n y x c t w).1.fault ≡ w.fault
  unfolding mvwprintwc ◌>>◌ call
  fault-mvwprintwc n y x c t w = refl

  fault-draw_cells :
      (b : Bar) (c : ColorType) (count i k : ℕ) (w : World)
      → (draw_cells env b c count i k w).fault ≡ w.fault
  unfolding draw_cells
  fault-draw_cells b c count i zero w = refl
  fault-draw_cells b c count i (suc k) w =
      fault-draw_cells b c count (i + 1) k _ ∙ fault-mvwprintwc _ _ _ _ _ w

  fault-blank_rest : (b : Bar) (k : ℕ) (w : World) → (blank_rest env b k w).fault ≡ w.fault
  unfolding blank_rest
  fault-blank_rest b zero w = refl
  fault-blank_rest b (suc k) w = fault-blank_rest b k _ ∙ fault-mvwprintwc _ _ _ _ _ w

  fault-bar_update_label :
      (b : Bar) (w : World) → b.unit_size ≤ 14 → (bar_update_label env b w).2.fault ≡ w.fault
  unfolding bar_update_label mvwprintwc ◌>>◌ call
  fault-bar_update_label b w l = simp (label_size-fits b l) (
      fault-blank_rest b (b.last_label_size - label_size b)
        (mvwprintwc env b.nwin b.y b.label_start b.color_type
          (fmt " %5d/%-5d %-5s" (b.value ∷ b.max ∷ [])) w).1)

  fault-draw_bar :
      (b : Bar) (value percent : ℕ) (w : World)
      → b.unit_size ≤ 14
      → (draw_bar env b value percent w).2.fault ≡ w.fault
  unfolding draw_bar mvwprintwc ◌>>◌ call
  fault-draw_bar b value percent w l =
      let c = bar_color percent in
      let drawn = draw_cells env b c (bar_cells b.width percent) 0 (b.width - 4) w in
      fault-bar_update_label
        (record b { value = min value b.max; percent = percent; color_type = c })
        (mvwprintwc env b.nwin b.y (env.getcurx drawn.log b.nwin) c (fmt "%3d%%" (percent ∷ []))
          drawn).1
        l
      ∙ fault-draw_cells b c (bar_cells b.width percent) 0 (b.width - 4) w

  -- Where nothing has crashed, setting a gauge whose unit has at most 14 characters, whatever its width
  -- and the value, does not write behind the 40 bytes of its label, and divides by zero exactly when
  -- its maximum is zero.
  pub fault-bar_set_value :
      (b : Bar) (value : ℕ) (w : World)
      → b.unit_size ≤ 14
      → w.fault ≡ false
      → (bar_set_value env b value w).2.fault ≡ (b.max == 0)
  unfolding bar_set_value crash
  fault-bar_set_value b value w l e = step (b.max == 0) (ltb b.width 4)
    where
      outcome : Bool → Bool → ℤ × Bar × World
      outcome z narrow =
          if z
          then (let (ret, w') = crash w in (ret, b, w'))
          else (if narrow then (pos 0, b, w) else draw_bar env b value (bar_percent value b.max) w)

      step : (z narrow : Bool) → (outcome z narrow).2.fault ≡ z
      step true narrow = refl
      step false true = e
      step false false = fault-draw_bar b value (bar_percent value b.max) w l ∙ e
