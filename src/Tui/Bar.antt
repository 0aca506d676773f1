-- ===== src/Tui/Bar.antt =====
-- tui/window.c and tui/window.h: the gauge that the pages draw, `struct WindowBar`.
pub mod Value
use amdtop.Base.{
  ℕ, zero, suc, ◌+◌, ◌*◌, ◌-◌, ◌/◌, ◌%◌, ◌^◌, Bool, Option, [], ◌∷◌, ℤ, pos, ltb, leb, ◌==◌,
  if◌then◌else◌, u32_mod, sub32,
}
use amdtop.Tui.World
use amdtop.Tui.World.{
  Window, ColorType, unknow, default, red, yellow, green, lit, fmt, World, Env, crash,
}
use amdtop.Tui.Screen.{mvwprintwc}
use Prim.Native.String.{String}

-- `struct WindowBar`; `unit_size` is the length of `unit`.
pub record Bar : Type 0 where
  pub name : String
  pub unit : String
  pub unit_size : ℕ
  pub y : ℕ
  pub x : ℕ
  pub width : ℕ
  pub nwin : Option ℕ
  pub max : ℕ
  pub value : ℕ
  pub percent : ℕ
  pub bar_start : ℕ
  pub label_start : ℕ
  pub last_label_size : ℕ
  pub color_type : ColorType

-- `MIN`
abbrev pub min : ℕ → ℕ → ℕ
min a b = if ltb a b then a else b

abbrev pub at_least : ℕ → ℕ → ℕ
at_least a b = if ltb a b then b else a

-- The decimal digits of a number below 10 ^ (k + 1), and the length of `%d` for a 32-bit pattern.
unfoldable pub digits : ℕ → ℕ → ℕ
digits zero n = 1
digits (suc k) n = let rest = digits k (n / 10) in if ltb n 10 then 1 else 1 + rest

unfoldable pub int_size : ℕ → ℕ
unfolding digits
int_size n = if ltb n (2 ^ 31) then digits 9 n else 1 + digits 9 (u32_mod - n)

-- The length of ` %5d/%-5d %-5s`.
unfoldable pub label_size : Bar → ℕ
unfolding int_size
label_size b =
    3 + at_least (int_size b.value) 5 + at_least (int_size b.max) 5 + at_least b.unit_size 5

-- The size of `buff`.
abbrev pub label_room : ℕ
label_room = 40

-- The numbers of `barSetValue`; the maximum is not zero.
unfoldable pub bar_percent : (value max : ℕ) → ℕ
bar_percent value max = min value max * 100 % u32_mod / max

unfoldable pub bar_cells : (width percent : ℕ) → ℕ
bar_cells width percent = width * percent % u32_mod / 100

unfoldable pub bar_color : ℕ → ColorType
bar_color percent = if ltb percent 40 then green else if ltb percent 70 then yellow else red

-- `barSetMaxValue`
unfoldable pub bar_set_max_value : Bar → ℕ → ℤ × Bar
bar_set_max_value b max = (pos 0, record b { max = max })

module _ (env : Env) where
  -- The blanks of `barUpdateLabel` over the rest of a longer label.
  unfoldable pub blank_rest : Bar → ℕ → World → World
  blank_rest b zero w = w
  blank_rest b (suc k) w =
      blank_rest b k (mvwprintwc env b.nwin b.y (env.getcurx w.log b.nwin) default (lit " ") w).1

  -- `barUpdateLabel`; a zero is written at the length of the text, which may lie behind the buffer.
  unfoldable pub bar_update_label : Bar → World → ℤ × Bar × World
  unfolding blank_rest label_size
  bar_update_label b w =
      let size = label_size b in
      let (ret, w') =
        mvwprintwc env b.nwin b.y b.label_start b.color_type
          (fmt " %5d/%-5d %-5s" (b.value ∷ b.max ∷ [])) w in
      if leb label_room size
      then (let (ret', crashed) = crash w in (ret', b, crashed))
      else (ret, record b { last_label_size = size }, blank_rest b (b.last_label_size - size) w')

  -- The cells of `barSetValue` from cell `i` on.
  unfoldable pub draw_cells : Bar → ColorType → (count i rounds : ℕ) → World → World
  draw_cells b c count i zero w = w
  draw_cells b c count i (suc k) w =
      draw_cells b c count (i + 1) k
        (mvwprintwc env b.nwin b.y (b.bar_start + i) c (lit (if ltb i count then "|" else " ")) w).1

  -- The part of `barSetValue` for a bar of four cells at least.
  unfoldable pub draw_bar : Bar → (value percent : ℕ) → World → ℤ × Bar × World
  unfolding draw_cells bar_cells bar_color bar_update_label
  draw_bar b value percent w =
      let c = bar_color percent in
      let drawn = draw_cells b c (bar_cells b.width percent) 0 (b.width - 4) w in
      let (ret, w') =
        mvwprintwc env b.nwin b.y (env.getcurx drawn.log b.nwin) c (fmt "%3d%%" (percent ∷ []))
          drawn in
      bar_update_label (record b { value = min value b.max; percent = percent; color_type = c }) w'

  -- `barSetValue`; a division by a maximum of zero ends the program.
  unfoldable pub bar_set_value : Bar → ℕ → World → ℤ × Bar × World
  unfolding draw_bar bar_percent
  bar_set_value b value w =
      if b.max == 0
      then (let (ret, w') = crash w in (ret, b, w'))
      else (if ltb b.width 4 then (pos 0, b, w) else draw_bar b value (bar_percent value b.max) w)

  -- `barCreate` on a struct that is there.
  unfoldable pub bar_create :
      Option ℕ → (name unit : String) → (unit_size y x width : ℕ) → World → ℤ × Bar × World
  unfolding bar_set_value bar_set_max_value
  bar_create n name unit unit_size y x width w =
      let (r1, w1) = mvwprintwc env n y x default (fmt "%-5s :[" []) w in
      let start = env.getcurx w1.log n in
      let (r2, w2) = mvwprintwc env n y ((start + width) % u32_mod) default (lit "]") w1 in
      let made : Bar = record {
        name = name;
        unit = unit;
        unit_size = unit_size;
        y = y;
        x = x;
        width = width;
        nwin = n;
        max = 0;
        value = 0;
        percent = 0;
        bar_start = start;
        label_start = env.getcurx w2.log n;
        last_label_size = 0;
        color_type = unknow;
      } in
      bar_set_value (bar_set_max_value made 100).1 0 w2

-- `WindowCheckSize`, with the sums of `uint32_t`.
unfoldable pub window_check_size : Window → (height width : ℕ) → Bool
window_check_size v height width =
    if ltb v.layout.height ((height + 2) % u32_mod)
    then Bool.false
    else (if ltb v.layout.width ((width + 2) % u32_mod) then Bool.false else Bool.true)
