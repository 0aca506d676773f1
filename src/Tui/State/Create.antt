-- ===== src/Tui/State/Create.antt =====
-- How the gauges of the state page are made (tui/stateinfo.c).
use amdtop.Base.{
  ℕ, zero, suc, ◌+◌, ◌%◌, ◌==◌, ◌≡◌, ◌<◌, Bool, true, false, Option, [], ℤ, pos, if◌then◌else◌,
  refl, arith, ap, negsuc, sym, u32_mod, ◌≤◌,
}
use amdtop.Tui.World
use amdtop.Tui.World.{WinType, Window, World, Env, Cmd, ColorType, Text, fmt, lit, get_win, call}
use amdtop.Tui.Screen.{mvwprintwc}
use amdtop.Tui.Bar.{Bar, bar_create, bar_set_value, bar_set_max_value, draw_bar, bar_update_label}
use amdtop.Tui.Bar.Value.{fault-bar_set_value}
use amdtop.Tui.State.{
  BarType, bar_code, gfx_clock, mem_clock, gpu_load, cpu_load, vram, gtt, visible, sys_mem,
  StatePage, Answers, Action, Label, ◌>>◌, checked, set_bar,
}
use amdtop.Tui.State.Handlers.{create, caption, create_gauges}
use amdtop.Tui.State.Safe.{CanDraw, Positive}
use mathlib.Core.Path.{subst}
use Prim.Native.String.{String}

-- The place of a gauge in the order in which they are created.
abbrev pub place : ℕ → ℕ
place c = if c == 5 then 6 else if c == 6 then 5 else c

abbrev pub order : BarType → ℕ
order t = place (bar_code t)

-- The gauges that are created first, up to the k-th, can be drawn.
unfoldable pub Made : ℕ → StatePage → Type 0
Made k p = (t : BarType) → order t < k → CanDraw (p.bars t)

-- An action that returns 0, leads from pages with A to pages with B, and does not crash.
pub record Leads (A B : StatePage → Type 0) (m : Action) : Type 0 where
  pub run :
      (p : StatePage) (w : World)
      → A p
      → w.fault ≡ false
      → ((m p w).0 ≡ pos 0) × B (m p w).1 × ((m p w).2.fault ≡ false)

infixl 5 ◌⟫◌
◌⟫◌ : {A B C : StatePage → Type 0} {m k : Action} → Leads A B m → Leads B C k → Leads A C (m >> k)
unfolding ◌>>◌
◌⟫◌ {A} {B} {C} {m} {k} f g = record {
  run = λ p w a e.
      let (z, b, e') = f.run p w a e in
      subst (λ r. (r.0 ≡ pos 0) × C r.1 × (r.2.fault ≡ false)) (sym (next (m p w) z))
        (g.run (m p w).1 (m p w).2 b e');
}
  where
    next : (r : ℤ × StatePage × World) → r.0 ≡ pos 0 → checked r k ≡ k r.1 r.2
    next (pos zero, p', w') e = refl
    next (pos (suc n), p', w') e = cc
    next (negsuc n, p', w') e = cc

module _ (env : Env) (q : Answers) where
  max-bar_create :
      (n : Option ℕ) (name unit : String) (size y x width : ℕ) (w : World)
      → (bar_create env n name unit size y x width w).1.max ≡ 100
  unfolding bar_create bar_set_max_value bar_set_value draw_bar bar_update_label
  max-bar_create n name unit size y x width w = ground arith

  unit_size-bar_create :
      (n : Option ℕ) (name unit : String) (size y x width : ℕ) (w : World)
      → (bar_create env n name unit size y x width w).1.unit_size ≡ size
  unfolding bar_create bar_set_max_value bar_set_value draw_bar bar_update_label
  unit_size-bar_create n name unit size y x width w = ground arith

  fault-bar_create :
      (n : Option ℕ) (name unit : String) (size y x width : ℕ) (w : World)
      → size ≤ 14
      → w.fault ≡ false
      → (bar_create env n name unit size y x width w).2.fault ≡ false
  unfolding bar_create bar_set_max_value mvwprintwc World.◌>>◌ World.call
  fault-bar_create n name unit size y x width w l e =
      let w1 = (mvwprintwc env n y x World.default (fmt "%-5s :[" []) w).1 in
      let start = env.getcurx w1.log n in
      let w2 = (mvwprintwc env n y ((start + width) % u32_mod) World.default (lit "]") w1).1 in
      let made : Bar = record {
        name = name;
        unit = unit;
        unit_size = size;
        y = y;
        x = x;
        width = width;
        nwin = n;
        max = 100;
        value = 0;
        percent = 0;
        bar_start = start;
        label_start = env.getcurx w2.log n;
        last_label_size = 0;
        color_type = World.unknow;
      } in
      fault-bar_set_value env made 0 w2 l e

  earlier :
      (c d : ℕ) → (c == d) ≡ false → c < 8 → d < 8 → place c < suc (place d) → place c < place d
  earlier c d e l m n = ground arith

  bar_code-lt : (t : BarType) → bar_code t < 8
  bar_code-lt gfx_clock = omega arith
  bar_code-lt mem_clock = omega arith
  bar_code-lt gpu_load = omega arith
  bar_code-lt cpu_load = omega arith
  bar_code-lt vram = omega arith
  bar_code-lt gtt = omega arith
  bar_code-lt visible = omega arith
  bar_code-lt sys_mem = omega arith

  Made-set_bar :
      (t : BarType) (b : Bar) (p : StatePage)
      → CanDraw b
      → Made (order t) p
      → Made (suc (order t)) (set_bar t b p)
  unfolding Made
  Made-set_bar t b p e a u l = step (bar_code u == bar_code t) refl
    where
      step : (c : Bool) → (bar_code u == bar_code t) ≡ c → CanDraw (if c then b else p.bars u)
      step true f = e
      step false f = a u (earlier (bar_code u) (bar_code t) f (bar_code-lt u) (bar_code-lt t) l)

  -- Creating the next gauge.
  Leads-create :
      (n : Option ℕ) (t : BarType) (name unit : String) (size y x width : ℕ)
      → size ≤ 14
      → Leads (Made (order t)) (Made (suc (order t))) (create env q n t name unit size y x width)
  unfolding create
  Leads-create n t name unit size y x width l = record {
    run = λ p w a e. (
      refl,
      Made-set_bar t (bar_create env n name unit size y x width w).1 p
          (
            ap (λ m. m == 0) (max-bar_create n name unit size y x width w),
            (let same = unit_size-bar_create n name unit size y x width w in
                omega (arith, same, l)),
          )
          a,
      fault-bar_create n name unit size y x width w l e,
    );
  }

  Leads-caption :
      (n : Option ℕ) (y x : ℕ) (name : String) (put : Label → StatePage → StatePage)
      → ((l : Label) (p : StatePage) → (put l p).bars ≡ p.bars)
      → Leads (Made 8) (Made 8) (caption env q n y x name put)
  unfolding Made caption mvwprintwc World.◌>>◌ World.call
  Leads-caption n y x name put same = record {
    run = λ p w a e.
        let w' = (mvwprintwc env n y x World.default (lit name) w).1 in
        let label : Label = record { y = q.getcury w'.log n; x = env.getcurx w'.log n } in
        (refl, λ t l. (subst (λ bars. CanDraw (bars t)) (sym (same label p)) (a t l)), e);
  }

  pub Leads-create_gauges :
      (n : Option ℕ) (startx start2x width : ℕ)
      → Leads (Made 0) (Made 8) (create_gauges env q n startx start2x width)
  unfolding create_gauges
  Leads-create_gauges n x x' width =
      Leads-create n gfx_clock "GFX" "MHz" 3 3 x width (omega arith)
      ⟫ Leads-create n mem_clock "MEM" "MHz" 3 4 x width (omega arith)
      ⟫ Leads-create n gpu_load "GPU" "%" 1 5 x width (omega arith)
      ⟫ Leads-create n cpu_load "CPU" "%" 1 6 x width (omega arith)
      ⟫ Leads-create n vram "VRAM" "MB" 2 3 x' width (omega arith)
      ⟫ Leads-create n visible "VIS" "MB" 2 4 x' width (omega arith)
      ⟫ Leads-create n gtt "GTT" "MB" 2 5 x' width (omega arith)
      ⟫ Leads-create n sys_mem "RAM" "MB" 2 6 x' width (omega arith)
      ⟫ Leads-caption n 7 x "PGFX  :" (λ l p. record p { psclk_label = l }) (λ l p. refl)
      ⟫ Leads-caption n 8 x "PMEM  :" (λ l p. record p { pmclk_label = l }) (λ l p. refl)
      ⟫ Leads-caption n 7 x' "Temp  :" (λ l p. record p { temp_label = l }) (λ l p. refl)
      ⟫ Leads-caption n 8 x' "Power :" (λ l p. record p { power_label = l }) (λ l p. refl)

  pub Made-Positive : (p : StatePage) → Made 8 p → Positive p
  unfolding Made Positive
  Made-Positive p a t = a t (all (bar_code t) (bar_code-lt t))
    where
      all : (c : ℕ) → c < 8 → place c < 8
      all c l = ground arith
