-- ===== src/Tui/Fences/Overflow.antt =====
-- The array of rings on the fence page (tui/fenceinfo.c).
use amdtop.Base.{
  ℕ, zero, suc, ◌+◌, ◌/◌, ◌≡◌, Bool, true, false, Option, none, some, List, [], ◌∷◌, ℤ, pos, negsuc,
  ltb, length, refl, ap, ◌∙◌, sym, is_some, if◌then◌else◌,
}
use mathlib.Core.Path.{subst}
use amdtop.Base.Text.{Bytes}
use amdtop.Core.Debug.{AmdGpuRing, Scan, amd_gpu_ring_info}
use amdtop.Core.Debug.Directory.{ring_names, Fit, amd_gpu_ring_info-Lists}
use amdtop.Core.Debug.Fences.{amd_gpu_query_fence_info}
use amdtop.Tui.Device.{Device}
use amdtop.Tui.World
use amdtop.Tui.World.{
  WinType, World, Env, Cmd, History, Text, default, ◌>>◌, checked, call, crash, get_win,
  get_active_device,
}
use amdtop.Tui.Screen.{mvwprintwc}
use amdtop.Tui.Rings.Drawing.{Ends, Does, then-lem, call-lem, Does-mvwprintw2c}
use amdtop.Tui.Fences.{
  DebugFs, FencePage, max_ring_count, keep_rings, fetch_rings, get_ring_info, print_fences,
  print_ring, print_rings, print_heads, update_fence_info, tab_fence_info_update, show_rings,
  refuse, tab_fence_info_init,
}

module _ (env : Env) (fs : DebugFs) where
  -- The fence file of a card can always be opened.
  unfoldable pub Opens : ℕ → Type 0
  Opens g = (h : History) → is_some (fs.fences h g) ≡ true

  Ends-print_fences :
      (n : Option ℕ) (line x : ℕ) (name : Bytes) (o : Option (List Bytes)) (w : World)
      → is_some o ≡ true
      → w.fault ≡ false
      → Ends false (print_fences env fs n line x (amd_gpu_query_fence_info name o) w)
  unfolding print_fences Does Ends amd_gpu_query_fence_info
  Ends-print_fences n line x name none w h e = cc
  Ends-print_fences n line x name (some ls) w h e = Does-mvwprintw2c env n line x _ _ w e

  Does-print_ring :
      (n : Option ℕ) (g line x : ℕ) (r : AmdGpuRing)
      → Opens g
      → Does false (print_ring env fs n g line x r)
  unfolding print_ring Does Opens
  Does-print_ring n g line x r opens w e =
      Ends-print_fences n line x r.shortname (fs.fences w.log g)
        (record w { log = World.Call.query "fence info" g ∷ w.log }) (opens w.log) e

  Does-print_rings :
      (n : Option ℕ) (g line x : ℕ) (rs : List AmdGpuRing)
      → Opens g
      → Does false (print_rings env fs n g line x rs)
  unfolding print_rings Does Ends
  Does-print_rings n g line x [] opens w e = (refl, e)
  Does-print_rings n g line x (r ∷ rs) opens w e =
      then-lem false false (print_ring env fs n g line x r) (print_rings env fs n g (line + 1) x rs)
        (Does-print_ring n g line x r opens) (Does-print_rings n g (line + 1) x rs opens) w e

  Does-print_heads : (n : Option ℕ) (line x : ℕ) → Does false (print_heads env fs n line x)
  unfolding Does Ends print_heads mvwprintwc ◌>>◌ call
  Does-print_heads n line x w e = (refl, e)

  Ends-then : (r : ℤ × World) (k : Cmd) → Ends false r → Does false k → Ends false (checked r k)
  unfolding Does Ends
  Ends-then (pos zero, w) k (r, e) f = f w e
  Ends-then (pos (suc n), w) k (r, e) f = cc
  Ends-then (negsuc n, w) k (r, e) f = cc

  Ends-update_fence_info :
      (t : WinType) (p : FencePage) (w : World) (d : Device)
      → Opens p.device
      → get_active_device w ≡ some d
      → w.fault ≡ false
      → Ends false (update_fence_info env fs t p w)
  unfolding update_fence_info Does
  Ends-update_fence_info t p w d opens a e =
      let v = get_win t w in
      let x = v.layout.width / 20 in
      let draw =
        print_heads env fs v.nwin 2 x >> print_rings env fs v.nwin p.device 3 x p.gpu_rings in
      subst (λ o. Ends false (elim o as (λ o. ℤ × World) [ none ↦ crash w | some d ↦ draw w ]))
        (sym a)
        (then-lem false false (print_heads env fs v.nwin 2 x)
          (print_rings env fs v.nwin p.device 3 x p.gpu_rings) (Does-print_heads v.nwin 2 x)
          (Does-print_rings v.nwin p.device 3 x p.gpu_rings opens) w e)

  fault-update :
      (t : WinType) (p : FencePage) (w : World) (d : Device)
      → Opens p.device
      → get_active_device w ≡ some d
      → w.fault ≡ false
      → (tab_fence_info_update env fs t p w).2.fault ≡ false
  unfolding tab_fence_info_update Ends ◌>>◌
  fault-update t p w d opens a e =
      (Ends-then (update_fence_info env fs t p w) (call (World.Call.wrefresh (get_win t w).nwin))
        (Ends-update_fence_info t p w d opens a e) (call-lem _)).1

  -- What is shown of a directory that was read.
  fault-shown :
      (t : WinType) (g : ℕ) (s : Scan) (p : FencePage) (w : World) (d : Device)
      → Opens g
      → get_active_device w ≡ some d
      → w.fault ≡ false
      → (show_rings env fs t (keep_rings g (some s) p w)).2.fault ≡ s.fault
  unfolding show_rings keep_rings crash
  fault-shown t g s p w d opens a e = step s.fault
    where
      kept : FencePage
      kept = record p { gpu_rings = s.rings; ring_count = s.ring_num; device = g }

      step :
          (b : Bool)
          → (show_rings env fs t
              (if b then (negsuc 0, p, (crash w).1) else (pos 0, kept, w))).2.fault
            ≡ b
      step true = refl
      step false = fault-update t kept w d opens a e

  same_device :
      (w : World) (l : History) → get_active_device (record w { log = l }) ≡ get_active_device w
  unfolding get_active_device
  same_device w l = refl

  get_ring_info-some :
      (p : FencePage) (w : World) (d : Device) (g : ℕ)
      → get_active_device w ≡ some d
      → d.gpu_device ≡ some g
      → get_ring_info env fs p w ≡ fetch_rings env fs (some g) p w
  unfolding get_ring_info
  get_ring_info-some p w d g a handle =
      ap
        (λ o. elim o as (λ o. ℤ × FencePage × World) [
          | none ↦ (pos 0, p, w)
          | some d ↦ fetch_rings env fs d.gpu_device p w
        ])
        a
      ∙ ap (λ o. fetch_rings env fs o p w) handle

  -- For root, a card with a handle, a directory of rings whose names fit their buffers, and a fence file
  -- that can always be opened: showing the fence page in a state in which no memory fault has occurred
  -- ends in one exactly when the card has more than twenty rings.
  pub fault-tab_fence_info_init :
      (t : WinType) (p : FencePage) (w : World) (d : Device) (g : ℕ) (es : List Bytes)
      → fs.is_root w.log ≡ true
      → get_active_device w ≡ some d
      → d.gpu_device ≡ some g
      → fs.entries (World.Call.query "geteuid" 0 ∷ w.log) g ≡ some es
      → Fit (ring_names es)
      → Opens g
      → w.fault ≡ false
      → (tab_fence_info_init env fs t p w).2.fault ≡ ltb max_ring_count (length (ring_names es))
  unfolding tab_fence_info_init fetch_rings
  fault-tab_fence_info_init t p w d g es root a handle entries fit opens e =
      let (s, found, lists) = amd_gpu_ring_info-Lists max_ring_count es fit in
      let w₁ : World = record w { log = World.Call.query "geteuid" 0 ∷ w.log } in
      let w₂ : World = record w₁ { log = World.Call.query "ring info" g ∷ w₁.log } in
      ap
        (λ b.
          (if b
            then show_rings env fs t (get_ring_info env fs p w₁)
            else refuse env fs t p w₁).2.fault)
        root
      ∙ (ap (λ r. (show_rings env fs t r).2.fault)
            (get_ring_info-some p w₁ d g (same_device w w₁.log ∙ a) handle
              ∙ ap (λ o. keep_rings g (amd_gpu_ring_info o (some max_ring_count)) p w₂) entries
              ∙ ap (λ o. keep_rings g o p w₂) found)
          ∙ (fault-shown t g s p w₂ d opens (same_device w w₂.log ∙ a) e ∙ lists.fault))
