-- ===== src/Tui/Rings/Page.antt =====
-- tui/ringinfo.c: drawing the ring page.
use amdtop.Base.{
  ℕ, zero, suc, ◌+◌, ◌/◌, Option, none, some, List, [], ◌∷◌, ◌++◌, ◌*◌, ℤ, pos, ◌==◌, get_elem?,
  if◌then◌else◌, is_zero, length,
}
use amdtop.Tui.World
use amdtop.Tui.World.{
  WinType, World, Env, Cmd, Text, lit, fmt, default, ◌>>◌, ◌>>=◌, call, crash, return, get_win,
}
use amdtop.Tui.Screen.{mvwprintwc, mvwprintw2c}
use amdtop.Tui.Rings.{HwIpInfo, IpInfo, IpQueries, calc_ring_count, get_ring_info}

module _ (env : Env) where
  -- The three lines on one instance; `index` is what stands before the numbers.
  unfoldable pub print_instance : Option ℕ → (line x : ℕ) → List ℕ → HwIpInfo → Cmd
  unfolding mvwprintw2c
  print_instance n line x index h = do
    mvwprintw2c env n line x (fmt "%-12s:" []) (
        if length index == 0
        then fmt " %d.%d" (h.version_major ∷ h.version_minor ∷ [])
        else fmt " [%d] %d.%d" (index ++ h.version_major ∷ h.version_minor ∷ []))
    mvwprintw2c env n (line + 1) x (fmt "%-12s:" []) (
        if length index == 0
        then fmt " %d" (calc_ring_count h.available_rings ∷ [])
        else fmt " [%d] %d" (index ++ calc_ring_count h.available_rings ∷ []))
    mvwprintw2c env n (line + 2) x (fmt "%-12s:" []) (lit " ")
    start ← λ w. env.getcurx w.log n
    mvwprintw2c env n (line + 2) start (fmt "%s :" []) (fmt " %3d" (h.ib_start_alignment ∷ []))
    size ← λ w. env.getcurx w.log n
    mvwprintw2c env n (line + 2) (size + 5) (fmt "%s :" []) (fmt " %3d" (h.ib_size_alignment ∷ []))

  -- The instance behind the last one of the array is not there.
  unfoldable pub print_at : Option ℕ → (line x : ℕ) → List ℕ → Option HwIpInfo → Cmd
  unfolding print_instance
  print_at n line x index none = crash
  print_at n line x index (some h) = print_instance n line x index h

  -- The loop over the instances, from instance `j` on.
  unfoldable pub print_instances : Option ℕ → (line x : ℕ) → List HwIpInfo → (rounds j : ℕ) → Cmd
  unfolding print_at
  print_instances n line x infos zero j w = (pos 0, w)
  print_instances n line x infos (suc k) j w =
      (print_at n line x (j ∷ []) (get_elem? infos j)
          >> print_instances n (line + 3) x infos k (suc j))
        w

  -- A round of the loop of `tabRingInfoInit`.
  unfoldable pub print_ip : Option ℕ → (line x : ℕ) → IpInfo → Cmd
  unfolding print_instances
  print_ip n line x p = do
    mvwprintw2c env n line x (fmt "%10s :" []) (fmt " %d" (p.count ∷ []))
    at ← λ w. env.getcurx w.log n
    λ w. (pos 0, (mvwprintwc env n line (at + 1) default (lit "inst(s)") w).1)
    (if p.count == 1
        then print_at n (line + 1) (x + 13) [] (get_elem? p.hw_ip_infos 0)
        else print_instances n (line + 1) (x + 13) p.hw_ip_infos p.count 0)

  unfoldable pub print_ips : Option ℕ → (line x : ℕ) → List IpInfo → Cmd
  unfolding print_ip
  print_ips n line x [] w = (pos 0, w)
  print_ips n line x (p ∷ ps) w =
      (print_ip n line x p >> print_ips n (line + 1 + 3 * p.count) x ps) w

  -- `tabRingInfoInit`, with the table that it leaves.
  unfoldable pub tab_ring_info_init :
      IpQueries → WinType → List IpInfo → World → ℤ × List IpInfo × World
  unfolding print_ips
  tab_ring_info_init q t ps w =
      let (ret, ps', w') = get_ring_info q ps w in
      let v = get_win t w' in
      let (ret', drawn) =
        (print_ips v.nwin 1 (v.layout.width / 20) ps' >> call (World.Call.wrefresh v.nwin)) w' in
      if is_zero ret then (ret', ps', drawn) else (ret, ps', w')
