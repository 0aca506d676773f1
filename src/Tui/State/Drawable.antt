-- ===== src/Tui/State/Drawable.antt =====
-- That the state page does not crash, whatever is drawn (tui/stateinfo.c).
use amdtop.Base.{
  ℕ, zero, suc, ◌+◌, ◌*◌, ◌-◌, ◌/◌, ◌%◌, ◌^◌, ◌==◌, ◌≡◌, ◌≤◌, ◌<◌, ◌∙◌, true, false, Option, none,
  some, List, [], ◌∷◌, is_some, refl, arith, inl, inr, Bool-cases, u32_mod, u64_mod, length, ltb,
  get_elem?,
}
use amdtop.Tui.World
use amdtop.Tui.World.{WinType, World, Env, Cmd, History, ColorType, Text, get_win, call}
use amdtop.Tui.Screen.{mvwprintwc}
use amdtop.Tui.State.{
  BarType, Client, Answers, ◌>>◌, ask, draw, log_query, need_device, sys_mem, update_sensor_value,
  align, set_max,
}
use amdtop.Tui.State.Clients.{
  max_client_count, max_name_size, print_blanks, print_client, client_row, client_rows, first_of,
  show_clients, update_client_info,
}
use amdtop.Tui.State.Handlers.{set_maxima}
use amdtop.Tui.State.Safe.{
  Positive, Safe, Safe-then, Safe-need_device, Safe-ask, Safe-set_max, Safe-update_sensor_value,
}

-- What the kernel and the system say is in the range that a card has: clocks from 1 MHz on, memories from
-- 1 MiB on that a 32-bit number of MiB holds, main memory from 1 MiB on, a name for every user and at most
-- forty clients.
pub record Sane (q : Answers) : Type 0 where
  pub engine :
      (h : History)
      → (1000 ≤ (q.device_info h).1.max_engine_clock)
        × ((q.device_info h).1.max_engine_clock < 2 ^ 32)
  pub memory_clock :
      (h : History)
      → (1000 ≤ (q.device_info h).1.max_memory_clock)
        × ((q.device_info h).1.max_memory_clock < 2 ^ 32)
  pub sized :
      (h : History) (t : ℕ)
      → (2 ^ 20 ≤ (q.mem_info h t).1.total) × ((q.mem_info h t).1.total < 2 ^ 51)
  pub main_memory : (h : History) → (2 ^ 10 ≤ q.total_mem h) × (q.total_mem h < 2 ^ 32)
  pub named : (h : History) (u : ℕ) → q.has_passwd h u ≡ true
  pub few : (h : History) → length (q.clients h).1 ≤ max_client_count

module _ (env : Env) (q : Answers) (sane : Sane q) where
  pub fault-print_blanks :
      (c : ColorType) (n : Option ℕ) (y x k : ℕ) (w : World)
      → (print_blanks env q c n y x k w).fault ≡ w.fault
  unfolding print_blanks mvwprintwc World.◌>>◌ World.call
  fault-print_blanks c n y x zero w = refl
  fault-print_blanks c n y x (suc k) w =
      fault-print_blanks c n y (x + 1) k (mvwprintwc env n y x c (World.lit " ") w).1

  Safe-print_client : (n : Option ℕ) (y x i : ℕ) (c : Client) → Safe (print_client env q n y x i c)
  unfolding print_client Safe Positive mvwprintwc World.◌>>◌ World.call
  Safe-print_client n y x i c p w a e = simp (sane.named w.log c.uid) (a, e)

  Safe-client_row :
      (n : Option ℕ) (y x i : ℕ) (o : Option Client) → Safe (client_row env q n y x i o)
  unfolding client_row Safe Positive
  Safe-client_row n y x i none p w a e =
      (a, fault-print_blanks World.default n y 2 (env.getmaxx w.log n - 3 - 2) w ∙ e)
  Safe-client_row n y x i (some c) p w a e = elim (Bool-cases c.hidden) [
    | inl h ↦ simp h (a, fault-print_blanks World.default n y 2 (env.getmaxx w.log n - 3 - 2) w ∙ e)
    | inr h ↦ simp h (Safe-print_client n y x i c p w a e)
  ]

  Safe-client_rows :
      (n : Option ℕ) (y x : ℕ) (cs : List Client) (k i : ℕ) → Safe (client_rows env q n y x cs k i)
  unfolding client_rows Safe Positive
  Safe-client_rows n y x cs zero i p w a e = (a, e)
  Safe-client_rows n y x cs (suc k) i p w a e =
      Safe-then (client_row env q n (y + i) x i (get_elem? cs i))
        (client_rows env q n y x cs k (suc i)) (Safe-client_row n (y + i) x i (get_elem? cs i))
        (Safe-client_rows n y x cs k (suc i)) p w a e

  length-first_of : (n : ℕ) (cs : List Client) → length (first_of env q n cs) ≤ length cs
  unfolding first_of
  length-first_of zero cs = omega arith
  length-first_of (suc n) [] = omega arith
  length-first_of (suc n) (c ∷ cs) = let rest = length-first_of n cs in omega arith

  Safe-show_clients : (n : Option ℕ) (h : History) → Safe (show_clients env q n (q.clients h).1)
  unfolding show_clients Safe Positive
  Safe-show_clients n h p w a e =
      let cs = (q.clients h).1 in
      let room =
        not_above (length (first_of env q max_name_size cs)) (length cs)
          (length-first_of max_name_size cs) (sane.few h) in
      simp room (
        Safe-client_rows n p.ui_clients_starty (env.getmaxx w.log n / 20)
          (first_of env q max_name_size cs) p.ui_clients_count 0 p w a e)
    where
      not_above : (a b : ℕ) → a ≤ b → b ≤ max_client_count → ltb max_client_count a ≡ false
      not_above a b l m = ground arith

  Safe-clients : (n : Option ℕ) → Safe (ask "clients" 0 q.clients (show_clients env q n))
  Safe-clients n =
      Safe-ask "clients" 0 q.clients (show_clients env q n) (λ h. Safe-show_clients n h)

  pub Safe-update_client_info :
      (device n : Option ℕ) → is_some device ≡ true → Safe (update_client_info env q device n)
  unfolding update_client_info Safe Positive
  Safe-update_client_info device n there p w a e = elim (Bool-cases p.has_root_permission) [
    | inl r ↦ simp r (
        Safe-then (need_device device) (ask "clients" 0 q.clients (show_clients env q n))
          (Safe-need_device device there) (Safe-clients n) p w a e)
    | inr r ↦ simp r (a, e)
  ]

  pub Safe-wrefresh : (n : Option ℕ) → Safe (draw (call (World.Call.wrefresh n)))
  unfolding Safe Positive draw call
  Safe-wrefresh n p w a e = (a, e)

  pub Safe-refreshed :
      (device n : Option ℕ)
      → is_some device ≡ true
      → Safe (
          update_sensor_value env q device n
          >> update_client_info env q device n
          >> draw (call (World.Call.wrefresh n)))
  Safe-refreshed device n there =
      search (there, Safe-then, Safe-update_sensor_value, Safe-update_client_info, Safe-wrefresh)
        depth 6

nonzero_clock : (n : ℕ) → 1000 ≤ n → n < 2 ^ 32 → ((n / 1000 % u32_mod) == 0) ≡ false
nonzero_clock n l m = let e : 0 < n / 1000 % u32_mod = omega arith in ground arith

nonzero_size : (n : ℕ) → 2 ^ 20 ≤ n → n < 2 ^ 51 → ((n / 2 ^ 20 % u32_mod) == 0) ≡ false
nonzero_size n l m = let e : 0 < n / 2 ^ 20 % u32_mod = omega arith in ground arith

nonzero_align : (n : ℕ) → 0 < n → n < 2 ^ 31 → ((align n % u32_mod) == 0) ≡ false
unfolding align
nonzero_align n l m =
    let e : 0 < (n + 1023) % u64_mod / 1024 * 1024 % u32_mod = omega arith in ground arith

module _ (env : Env) (q : Answers) (sane : Sane q) where
  Safe-memory_max : Safe (λ p w.
      set_max sys_mem (align (q.total_mem w.log / 2 ^ 10)) p (log_query "/proc/meminfo" 0 w))
  unfolding Safe Positive
  Safe-memory_max p w a e =
      let (l, m) = sane.main_memory w.log in
      Safe-set_max sys_mem (align (q.total_mem w.log / 2 ^ 10))
        (nonzero_align (q.total_mem w.log / 2 ^ 10) (omega arith) (omega arith)) p
        (log_query "/proc/meminfo" 0 w) a e

  Safe-clock : (t : BarType) (n : ℕ) → (1000 ≤ n) × (n < 2 ^ 32) → Safe (set_max t (n / 1000))
  Safe-clock t n (l, m) = Safe-set_max t (n / 1000) (nonzero_clock n l m)

  Safe-size : (t : BarType) (n : ℕ) → (2 ^ 20 ≤ n) × (n < 2 ^ 51) → Safe (set_max t (n / 2 ^ 20))
  Safe-size t n (l, m) = Safe-set_max t (n / 2 ^ 20) (nonzero_size n l m)

  Safe-align :
      (t : BarType) (n : ℕ) → (2 ^ 20 ≤ n) × (n < 2 ^ 51) → Safe (set_max t (align (n / 2 ^ 20)))
  Safe-align t n (l, m) =
      Safe-set_max t (align (n / 2 ^ 20)) (nonzero_align (n / 2 ^ 20) (omega arith) (omega arith))

  Safe-hundred : (t : BarType) → Safe (set_max t 100)
  Safe-hundred t = Safe-set_max t 100 refl

  pub Safe-set_maxima : (device : Option ℕ) → is_some device ≡ true → Safe (set_maxima env q device)
  unfolding set_maxima
  Safe-set_maxima device there =
      search
        (
          there, Safe-need_device, Safe-then, Safe-ask, Safe-memory_max, Safe-clock, Safe-size,
          Safe-align, Safe-hundred, sane.engine, sane.memory_clock, sane.sized,
        )
        depth 30
