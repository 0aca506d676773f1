-- ===== src/Tui/Rings/Drawing.antt =====
-- How drawing on the ring page ends (tui/ringinfo.c, tui/window.c).
use amdtop.Base.{
  ℕ, zero, suc, ◌+◌, ◌≡◌, Bool, true, false, ◌||◌, ◌&&◌, Option, none, some, List, [], ◌∷◌, ℤ, pos,
  negsuc, ltb, leb, ◌==◌, get_elem?, if◌then◌else◌, length, refl, arith, ◌∙◌, inl, inr, Bool-cases,
  is_some,
}
use mathlib.Core.Path.{subst}
use amdtop.Tui.World
use amdtop.Tui.World.{
  WinType, World, Env, Cmd, Text, default, lit, ◌>>◌, ◌>>=◌, call, crash, return, checked, when,
  get_win, get_active_device,
}
use amdtop.Tui.Screen.{mvwprintwc, mvwprintw2c}
use amdtop.Tui.Rings.{HwIpInfo, IpInfo, max_ip_instance}
use amdtop.Tui.Rings.Page.{print_instance, print_at, print_instances, print_ip}

-- A command that ends well, or by a crash where `b` is true.
unfoldable pub Ends : Bool → ℤ × World → Type 0
Ends b r = (r.0 ≡ (if b then negsuc 0 else pos 0)) × (r.1.fault ≡ b)

unfoldable pub Does : Bool → Cmd → Type 0
unfolding Ends
Does b m = (w : World) → w.fault ≡ false → Ends b (m w)

same : (a b : Bool) (m : Cmd) → a ≡ b → Does a m → Does b m
same a b m e = subst (λ c. Does c m) e

pub then-lem : (a b : Bool) (m k : Cmd) → Does a m → Does b k → Does (a || b) (m >> k)
unfolding Does Ends ◌>>◌
then-lem a b m k f g w e = step a (m w) (f w e)
  where
    step : (a : Bool) (r : ℤ × World) → Ends a r → Ends (a || b) (checked r k)
    step true (pos n, w') (r, e) = cc
    step true (negsuc n, w') (r, e) = (r, e)
    step false (pos zero, w') (r, e) = g w' e
    step false (pos (suc n), w') (r, e) = cc
    step false (negsuc n, w') (r, e) = cc

read-lem :
    {A : Type 0} (b : Bool) (e : World → A) (k : A → Cmd)
    → ((a : A) → Does b (k a))
    → Does b (e >>= k)
unfolding Does Ends ◌>>=◌
read-lem b e k f w = f (e w) w

pub call-lem : (c : World.Call) → Does false (call c)
unfolding Does Ends call
call-lem c w e = (refl, e)

module _ (env : Env) where
  pub Does-mvwprintw2c :
      (n : Option ℕ) (y x : ℕ) (a b : Text) → Does false (mvwprintw2c env n y x a b)
  unfolding mvwprintw2c Does Ends ◌>>◌ ◌>>=◌ call when
  Does-mvwprintw2c n y x a b w e = elim (Bool-cases (ltb (y + 1) (env.getmaxy w.log n))) [
    | inl t ↦ rw t (refl, e)
    | inr t ↦ rw t (refl, e)
  ]

  wait-lem : (b : Bool) (m k : Cmd) → Does false m → Does b k → Does b (m >> k)
  wait-lem b m k f g = then-lem false b m k f g

  Does-print_instance :
      (n : Option ℕ) (line x : ℕ) (index : List ℕ) (h : HwIpInfo)
      → Does false (print_instance env n line x index h)
  unfolding print_instance
  Does-print_instance n line x index h = search (wait-lem, read-lem, Does-mvwprintw2c) depth 20

  -- What `print_at` does with an element of the array, if it is there.
  Does-print_at :
      (n : Option ℕ) (line x : ℕ) (index : List ℕ) (o : Option HwIpInfo)
      → Does (if is_some o then false else true) (print_at env n line x index o)
  unfolding print_at Does Ends crash
  Does-print_at n line x index none w e = (refl, refl)
  Does-print_at n line x index (some h) w e = Does-print_instance n line x index h w e

  is_some-get_elem? :
      {A : Type 0} (xs : List A) (j : ℕ)
      → (if is_some (get_elem? xs j) then false else true) ≡ leb (length xs) j
  is_some-get_elem? [] zero = refl
  is_some-get_elem? [] (suc j) = ground arith
  is_some-get_elem? (x ∷ xs) zero = ground arith
  is_some-get_elem? (x ∷ xs) (suc j) = is_some-get_elem? xs j ∙ ground arith

  print_at-leb :
      (n : Option ℕ) (line x : ℕ) (index : List ℕ) (infos : List HwIpInfo) (j : ℕ)
      → Does (leb (length infos) j) (print_at env n line x index (get_elem? infos j))
  print_at-leb n line x index infos j =
      subst (λ b. Does b (print_at env n line x index (get_elem? infos j)))
        (is_some-get_elem? infos j) (Does-print_at n line x index (get_elem? infos j))

  Does-print_instances :
      (n : Option ℕ) (line x : ℕ) (infos : List HwIpInfo) (k j : ℕ)
      → Does (ltb (length infos) (j + k) && ltb 0 k) (print_instances env n line x infos k j)
  unfolding print_instances Does Ends
  Does-print_instances n line x infos zero j w e = rw (no_rounds (length infos) j) (refl, e)
    where
      no_rounds : (l j : ℕ) → (ltb l (j + 0) && ltb 0 0) ≡ false
      no_rounds l j = ground arith
  Does-print_instances n line x infos (suc k) j w e =
      subst (λ b. Ends b (print_instances env n line x infos (suc k) j w))
        (either (length infos) j k)
        (then-lem _ _ (print_at env n line x (j ∷ []) (get_elem? infos j))
          (print_instances env n (line + 3) x infos k (suc j))
          (print_at-leb n line x (j ∷ []) infos j)
          (Does-print_instances n (line + 3) x infos k (suc j)) w e)
    where
      either :
          (l j k : ℕ)
          → (leb l j || (ltb l (suc j + k) && ltb 0 k)) ≡ (ltb l (j + suc k) && ltb 0 (suc k))
      either l j k = ground arith

  Does-inst :
      (n : Option ℕ) (y x : ℕ)
      → Does false (λ w. (pos 0, (mvwprintwc env n y x default (lit "inst(s)") w).1))
  unfolding Does Ends mvwprintwc ◌>>◌ call
  Does-inst n y x w e = (refl, e)

  Does-instances :
      (n : Option ℕ) (line x : ℕ) (p : IpInfo)
      → length p.hw_ip_infos ≡ max_ip_instance
      → Does (ltb max_ip_instance p.count) (
          if p.count == 1
          then print_at env n (line + 1) (x + 13) [] (get_elem? p.hw_ip_infos 0)
          else print_instances env n (line + 1) (x + 13) p.hw_ip_infos p.count 0)
  Does-instances n line x p l = elim (Bool-cases (p.count == 1)) [
    | inl e ↦ simp e (
        same _ _ _ (one (length p.hw_ip_infos) p.count l (is_one p.count e))
          (print_at-leb n (line + 1) (x + 13) [] p.hw_ip_infos 0))
    | inr e ↦ simp e (
        same _ _ _ (many (length p.hw_ip_infos) p.count l)
          (Does-print_instances n (line + 1) (x + 13) p.hw_ip_infos p.count 0))
  ]
    where
      is_one : (c : ℕ) → (c == 1) ≡ true → c ≡ 1
      is_one c e = ground arith

      one : (l c : ℕ) → l ≡ 4 → c ≡ 1 → leb l 0 ≡ ltb max_ip_instance c
      one l c e f = ground arith

      many : (l c : ℕ) → l ≡ 4 → (ltb l (0 + c) && ltb 0 c) ≡ ltb max_ip_instance c
      many l c e = ground arith

  pub Does-print_ip :
      (n : Option ℕ) (line x : ℕ) (p : IpInfo)
      → length p.hw_ip_infos ≡ max_ip_instance
      → Does (ltb max_ip_instance p.count) (print_ip env n line x p)
  unfolding print_ip
  Does-print_ip n line x p l =
      search (wait-lem, read-lem, Does-mvwprintw2c, Does-inst, Does-instances) depth 12
