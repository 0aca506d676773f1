-- ===== src/Tui/Rings/Room.antt =====
-- The array of the instances on the ring page (tui/ringinfo.c).
use amdtop.Base.{
  ℕ, zero, suc, ◌+◌, ◌/◌, ◌≡◌, Bool, true, false, ◌||◌, ◌&&◌, ◌*◌, Option, List, [], ◌∷◌, ℤ, ltb,
  if◌then◌else◌, is_zero, length, refl, ap, ◌∙◌, inl, inr, sym, none, some, Bool-cases,
  Option-cases,
}
use amdtop.Tui.Bar.{min}
use amdtop.Tui.World
use amdtop.Tui.World.{
  WinType, World, Env, Cmd, Text, default, ◌>>◌, ◌>>=◌, call, crash, return, checked, when, get_win,
  get_active_device,
}
use amdtop.Tui.Rings.{
  HwIpInfo, IpInfo, IpQueries, get_ring_info, fetch, fetch_all, fetch_infos, set_at,
  max_ip_instance,
}
use amdtop.Tui.Rings.Page.{print_ip, print_ips, tab_ring_info_init}
use amdtop.Tui.Rings.Drawing.{Ends, Does, then-lem, call-lem, Does-print_ip}

-- Every array of the table has its four elements.
unfoldable pub Sized : List IpInfo → Type 0
Sized [] = zero ≡ zero
Sized (p ∷ ps) = (length p.hw_ip_infos ≡ max_ip_instance) × Sized ps

-- Some entry of the table counts more instances than its array holds.
unfoldable pub overflows : List IpInfo → Bool
overflows [] = false
overflows (p ∷ ps) = ltb max_ip_instance p.count || overflows ps

-- There is an active device, and it is not opened.
unfoldable pub no_handle : World → Bool
no_handle w = elim (get_active_device w) [
  | none ↦ false
  | some d ↦ elim d.gpu_device [ none ↦ true | some g ↦ false ]
]

module _ (q : IpQueries) where
  length-set_at : (i : ℕ) (x : HwIpInfo) (xs : List HwIpInfo) → length (set_at i x xs) ≡ length xs
  length-set_at i x [] = refl
  length-set_at zero x (y ∷ ys) = refl
  length-set_at (suc i) x (y ∷ ys) = ap suc (length-set_at i x ys)

  length-fetch_infos :
      (t k j : ℕ) (infos : List HwIpInfo) (w : World)
      → length (fetch_infos q t k j infos w).1 ≡ length infos
  unfolding fetch_infos
  length-fetch_infos t zero j infos w = refl
  length-fetch_infos t (suc k) j infos w =
      let (ret, info) = q.hw_ip_info w.log t j in
      let w' = record w { log = World.Call.query "hw ip info" t ∷ w.log } in
      elim (Bool-cases (is_zero ret)) [
        | inl e ↦
            simp e
              (length-fetch_infos t k (suc j) (set_at j info infos) w' ∙ length-set_at j info infos)
        | inr e ↦ simp e refl
      ]

  length-fetch :
      (p : IpInfo) (w : World) → length (fetch q p w).1.hw_ip_infos ≡ length p.hw_ip_infos
  unfolding fetch
  length-fetch p w =
      let (ret, count) = q.hw_ip_count w.log p.ip_type in
      let w' = record w { log = World.Call.query "hw ip count" p.ip_type ∷ w.log } in
      elim (Bool-cases (is_zero ret)) [
        | inl e ↦
            simp e (length-fetch_infos p.ip_type (min count max_ip_instance) 0 p.hw_ip_infos w')
        | inr e ↦ simp e refl
      ]

  Sized-fetch_all : (ps : List IpInfo) (w : World) → Sized ps → Sized (fetch_all q ps w).1
  unfolding fetch_all Sized
  Sized-fetch_all [] w s = s
  Sized-fetch_all (p ∷ ps) w (here, there) =
      step (is_zero (fetch q p w).0) (Sized-fetch_all ps (fetch q p w).2 there)
    where
      w' : World
      w' = (fetch q p w).2

      outcome : Bool → ℤ × List IpInfo × World
      outcome b =
          if b
          then (
            (fetch_all q ps w').0,
            (fetch q p w).1 ∷ (fetch_all q ps w').1,
            (fetch_all q ps w').2,
          )
          else ((fetch q p w).0, (fetch q p w).1 ∷ ps, w')

      step : (b : Bool) → Sized (fetch_all q ps w').1 → Sized (outcome b).1
      step true rest = (length-fetch p w ∙ here, rest)
      step false rest = (length-fetch p w ∙ here, there)

  Sized-get_ring_info : (ps : List IpInfo) (w : World) → Sized ps → Sized (get_ring_info q ps w).1
  unfolding get_ring_info
  Sized-get_ring_info ps w s = elim (Option-cases (get_active_device w)) [
    | inl e ↦ rw (e, get_ring_info) s
    | inr (d, e) ↦ elim (Option-cases d.gpu_device) [
      | inl f ↦ rw (e, get_ring_info, f) s
      | inr (g, f) ↦ rw (e, get_ring_info, f) (Sized-fetch_all ps w s)
    ]
  ]

  fault-fetch_infos :
      (t k j : ℕ) (infos : List HwIpInfo) (w : World)
      → (fetch_infos q t k j infos w).2.fault ≡ w.fault
  unfolding fetch_infos
  fault-fetch_infos t zero j infos w = refl
  fault-fetch_infos t (suc k) j infos w =
      let (ret, info) = q.hw_ip_info w.log t j in
      let w' = record w { log = World.Call.query "hw ip info" t ∷ w.log } in
      let rest = fault-fetch_infos t k (suc j) (set_at j info infos) w' in
      elim (Bool-cases (is_zero ret)) [ inl e ↦ simp e rest | inr e ↦ simp e refl ]

  fault-fetch : (p : IpInfo) (w : World) → (fetch q p w).2.fault ≡ w.fault
  unfolding fetch
  fault-fetch p w =
      let (ret, count) = q.hw_ip_count w.log p.ip_type in
      let w' = record w { log = World.Call.query "hw ip count" p.ip_type ∷ w.log } in
      let rest = fault-fetch_infos p.ip_type (min count max_ip_instance) 0 p.hw_ip_infos w' in
      elim (Bool-cases (is_zero ret)) [ inl e ↦ simp e rest | inr e ↦ simp e refl ]

  fault-fetch_all : (ps : List IpInfo) (w : World) → (fetch_all q ps w).2.fault ≡ w.fault
  unfolding fetch_all
  fault-fetch_all [] w = refl
  fault-fetch_all (p ∷ ps) w =
      let w' = (fetch q p w).2 in
      let rest = fault-fetch_all ps w' ∙ fault-fetch p w in
      elim (Bool-cases (is_zero (fetch q p w).0)) [
        | inl e ↦ simp e rest
        | inr e ↦ simp e (fault-fetch p w)
      ]

  fault-get_ring_info :
      (ps : List IpInfo) (w : World)
      → w.fault ≡ false
      → (get_ring_info q ps w).2.fault ≡ no_handle w
  unfolding get_ring_info no_handle crash
  fault-get_ring_info ps w z = elim (Option-cases (get_active_device w)) [
    | inl e ↦ rw (e, get_ring_info, no_handle) z
    | inr (d, e) ↦ elim (Option-cases d.gpu_device) [
      | inl f ↦ rw (e, get_ring_info, no_handle, f) refl
      | inr (g, f) ↦ rw (e, get_ring_info, no_handle, f) (fault-fetch_all ps w ∙ z)
    ]
  ]

  -- Without a handle the query does not succeed.
  handle-get_ring_info :
      (ps : List IpInfo) (w : World) → is_zero (get_ring_info q ps w).0 ≡ true → no_handle w ≡ false
  unfolding get_ring_info no_handle
  handle-get_ring_info ps w z = elim (Option-cases (get_active_device w)) [
    | inl e ↦ rw (e, no_handle) refl
    | inr (d, e) ↦ elim (Option-cases d.gpu_device) [
      | inl f ↦ let failed : false ≡ true = rw (e, get_ring_info, f) at z in cc
      | inr (g, f) ↦ rw (e, no_handle, f) refl
    ]
  ]

module _ (env : Env) where
  Does-print_ips :
      (n : Option ℕ) (line x : ℕ) (ps : List IpInfo)
      → Sized ps
      → Does (overflows ps) (print_ips env n line x ps)
  unfolding print_ips overflows Sized Does Ends
  Does-print_ips n line x [] s w e = (refl, e)
  Does-print_ips n line x (p ∷ ps) (here, there) w e =
      then-lem _ _ (print_ip env n line x p) (print_ips env n (line + 1 + 3 * p.count) x ps)
        (Does-print_ip env n line x p here) (Does-print_ips n (line + 1 + 3 * p.count) x ps there) w
        e

-- On a table whose arrays have four elements each, and in a state in which nothing has crashed, showing the
-- ring page crashes exactly when the active device has no handle, or when all queries succeed and some
-- kind of ring has more than four instances, whose array it then reads behind its end.
pub fault-tab_ring_info_init :
    (env : Env) (q : IpQueries) (t : WinType) (ps : List IpInfo) (w : World)
    → Sized ps
    → w.fault ≡ false
    → (tab_ring_info_init env q t ps w).2.fault ≡ (
        no_handle w
        || (is_zero (get_ring_info q ps w).0 && overflows (tab_ring_info_init env q t ps w).1))
unfolding tab_ring_info_init Does Ends
fault-tab_ring_info_init env q t ps w sized e =
    step (is_zero (get_ring_info q ps w).0) (handle-get_ring_info q ps w)
  where
    ps' : List IpInfo
    ps' = (get_ring_info q ps w).1

    w' : World
    w' = (get_ring_info q ps w).2

    draw : Cmd
    draw =
        print_ips env (get_win t w').nwin 1 ((get_win t w').layout.width / 20) ps'
        >> call (World.Call.wrefresh (get_win t w').nwin)

    outcome : Bool → ℤ × List IpInfo × World
    outcome b = if b then ((draw w').0, ps', (draw w').1) else ((get_ring_info q ps w).0, ps', w')

    or_false : (b : Bool) → (b || false) ≡ b
    or_false true = refl
    or_false false = refl

    step :
        (b : Bool)
        → (b ≡ true → no_handle w ≡ false)
        → (outcome b).2.fault ≡ (no_handle w || (b && overflows (outcome b).1))
    step false there = fault-get_ring_info q ps w e ∙ sym (or_false (no_handle w))
    step true there =
        (then-lem (overflows ps') false
          (print_ips env (get_win t w').nwin 1 ((get_win t w').layout.width / 20) ps')
          (call (World.Call.wrefresh (get_win t w').nwin))
          (Does-print_ips env (get_win t w').nwin 1 ((get_win t w').layout.width / 20) ps'
            (Sized-get_ring_info q ps w sized))
          (call-lem (World.Call.wrefresh (get_win t w').nwin)) w'
          (fault-get_ring_info q ps w e ∙ there refl)).1
        ∙ or_false (overflows ps')
        ∙ ap (λ c. c || overflows ps') (sym (there refl))
