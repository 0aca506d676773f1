-- ===== src/Tui/Rings.antt =====
-- tui/ringinfo.c: the numbers of rings and instances on the ring page.
-- The two queries of core/gpuinfo.c are a parameter.
pub mod Count
pub mod Page
pub mod Drawing
pub mod Room
use amdtop.Base.{
  ℕ, zero, suc, ◌+◌, ◌*◌, ◌/◌, ◌%◌, ◌^◌, ◌==◌, Bool, true, false, Option, none, some, List, [], ◌∷◌,
  ◌||◌, ℤ, pos, negsuc, ltb, leb, is_zero, length, if◌then◌else◌, u32_mod,
}
use amdtop.Tui.Bar.{min}
use amdtop.Tui.World
use amdtop.Tui.World.{
  World, Env, Cmd, History, Text, lit, fmt, default, ◌>>◌, ◌>>=◌, call, crash, return,
  get_active_device,
}
use amdtop.Tui.Screen.{mvwprintwc, mvwprintw2c}
use Prim.Native.String.{String}

-- `rings & (1 << i)`
abbrev pub has_ring : ℕ → ℕ → Bool
has_ring rings i = if rings / 2 ^ i % 2 == 0 then false else true

-- The loop of `calc_ring_count` from bit `i` on, for `k` rounds.
unfoldable pub ring_loop : (rings k i count : ℕ) → ℕ
ring_loop rings zero i count = count
ring_loop rings (suc k) i count =
    ring_loop rings k (suc i) (if has_ring rings i then (count + 1) % u32_mod else count)

-- `calc_ring_count`
unfoldable pub calc_ring_count : ℕ → ℕ
unfolding ring_loop
calc_ring_count rings = ring_loop rings 32 0 0

-- `struct GpuHwIPInfo`
pub record HwIpInfo : Type 0 where
  pub inst : ℕ
  pub version_major : ℕ
  pub version_minor : ℕ
  pub capabilities : ℕ
  pub ib_start_alignment : ℕ
  pub ib_size_alignment : ℕ
  pub available_rings : ℕ

-- `struct ip_info`; `hw_ip_infos` has MAX_IP_INSTANCE elements.
pub record IpInfo : Type 0 where
  pub name : String
  pub ip_type : ℕ
  pub count : ℕ
  pub hw_ip_infos : List HwIpInfo

abbrev pub max_ip_instance : ℕ
max_ip_instance = 4

abbrev blank : HwIpInfo
blank = record {
  inst = 0;
  version_major = 0;
  version_minor = 0;
  capabilities = 0;
  ib_start_alignment = 0;
  ib_size_alignment = 0;
  available_rings = 0;
}

abbrev ip : String → ℕ → IpInfo
ip name t = record {
  name = name;
  ip_type = t;
  count = 0;
  hw_ip_infos = blank ∷ blank ∷ blank ∷ blank ∷ [];
}

-- `ipinfos`, as the program starts
abbrev pub ipinfos : List IpInfo
ipinfos =
    ip "GFX" 0
    ∷ ip "COMP" 1
    ∷ ip "DMA" 2
    ∷ ip "UVD" 3
    ∷ ip "VCE" 4
    ∷ ip "UVD_ENC" 5
    ∷ ip "VCN_DEC" 6
    ∷ ip "VCN_ENC" 7
    ∷ ip "VCN_JPEG" 7
    ∷ []

-- `gpuQueryHwIpCount` and `gpuQueryHwIpInfo`: the result and what they write.
pub record IpQueries : Type 0 where
  pub hw_ip_count : History → ℕ → ℤ × ℕ
  pub hw_ip_info : History → (type inst : ℕ) → ℤ × HwIpInfo

abbrev set_at : ℕ → HwIpInfo → List HwIpInfo → List HwIpInfo
set_at i x [] = []
set_at zero x (y ∷ ys) = x ∷ ys
set_at (suc i) x (y ∷ ys) = y ∷ set_at i x ys

module _ (q : IpQueries) where
  -- The inner loop of `getRingInfo` from instance `j` on.
  unfoldable pub fetch_infos :
      (type rounds j : ℕ) → List HwIpInfo → World → ℤ × List HwIpInfo × World
  fetch_infos t zero j infos w = (pos 0, infos, w)
  fetch_infos t (suc k) j infos w =
      let (ret, info) = q.hw_ip_info w.log t j in
      let w' = record w { log = World.Call.query "hw ip info" t ∷ w.log } in
      let rest = fetch_infos t k (suc j) (set_at j info infos) w' in
      if is_zero ret then rest else (ret, infos, w')

  -- A round of the outer loop of `getRingInfo`.
  unfoldable pub fetch : IpInfo → World → ℤ × IpInfo × World
  unfolding fetch_infos
  fetch p w =
      let (ret, count) = q.hw_ip_count w.log p.ip_type in
      let w' = record w { log = World.Call.query "hw ip count" p.ip_type ∷ w.log } in
      let (ret', infos, w'') =
        fetch_infos p.ip_type (min count max_ip_instance) 0 p.hw_ip_infos w' in
      if is_zero ret
      then (ret', record p { count = count; hw_ip_infos = infos }, w'')
      else (ret, p, w')

  unfoldable pub fetch_all : List IpInfo → World → ℤ × List IpInfo × World
  unfolding fetch
  fetch_all [] w = (pos 0, [], w)
  fetch_all (p ∷ ps) w =
      let (ret, p', w') = fetch p w in
      let (ret', ps', w'') = fetch_all ps w' in
      if is_zero ret then (ret', p' ∷ ps', w'') else (ret, p' ∷ ps, w')

  -- `getRingInfo`; `current_device` is never set, and NULL. Without a handle, a NULL pointer is followed.
  unfoldable pub get_ring_info : List IpInfo → World → ℤ × List IpInfo × World
  unfolding fetch_all
  get_ring_info ps w = elim (get_active_device w) as (λ o. ℤ × List IpInfo × World) [
    | none ↦ (pos 0, ps, w)
    | some d ↦ elim d.gpu_device as (λ o. ℤ × List IpInfo × World) [
      | none ↦ (negsuc 0, ps, (crash w).1)
      | some g ↦ fetch_all ps w
    ]
  ]
