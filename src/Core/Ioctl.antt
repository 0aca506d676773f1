-- ===== src/Core/Ioctl.antt =====
-- core/drmhelper.c: the ioctl that is repeated while it is interrupted.
-- The answers of ioctl are a parameter, numbered from the first call on.
pub mod Retry
use amdtop.Base.{
  ℕ, zero, suc, Bool, true, false, ◌||◌, ◌==◌, Option, none, some, ℤ, pos, negsuc, if◌then◌else◌,
}

-- What a call of ioctl returns, and the `errno` that it leaves.
pub record Answer : Type 0 where
  pub ret : ℤ
  pub errno : ℕ

abbrev eintr : ℕ
eintr = 4

abbrev eagain_code : ℕ
eagain_code = 11

abbrev is_minus_one : ℤ → Bool
is_minus_one (pos n) = false
is_minus_one (negsuc n) = n == 0

-- The condition of the loop.
unfoldable pub is_interrupted : Answer → Bool
is_interrupted a =
    if is_minus_one a.ret then (a.errno == eintr) || (a.errno == eagain_code) else false

-- `gpuIoctl` from the call `at` on, for at most `rounds` rounds, with the number of the call after
-- its last one.
unfoldable pub gpu_ioctl : (ℕ → Answer) → (rounds at : ℕ) → Option (ℤ × ℕ)
unfolding is_interrupted
gpu_ioctl io zero at = none
gpu_ioctl io (suc k) at =
    let again = gpu_ioctl io k (suc at) in
    if is_interrupted (io at) then again else some ((io at).ret, suc at)
