-- ===== src/Core/Ioctl/Retry.antt =====
-- How often gpuIoctl repeats an ioctl, and what it returns (core/drmhelper.c).
use amdtop.Base.{ℕ, zero, suc, ◌+◌, ◌<◌, ◌≡◌, true, false, some, arith, refl, ap, sym, ◌∙◌}
use amdtop.Core.Ioctl.{Answer, is_interrupted, gpu_ioctl}

module _ (io : ℕ → Answer) where
  again :
      (k at : ℕ) → is_interrupted (io at) ≡ true → gpu_ioctl io (suc k) at ≡ gpu_ioctl io k (suc at)
  unfolding gpu_ioctl
  again k at e = simp e refl

  done :
      (k at : ℕ)
      → is_interrupted (io at) ≡ false
      → gpu_ioctl io (suc k) at ≡ some ((io at).ret, suc at)
  unfolding gpu_ioctl
  done k at e = simp e refl

-- When the first n calls of ioctl are interrupted and the call after them is not, gpuIoctl returns
-- the result of that call and makes no further one, as soon as it may take more than n rounds.
pub gpu_ioctl-first :
    (io : ℕ → Answer) (n at rounds : ℕ)
    → ((i : ℕ) → i < n → is_interrupted (io (i + at)) ≡ true)
    → is_interrupted (io (n + at)) ≡ false
    → n < rounds
    → gpu_ioctl io rounds at ≡ some ((io (n + at)).ret, suc (n + at))
gpu_ioctl-first io n at zero busy free more = elim (no_room more) [ ]
  where
    no_room : n < 0 → 0 < 0
    no_room l = omega arith
gpu_ioctl-first io zero at (suc k) busy free more =
    let here : 0 + at ≡ at = omega arith in
    done io k at (ap (λ j. is_interrupted (io j)) (sym here) ∙ free)
    ∙ ap (λ j. some ((io j).ret, suc j)) (sym here)
gpu_ioctl-first io (suc n) at (suc k) busy free more =
    let shift : (i : ℕ) → i + suc at ≡ suc i + at = λ i. omega arith in
    let here : at ≡ 0 + at = omega arith in
    again io k at (ap (λ j. is_interrupted (io j)) here ∙ busy 0 (omega arith))
    ∙ gpu_ioctl-first io n (suc at) k
        (λ i l. ap (λ j. is_interrupted (io j)) (shift i) ∙ busy (suc i) (omega arith))
        (ap (λ j. is_interrupted (io j)) (shift n) ∙ free) (omega arith)
    ∙ ap (λ j. some ((io j).ret, suc j)) (shift n)
