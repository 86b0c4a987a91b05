-- ===== src/Runtime/Retry.antt =====
-- src/retry.rs: a delay with random jitter.
use subspace_daemon.Base.{Bool, arith, if◌then◌else◌, ℕ, ◌*◌, ◌+◌, ◌-◌, ◌≤◌}

-- The `f64` arithmetic of `jitter`: whether the ratio is at most 0, the spread
-- `(base_ms as f64 * ratio).round()`, and `(random * 2 * spread).round()` for one random number.
pub record Jitter (R : Type 0) : Type 0 where
  pub ratio_le_zero : R → Bool
  pub spread : ℕ → R → ℕ
  pub draw : ℕ → ℕ

module _ {R : Type 0} (j : Jitter R) where
  -- `(base_ms as i64 + delta).max(0)`, where `delta` is the draw less the spread
  unfoldable pub jitter : ℕ → R → ℕ
  jitter base ratio =
      if j.ratio_le_zero ratio then base else let s = j.spread base ratio in base + j.draw s - s

  -- Where a draw is at most twice the spread, the delay is within the spread of its base.
  pub jitter_bounds :
      ((s : ℕ) → j.draw s ≤ 2 * s)
      → (base : ℕ) (ratio : R)
      → (jitter base ratio ≤ base + j.spread base ratio)
        × (base ≤ jitter base ratio + j.spread base ratio)
  unfolding jitter
  jitter_bounds h base ratio = ground (arith, h (j.spread base ratio))
