-- ===== src/Attention/Float.antt =====
-- Rust's `f32`, as the operations that src/attention uses. Nothing is assumed of them here; what a
-- theorem needs of the arithmetic it states as a hypothesis.
use subspace_daemon.Base.{Bool}

pub record Float : Type 1 where
  pub F : Type 0
  pub zero_f : F
  pub one_f : F
  pub add : F → F → F
  pub mul : F → F → F
  pub div : F → F → F
  pub sqrt : F → F
  -- `a == b`, `a >= b` and `a < b`; all of them are false if one side is not a number
  pub eq_f : F → F → Bool
  pub ge_f : F → F → Bool
  pub lt_f : F → F → Bool
