-- ===== src/Detect/Float.antt =====
-- Python's float, as the detectors of src/app/detectors use it: operations, and no laws.
use sentraxis.Prelude.{ℕ, Bool, if◌then◌else◌}

pub record Float : Type 1 where
  pub F : Type 0
  -- A number of ten-thousandths, and the float of a whole number.
  pub lit : ℕ → F
  pub of_nat : ℕ → F
  pub add : F → F → F
  pub sub : F → F → F
  pub mul : F → F → F
  pub div : F → F → F
  pub sqrt : F → F
  pub lt : F → F → Bool
  pub le : F → F → Bool
  pub infinity : F
  -- 1e-9
  pub tiny : F
  -- `round` to a number of places
  pub round_to : ℕ → F → F

module _ (fl : Float) where
  open fl use {F, lt}

  -- Python's `min` and `max` of two values keep the first unless the second is strictly better.
  unfoldable pub min_of : F → F → F
  min_of a b = if lt b a then b else a

  unfoldable pub max_of : F → F → F
  max_of a b = if lt a b then b else a
