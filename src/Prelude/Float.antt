-- ===== src/Prelude/Float.antt =====
-- The float64 operations that the code uses, as an interface: no law is assumed of them.
use docker_net_doctor.Prelude.{ℕ, Bool}
use docker_net_doctor.Prelude.Int.{ℤ}

pub record Float64 : Type 1 where
  pub Float : Type 0
  pub of_int : ℤ → Float  -- float64(n)
  pub decimal : ℕ → ℕ → Float  -- the literal n / 10^k
  pub sub : Float → Float → Float
  pub add : Float → Float → Float
  pub mul : Float → Float → Float
  pub div : Float → Float → Float
  pub lt : Float → Float → Bool  -- a < b, false on a NaN
  pub le : Float → Float → Bool
  pub to_seconds : ℤ → Float  -- d.Seconds() of a duration
  pub pow : Float → Float → Float  -- math.Pow
  pub to_int : Float → ℤ  -- int64(x), which truncates
