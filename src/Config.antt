-- ===== src/Config.antt =====
-- src/config/index.ts and src/config/schema.ts: the quota policy that the instance config resolves
-- to, and the maxima of its rolling windows. A window multiplier, a positive number, is a fraction,
-- and the product is exact.
use clawclub_server.Common.{ℕ, ◌+◌, ◌-◌, ◌*◌, ◌/◌, ◌≤◌, ◌<◌, arith}

pub record Fraction : Type 0 where
  pub numerator : ℕ
  pub denominator : ℕ

-- A value for each of the windows 'day', 'week' and 'month'.
pub record PerWindow : Type 0 where
  pub day : ℕ
  pub week : ℕ
  pub month : ℕ

pub record WindowMultipliers : Type 0 where
  pub week : Fraction
  pub month : Fraction

pub record RoleMultipliers : Type 0 where
  pub member : ℕ
  pub clubadmin : ℕ
  pub club_owner : ℕ

-- Math.ceil(n * f)
unfoldable pub ceil_times : ℕ → Fraction → ℕ
ceil_times n f = (n * f.numerator + (f.denominator - 1)) / f.denominator

unfoldable pub derive_quota_window_maxes : ℕ → WindowMultipliers → PerWindow
unfolding ceil_times
derive_quota_window_maxes daily_max m = record {
  day = daily_max;
  week = ceil_times daily_max m.week;
  month = ceil_times daily_max m.month;
}

-- The rounding loses nothing: the maximum of a window is at least the product.
pub le-ceil_times :
    (n : ℕ) (f : Fraction) → 0 < f.denominator → n * f.numerator ≤ ceil_times n f * f.denominator
unfolding ceil_times
le-ceil_times n f h = grind arith
