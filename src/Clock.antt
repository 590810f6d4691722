-- ===== src/Clock.antt =====
-- server/internal/timeutil/clock.go: milliseconds since the epoch. `now_ms` is time.Now().UnixMilli() over
-- a state of the outside.
use botbtc.Prelude.{ℤ, sub64, ltb_ℤ, Bool}

module _ {E : Type 0} (now_ms : E → ℤ × E) where
  -- `ElapsedMs`
  unfoldable pub elapsed_ms : (start_ms : ℤ) → E → ℤ × E
  elapsed_ms start_ms e = let (now, e') = now_ms e in (sub64 now start_ms, e')

  -- `IsExpired`
  unfoldable pub is_expired : (timestamp_ms max_age_ms : ℤ) → E → Bool × E
  unfolding elapsed_ms
  is_expired timestamp_ms max_age_ms e =
      let (elapsed, e') = elapsed_ms timestamp_ms e in (ltb_ℤ max_age_ms elapsed, e')
