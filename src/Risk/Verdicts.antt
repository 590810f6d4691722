-- ===== src/Risk/Verdicts.antt =====
-- When the risk engine lets a signal pass.
use botbtc.Prelude.{pos, ◌<ℤ◌, ◌≡◌, ◌≢◌, ◌↔◌, true, false, String, arith, eq_iff}
use botbtc.Risk.{Engine, allowed, maybe_reset_daily, reset_daily, evaluate_signal}

module _ {F : Type 0} where
  -- The engine's last trade was on another day than `today`.
  abbrev pub IsStale : String → Engine F → Type 0
  IsStale today e = (e.last_trade_date ≢ "") × (e.last_trade_date ≢ today)

  -- What a day's counters allow, the day and the position left aside.
  abbrev pub IsOpenToday : Engine F → Type 0
  IsOpenToday e = (e.trading_enabled ≡ true) × (e.daily_trade_count <ℤ e.cfg.max_daily_trades)

  -- A signal on the day of the last trade (or before the first trade) is allowed exactly when the
  -- kill switch is off, trading is enabled, the day's trades are below the limit and no position is
  -- open; the engine is left as it was.
  evaluate_signal_same_day :
      (today : String) (e : Engine F)
      → ¬ IsStale today e
      → ((evaluate_signal today e).0 ≡ e)
        × (((evaluate_signal today e).1 ≡ allowed)
            ↔ ((e.kill_switch_active ≡ false) × IsOpenToday e × (e.has_open_position ≡ false)))
  unfolding evaluate_signal maybe_reset_daily
  evaluate_signal_same_day today e h =
      ground (arith, eq_iff e.last_trade_date "", eq_iff e.last_trade_date today)

  -- The first signal of a new day is judged with the counters at zero: it is allowed exactly when the
  -- kill switch is off, no position is open and the limit of trades is positive.
  evaluate_signal_new_day :
      (today : String) (e : Engine F)
      → IsStale today e
      → ((evaluate_signal today e).0 ≡ reset_daily today e)
        × (((evaluate_signal today e).1 ≡ allowed) ↔ (
            (e.kill_switch_active ≡ false)
            × (pos 0 <ℤ e.cfg.max_daily_trades)
            × (e.has_open_position ≡ false)))
  unfolding evaluate_signal maybe_reset_daily
  evaluate_signal_new_day today e h =
      ground (arith, eq_iff e.last_trade_date "", eq_iff e.last_trade_date today)
