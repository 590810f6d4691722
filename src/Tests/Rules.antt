-- ===== src/Tests/Rules.antt =====
-- The theorems on the risk engine, the strategy gate and the quantity calculator at concrete inputs.
use botbtc.Prelude.{
  ℤ, pos, ◌-ℤ◌, ◌≤ℤ◌, ◌<ℤ◌, ltb_ℤ, leb_ℤ, ◌≡◌, ◌≢◌, ◌↔◌, ◌⊎◌, refl, arith, true, false, [], ◌∷◌,
}
use botbtc.Float.Fixed.{micros_float64}
use botbtc.Risk.{
  Engine, allowed, new_engine, maybe_reset_daily, evaluate_signal, set_kill_switch, record_win,
}
use botbtc.Risk.Days.{AnyDay, traded, Run, start, later, won, trades-le-max, killed-refused}
use botbtc.Risk.History.{loss, win, replay, Summary, replay-Summary}
use botbtc.Gate.{validate}
use botbtc.Gate.Validity.{dislocation_of, validate-valid_iff}
use botbtc.Quantity.{calculate}
use botbtc.Quantity.Validity.{wanted_qty, allowed_qty, margin_of, calculate-valid_iff}
use botbtc.Bingx.{buy, sell}
use botbtc.Tests.Data.{risk_cfg, latency_cfg, orders_cfg, quantity_cfg, signal, book, dollars}

abbrev engine : Engine ℤ
engine = new_engine risk_cfg

abbrev dated : Engine ℤ
dated = record engine { last_trade_date = "2026-01-01" }

traded_once : (e : Engine ℤ) × Run AnyDay engine e
unfolding evaluate_signal maybe_reset_daily new_engine
traded_once = (_, later {asked = "2026-01-01"} {now = "2026-01-01"} start tt (traded refl))

trades-le-max_example :
    (pos 0 ≤ℤ traded_once.0.daily_trade_count) × (traded_once.0.daily_trade_count ≤ℤ pos 20)
trades-le-max_example =
    trades-le-max risk_cfg (omega arith, omega arith) (omega arith) traded_once.1

killed-refused_example :
    (evaluate_signal "2026-01-02" (record_win (set_kill_switch "manual" dated))).1 ≢ allowed
killed-refused_example =
    killed-refused dated "manual" "2026-01-02"
      (later {asked = "2026-01-01"} {now = "2026-01-01"} start tt won)

abbrev stopped_out : Engine ℤ
stopped_out = record dated { trading_enabled = false; daily_stop_loss_count = pos 3 }

replay-Summary_example :
    Summary "2026-01-01" engine.cfg
      (loss ∷ loss ∷ win ∷ [])
      (replay "2026-01-01" engine (loss ∷ loss ∷ win ∷ []))
replay-Summary_example = replay-Summary "2026-01-01" engine (loss ∷ loss ∷ win ∷ []) (omega arith)

validate-valid_iff_example :
    ((validate latency_cfg orders_cfg signal book (pos 1_000_100)).valid ≡ true) ↔ (
      (pos 1_000_100 -ℤ signal.t1_signal_ms ≤ℤ latency_cfg.max_signal_age_ms)
      × (pos 1_000_100 -ℤ book.timestamp ≤ℤ latency_cfg.max_signal_age_ms)
      × (ltb_ℤ orders_cfg.max_entry_slippage_usd (dislocation_of latency_cfg orders_cfg signal book)
          ≡ false)
      × (ltb_ℤ
            (micros_float64.add orders_cfg.max_entry_slippage_usd orders_cfg.max_exit_slippage_usd)
            (micros_float64.sub book.ask_price book.bid_price)
          ≡ false)
      × ((signal.side ≡ buy) ⊎ (signal.side ≡ sell)))
unfolding ◌-ℤ◌
validate-valid_iff_example =
    validate-valid_iff latency_cfg orders_cfg signal book (pos 1_000_100) (omega arith, omega arith)
      (omega arith, omega arith)

calculate-valid_iff_example :
    let qty = wanted_qty quantity_cfg (dollars 10_000) (dollars 1) (dollars 10) in
    ((calculate quantity_cfg
        (dollars 10_000)
        (dollars 1)
        (dollars 10)
        (dollars 50_000)
        (pos 10)).valid
      ≡ true)
    ↔ ((leb_ℤ (dollars 10) (pos 0) ≡ false)
        × (leb_ℤ (dollars 50_000) (pos 0) ≡ false)
        × (leb_ℤ (dollars 10_000) (pos 0) ≡ false)
        × (pos 0 <ℤ pos 10)
        × (ltb_ℤ qty quantity_cfg.min_qty ≡ false)
        × ((quantity_cfg.max_leverage ≤ℤ pos 0) ⊎ (pos 10 ≤ℤ quantity_cfg.max_leverage))
        × (ltb_ℤ
              (dollars 10_000)
              (margin_of quantity_cfg (allowed_qty quantity_cfg qty) (dollars 50_000) (pos 10))
            ≡ false))
calculate-valid_iff_example =
    calculate-valid_iff quantity_cfg (dollars 10_000) (dollars 1) (dollars 10) (dollars 50_000)
      (pos 10)
