-- ===== src/Gate/Validity.antt =====
-- When the gate lets a signal pass, and at what price.
use botbtc.Prelude.{
  ℤ, sub64_exact, ◌-ℤ◌, IsInt64, ◌≤ℤ◌, ◌≡◌, ◌≢◌, ◌↔◌, ◌⊎◌, true, false, none, arith, eq_iff,
}
use botbtc.Float.{Float64}
use botbtc.Config.{LatencyConfig, OrdersConfig}
use botbtc.Model.{Signal}
use botbtc.Bingx.{BookTicker, buy, sell}
use botbtc.Gate.{validate}

module _ {F : Type 0} ⦃fl : Float64 F⦄ (cfg : LatencyConfig) (orders_cfg : OrdersConfig F) where
  abbrev pub dislocation_of : Signal F → BookTicker F → F
  dislocation_of signal book =
      fl.abs (
        fl.sub signal.signal_price (fl.div (fl.add book.bid_price book.ask_price) (fl.literal 2 0)))

  -- If neither age overflows an int64, a signal is valid exactly when signal and book are no older
  -- than the limit, the signal's price is not more than the entry slippage off the middle of the
  -- book, the spread is not more than both slippages together, and the side is BUY or SELL.
  pub validate-valid_iff :
      (signal : Signal F) (book : BookTicker F) (now_ms : ℤ)
      → IsInt64 (now_ms -ℤ signal.t1_signal_ms)
      → IsInt64 (now_ms -ℤ book.timestamp)
      → ((validate cfg orders_cfg signal book now_ms).valid ≡ true) ↔ (
          (now_ms -ℤ signal.t1_signal_ms ≤ℤ cfg.max_signal_age_ms)
          × (now_ms -ℤ book.timestamp ≤ℤ cfg.max_signal_age_ms)
          × (fl.lt orders_cfg.max_entry_slippage_usd (dislocation_of signal book) ≡ false)
          × (fl.lt
                (fl.add orders_cfg.max_entry_slippage_usd orders_cfg.max_exit_slippage_usd)
                (fl.sub book.ask_price book.bid_price)
              ≡ false)
          × ((signal.side ≡ buy) ⊎ (signal.side ≡ sell)))
  unfolding validate
  validate-valid_iff signal book now_ms h k = ground (
    arith,
    sub64_exact now_ms signal.t1_signal_ms h,
    sub64_exact now_ms book.timestamp k,
    eq_iff signal.side buy,
    eq_iff signal.side sell,
  )

  -- Every result is either valid, to be entered as a maker, at the bid for BUY or at the ask for SELL,
  -- and has no reason; or it is invalid and has a reason.
  pub validate_result :
      (signal : Signal F) (book : BookTicker F) (now_ms : ℤ)
      → let res = validate cfg orders_cfg signal book now_ms in
        ((res.valid ≡ true)
          × (signal.side ≡ buy)
          × (res.suggested_entry ≡ book.bid_price)
          × (res.reject_reason ≡ none))
        ⊎ ((res.valid ≡ true)
            × (signal.side ≡ sell)
            × (res.suggested_entry ≡ book.ask_price)
            × (res.reject_reason ≡ none))
        ⊎ ((res.valid ≡ false) × (res.reject_reason ≢ none))
  unfolding validate
  validate_result signal book now_ms =
      ground (arith, eq_iff signal.side buy, eq_iff signal.side sell)
