-- ===== src/Gate.antt =====
-- server/internal/strategygate/gate.go: a signal is held against the exchange's book.
pub mod Validity
use botbtc.Prelude.{
  ℤ, pos, sub64, ltb_ℤ, Bool, true, false, Option, none, some, String, str_eq, if◌then◌else◌,
}
use botbtc.Float.{Float64, zero_f}
use botbtc.Config.{LatencyConfig, OrdersConfig}
use botbtc.Model.{Signal}
use botbtc.Bingx.{BookTicker, buy, sell}

-- The values that a reject reason is formatted from; `none` is the empty reason.
pub data RejectReason (F : Type 0) : Type 0 where
  stale_signal : (age max_age : ℤ) → RejectReason F
  stale_book : (age max_age : ℤ) → RejectReason F
  dislocated : (dislocation max_slippage signal_price mid : F) → RejectReason F
  wide_spread : (spread max_spread : F) → RejectReason F
  unknown_side : String → RejectReason F

pub record ValidationResult (F : Type 0) : Type 0 where
  pub valid : Bool
  pub reject_reason : Option (RejectReason F)
  pub bingx_bid : F
  pub bingx_ask : F
  pub bingx_spread : F
  pub price_dislocation : F
  pub signal_age_ms : ℤ
  pub suggested_entry : F

module _ {F : Type 0} ⦃fl : Float64 F⦄ where
  reject : RejectReason F → ValidationResult F → ValidationResult F
  reject why res = record res { reject_reason = some why }

  -- `Suggest entry price`, to the end
  suggest : Signal F → BookTicker F → ValidationResult F → ValidationResult F
  unfolding reject
  suggest signal book res =
      if str_eq signal.side buy
      then record res { suggested_entry = book.bid_price; valid = true }
      else if str_eq signal.side sell
      then record res { suggested_entry = book.ask_price; valid = true }
      else reject (unknown_side signal.side) res

  unfoldable pub validate :
      LatencyConfig → OrdersConfig F → Signal F → BookTicker F → ℤ → ValidationResult F
  unfolding reject suggest
  validate cfg orders_cfg signal book now_ms =
      let age = sub64 now_ms signal.t1_signal_ms in
      let res : ValidationResult F = record {
        valid = false;
        reject_reason = none;
        bingx_bid = book.bid_price;
        bingx_ask = book.ask_price;
        bingx_spread = fl.sub book.ask_price book.bid_price;
        price_dislocation = zero_f;
        signal_age_ms = age;
        suggested_entry = zero_f;
      } in
      let book_age = sub64 now_ms book.timestamp in
      let mid = fl.div (fl.add book.bid_price book.ask_price) (fl.literal 2 0) in
      let dislocation = fl.abs (fl.sub signal.signal_price mid) in
      let res' = record res { price_dislocation = dislocation } in
      let max_spread = fl.add orders_cfg.max_entry_slippage_usd orders_cfg.max_exit_slippage_usd in
      if ltb_ℤ cfg.max_signal_age_ms age
      then reject (stale_signal age cfg.max_signal_age_ms) res
      else if ltb_ℤ cfg.max_signal_age_ms book_age
      then reject (stale_book book_age cfg.max_signal_age_ms) res
      else if fl.lt orders_cfg.max_entry_slippage_usd dislocation
      then reject (dislocated dislocation orders_cfg.max_entry_slippage_usd signal.signal_price mid)
          res'
      else if fl.lt max_spread res.bingx_spread
      then reject (wide_spread res.bingx_spread max_spread) res'
      else suggest signal book res'
