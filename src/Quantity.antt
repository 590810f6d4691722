-- ===== src/Quantity.antt =====
-- server/internal/quantity/calculator.go: the order quantity from the risk parameters.
pub mod Validity
use botbtc.Prelude.{
  ℤ, pos, leb_ℤ, ltb_ℤ, Bool, true, false, ◌&&◌, Option, none, some, if◌then◌else◌,
}
use botbtc.Float.{Float64, zero_f}
use botbtc.Config.{QuantityConfig}

-- The values that a reject reason is formatted from; `none` is the empty reason.
pub data RejectReason (F : Type 0) : Type 0 where
  bad_stop_distance bad_price bad_equity bad_leverage : RejectReason F
  below_min_qty : (qty min_qty risk_usd stop_usd : F) → RejectReason F
  leverage_exceeded : (leverage max_leverage : ℤ) → RejectReason F
  margin_exceeded : (margin equity : F) → RejectReason F

pub record QuantityResult (F : Type 0) : Type 0 where
  pub risk_amount_usd : F
  pub stop_distance_usd : F
  pub raw_qty_btc : F
  pub normalized_qty_btc : F
  pub notional_usd : F
  pub margin_required_usd : F
  pub leverage_required : F
  pub valid : Bool
  pub reject_reason : Option (RejectReason F)

module _ {F : Type 0} ⦃fl : Float64 F⦄ where
  unfoldable pub round_to : F → ℤ → F
  round_to v n = let pow = fl.pow10 n in fl.div (fl.round (fl.mul v pow)) pow

  unfoldable pub normalize_quantity : QuantityConfig F → F → F
  normalize_quantity cfg qty =
      if fl.le cfg.qty_step zero_f
      then qty
      else round_to (fl.mul (fl.floor (fl.div qty cfg.qty_step)) cfg.qty_step) cfg.qty_precision

  unfoldable pub normalize_price : QuantityConfig F → F → F
  normalize_price cfg price = round_to price cfg.price_precision

  reject : RejectReason F → QuantityResult F → QuantityResult F
  reject why res = record res { reject_reason = some why }

  -- From `Notional and margin` to the end.
  check_margin : QuantityConfig F → F → F → ℤ → QuantityResult F → QuantityResult F
  unfolding reject
  check_margin cfg equity price leverage res =
      let notional = fl.mul res.normalized_qty_btc price in
      let margin = fl.div notional (fl.of_int leverage) in
      let res' = record res {
        notional_usd = notional;
        margin_required_usd = margin;
        leverage_required = fl.of_int leverage;
      } in
      if ltb_ℤ (pos 0) cfg.max_leverage && ltb_ℤ cfg.max_leverage leverage
      then reject (leverage_exceeded leverage cfg.max_leverage) res'
      else if fl.lt equity margin
      then reject (margin_exceeded margin equity) res'
      else record res' { valid = true }

  -- `Validate max qty`
  clamp : QuantityConfig F → QuantityResult F → QuantityResult F
  clamp cfg res =
      if fl.lt zero_f cfg.max_qty && fl.lt cfg.max_qty res.normalized_qty_btc
      then record res { normalized_qty_btc = normalize_quantity cfg cfg.max_qty }
      else res

  unfoldable pub calculate :
      QuantityConfig F
      → (equity_usd risk_percent stop_distance_usd btc_price : F) → ℤ
      → QuantityResult F
  unfolding reject check_margin clamp
  calculate cfg equity risk_percent stop price leverage =
      let res : QuantityResult F = record {
        risk_amount_usd = zero_f;
        stop_distance_usd = stop;
        raw_qty_btc = zero_f;
        normalized_qty_btc = zero_f;
        notional_usd = zero_f;
        margin_required_usd = zero_f;
        leverage_required = zero_f;
        valid = false;
        reject_reason = none;
      } in
      let risk_usd = fl.div (fl.mul equity risk_percent) (fl.literal 100 0) in
      let raw = fl.div risk_usd stop in
      let qty = normalize_quantity cfg raw in
      let sized = record res {
        risk_amount_usd = risk_usd;
        raw_qty_btc = raw;
        normalized_qty_btc = qty;
      } in
      if fl.le stop zero_f
      then reject bad_stop_distance res
      else if fl.le price zero_f
      then reject bad_price res
      else if fl.le equity zero_f
      then reject bad_equity res
      else if leb_ℤ leverage (pos 0)
      then reject bad_leverage res
      else if fl.lt qty cfg.min_qty
      then reject (below_min_qty qty cfg.min_qty risk_usd stop) sized
      else check_margin cfg equity price leverage (clamp cfg sized)
