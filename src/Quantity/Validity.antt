-- ===== src/Quantity/Validity.antt =====
-- What a valid quantity means, and what the calculator promises of an invalid one.
use botbtc.Prelude.{
  ℤ, pos, ◌≤ℤ◌, ◌<ℤ◌, ◌≡◌, ◌≢◌, ◌↔◌, ◌⊎◌, true, false, ◌&&◌, none, arith, if◌then◌else◌,
}
use botbtc.Float.{Float64, zero_f}
use botbtc.Config.{QuantityConfig}
use botbtc.Quantity.{normalize_quantity, calculate}

module _ {F : Type 0} ⦃fl : Float64 F⦄ (cfg : QuantityConfig F) where
  -- The quantity that the risk buys, before it is held against the limits.
  abbrev pub wanted_qty : F → F → F → F
  wanted_qty equity risk_percent stop =
      normalize_quantity cfg (fl.div (fl.div (fl.mul equity risk_percent) (fl.literal 100 0)) stop)

  -- The quantity after the upper limit.
  abbrev pub allowed_qty : F → F
  allowed_qty qty =
      if fl.lt zero_f cfg.max_qty && fl.lt cfg.max_qty qty
      then normalize_quantity cfg cfg.max_qty
      else qty

  abbrev pub margin_of : F → F → ℤ → F
  margin_of qty price leverage = fl.div (fl.mul qty price) (fl.of_int leverage)

  -- A calculation is valid exactly when the four inputs pass their sign checks, the wanted quantity
  -- is not below the minimum, the leverage is within a positive maximum, and the margin of the
  -- quantity held to the maximum does not exceed the equity.
  pub calculate-valid_iff :
      (equity risk_percent stop price : F) (leverage : ℤ)
      → let qty = wanted_qty equity risk_percent stop in
        ((calculate cfg equity risk_percent stop price leverage).valid ≡ true) ↔ (
          (fl.le stop zero_f ≡ false)
          × (fl.le price zero_f ≡ false)
          × (fl.le equity zero_f ≡ false)
          × (pos 0 <ℤ leverage)
          × (fl.lt qty cfg.min_qty ≡ false)
          × ((cfg.max_leverage ≤ℤ pos 0) ⊎ (leverage ≤ℤ cfg.max_leverage))
          × (fl.lt equity (margin_of (allowed_qty qty) price leverage) ≡ false))
  unfolding calculate
  calculate-valid_iff equity risk_percent stop price leverage = ground arith

  -- Every result is either valid, with the quantity held to the maximum, its notional value and its
  -- margin, and no reason; or invalid, with a reason.
  pub calculate_result :
      (equity risk_percent stop price : F) (leverage : ℤ)
      → let qty = allowed_qty (wanted_qty equity risk_percent stop) in
        let res = calculate cfg equity risk_percent stop price leverage in
        ((res.valid ≡ true)
          × (res.normalized_qty_btc ≡ qty)
          × (res.notional_usd ≡ fl.mul qty price)
          × (res.margin_required_usd ≡ margin_of qty price leverage)
          × (res.reject_reason ≡ none))
        ⊎ ((res.valid ≡ false) × (res.reject_reason ≢ none))
  unfolding calculate
  calculate_result equity risk_percent stop price leverage = ground arith
