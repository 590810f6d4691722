-- ===== src/Execution/Monitor/Checks.antt =====
-- When the monitor leaves a position for the kill switch, the stop loss or the take profit.
use botbtc.Prelude.{
  ◌≡◌, ◌↔◌, ◌⊎◌, inl, inr, arith, Bool, true, false, not, ◌&&◌, none, str_eq, if◌then◌else◌,
}
use botbtc.Float.{Float64}
use botbtc.Bingx.{buy, sell}
use botbtc.Execution.State.{ActivePosition}
use botbtc.Execution.Monitor.{first_checks}

module _ {F : Type 0} ⦃fl : Float64 F⦄ where
  -- The price has reached neither the stop nor the target of the position.
  abbrev pub is_inside : F → ActivePosition F → Bool
  is_inside price p =
      if str_eq p.side buy
      then not (fl.le price p.stop_loss) && not (fl.le p.take_profit price)
      else not (fl.le p.stop_loss price) && not (fl.le price p.take_profit)

  -- A position of side BUY or SELL stays past the first checks exactly when the kill switch is off and
  -- the price has reached neither its stop nor its target.
  pub first_checks-none :
      (killed : Bool) (price : F) (p : ActivePosition F)
      → (p.side ≡ buy) ⊎ (p.side ≡ sell)
      → (first_checks killed price p ≡ none) ↔ ((killed ≡ false) × (is_inside price p ≡ true))
  unfolding first_checks
  first_checks-none killed price p side = elim side [
    | inl e ↦ rw e (ground arith)
    | inr e ↦ rw e (ground arith)
  ]
