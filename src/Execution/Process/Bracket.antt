-- ===== src/Execution/Process/Bracket.antt =====
-- The stop and the target of a new position.
use botbtc.Prelude.{ℤ, Bool, true, false, str_eq, if◌then◌else◌}
use botbtc.Float.{Float64, IsIeee, IsNumber, zero_f, ◌≼◌}
use botbtc.Config.{Config}
use botbtc.Model.{Signal}
use botbtc.Bingx.{buy}
use botbtc.Execution.State.{ActivePosition}
use botbtc.Execution.Process.{opened}

module _ {F : Type 0} ⦃fl : Float64 F⦄ where
  -- The stop on the losing side of the price, the target on the winning side.
  abbrev pub IsBracket : ActivePosition F → Type 0
  IsBracket p =
      if str_eq p.side buy
      then (p.stop_loss ≼ p.entry_price) × (p.entry_price ≼ p.take_profit)
      else (p.take_profit ≼ p.entry_price) × (p.entry_price ≼ p.stop_loss)

  -- With distances that are not negative, and levels that are numbers, a new position has its stop on
  -- the losing side of its price and its target on the winning side: for BUY below and above, else
  -- above and below. The laws of IEEE 754 are assumed.
  pub opened-IsBracket :
      (ieee : IsIeee F) (cfg : Config F) (signal : Signal F) (price qty : F) (entry_time : ℤ)
      → zero_f ≼ cfg.trade.initial_stop_loss_usd
      → zero_f ≼ cfg.trade.max_take_profit_usd
      → IsNumber (opened cfg signal price qty entry_time).stop_loss
      → IsNumber (opened cfg signal price qty entry_time).take_profit
      → IsBracket (opened cfg signal price qty entry_time)
  unfolding opened
  opened-IsBracket ieee cfg signal price qty entry_time sl tp n m = of (str_eq signal.side buy) n m
    where
      of :
          (is_buy : Bool)
          → IsNumber (
              if is_buy
              then fl.sub price cfg.trade.initial_stop_loss_usd
              else fl.add price cfg.trade.initial_stop_loss_usd)
          → IsNumber (
              if is_buy
              then fl.add price cfg.trade.max_take_profit_usd
              else fl.sub price cfg.trade.max_take_profit_usd)
          → if is_buy
            then ((if is_buy
                  then fl.sub price cfg.trade.initial_stop_loss_usd
                  else fl.add price cfg.trade.initial_stop_loss_usd)
                ≼ price)
              × (price ≼ (
                  if is_buy
                  then fl.add price cfg.trade.max_take_profit_usd
                  else fl.sub price cfg.trade.max_take_profit_usd))
            else ((if is_buy
                  then fl.add price cfg.trade.max_take_profit_usd
                  else fl.sub price cfg.trade.max_take_profit_usd)
                ≼ price)
              × (price ≼ (
                  if is_buy
                  then fl.sub price cfg.trade.initial_stop_loss_usd
                  else fl.add price cfg.trade.initial_stop_loss_usd))
      of true n m = (ieee.sub-le_self price _ sl n, ieee.le-add_self price _ tp m)
      of false n m = (ieee.sub-le_self price _ tp m, ieee.le-add_self price _ sl n)
