-- ===== src/Execution/Process.antt =====
-- server/internal/execution/pipeline.go: `ProcessSignal` and `HasActivePosition`.
pub mod Refusals
pub mod Opening
pub mod Bracket
use botbtc.Prelude.{
  ℕ, ◌+◌, ℤ, pos, leb_ℤ, Bool, true, false, Option, none, some, List, [], ◌∷◌, String, str_eq,
  if◌then◌else◌,
}
use botbtc.Float.{Float64, zero_f}
use botbtc.Config.{Config}
use botbtc.Model.{Signal}
use botbtc.Risk
use botbtc.Risk.{
  Engine, Verdict, evaluate_signal, get_current_risk, record_trade, set_position_open,
}
use botbtc.Latency.{record_signal_received}
use botbtc.Gate.{ValidationResult, validate}
use botbtc.Quantity.{QuantityResult, calculate}
use botbtc.Bingx.{AccountBalance, BookTicker, buy}
use botbtc.Execution.State.{
  ActivePosition, Host, World, Answer, answered, failed, Result, ok, err, rejected_by_risk,
  no_market_data, rejected_by_gate, balance_failed, no_equity, quantity_rejected, Action, pure,
  raise, ◌>>=◌, ◌>>◌, ask, on_latency, on_risk, get_risk, set_active, unix_milli,
}
use botbtc.Execution.Entry.{Entry, execute_entry}

module _ {F : Type 0} ⦃fl : Float64 F⦄ where
  -- The balance of the first USDT entry, or zero.
  unfoldable pub usdt_equity : List (AccountBalance F) → F
  usdt_equity [] = zero_f
  usdt_equity (b ∷ balances) = if str_eq b.asset "USDT" then b.balance else usdt_equity balances

  module _ (cfg : Config F) where
    abbrev pub leverage : ℤ
    leverage =
        if leb_ℤ cfg.quantity.default_leverage (pos 0)
        then pos 10
        else cfg.quantity.default_leverage

    -- The position of `Step 7`.
    unfoldable pub opened : Signal F → (fill_price qty : F) → (entry_time : ℤ) → ActivePosition F
    opened signal fill_price qty entry_time = record {
      signal_id = signal.signal_id;
      side = signal.side;
      entry_price = fill_price;
      quantity = qty;
      entry_time = entry_time;
      stop_loss =
          if str_eq signal.side buy
          then fl.sub fill_price cfg.trade.initial_stop_loss_usd
          else fl.add fill_price cfg.trade.initial_stop_loss_usd;
      take_profit =
          if str_eq signal.side buy
          then fl.add fill_price cfg.trade.max_take_profit_usd
          else fl.sub fill_price cfg.trade.max_take_profit_usd;
      trailing_step = 0;
      best_pnl = zero_f;
      locked_pnl = zero_f;
      exit_order_id = "";
    }

module _ {F E : Type 0} ⦃fl : Float64 F⦄ (h : Host F E) (cfg : Config F) (fuel : ℕ) where
  -- `riskEngine.EvaluateSignal`
  judge : Action F E Verdict
  judge = do
    t ← ask h.now
    λ w. let (e, v) = evaluate_signal (h.today t) w.risk in (ok v, record w { risk = e })

  -- `Step 7`
  open_position : Signal F → ValidationResult F → F → Entry F → Action F E (Unit {0})
  open_position signal validation qty entry = do
    t ← ask h.now
    on_risk (record_trade (h.today t))
    on_risk (set_position_open true)
    let fill_price =
        if fl.lt zero_f entry.avg_fill_price
        then entry.avg_fill_price
        else validation.suggested_entry
    entry_time ← ask h.now
    set_active (some (opened cfg signal fill_price qty entry_time))
    λ w. (ok tt, record w { monitor_cancel = true; monitors = w.monitors + 1 })

  -- `Step 6`
  enter : Signal F → ValidationResult F → QuantityResult F → Action F E (Unit {0})
  unfolding open_position
  enter signal validation sized =
      if sized.valid
      then (execute_entry h cfg fuel signal validation sized.normalized_qty_btc
          >>= open_position signal validation sized.normalized_qty_btc)
      else raise (quantity_rejected sized.reject_reason)

  -- `Step 5`
  size_up :
      Signal F
      → ValidationResult F
      → BookTicker F
      → Answer (List (AccountBalance F))
      → Action F E (Unit {0})
  unfolding enter
  size_up signal validation book (failed why) = raise (balance_failed why)
  size_up signal validation book (answered balances) =
      let equity = usdt_equity balances in
      if fl.le equity zero_f then raise no_equity else (do
        risk_pct ← get_risk get_current_risk
        enter signal validation (
            calculate cfg.quantity equity risk_pct cfg.trade.initial_stop_loss_usd
              (fl.div (fl.add book.bid_price book.ask_price) (fl.literal 2 0)) (leverage cfg)))

  -- `Step 4`
  pass_gate : Signal F → Option (BookTicker F) → Action F E (Unit {0})
  unfolding size_up
  pass_gate signal none = raise no_market_data
  pass_gate signal (some book) = do
    t ← ask h.now
    let validation = validate cfg.latency cfg.orders signal book (unix_milli t)
    if validation.valid
        then (ask h.get_balance >>= size_up signal validation book)
        else raise (rejected_by_gate validation.reject_reason)

  -- `Step 3`
  with_verdict : Signal F → Verdict → Action F E (Unit {0})
  unfolding pass_gate
  with_verdict signal (Verdict.refused why) = raise (rejected_by_risk why)
  with_verdict signal Verdict.allowed = ask h.latest_book >>= pass_gate signal

  unfoldable pub process_signal : Signal F → Action F E (Unit {0})
  unfolding judge with_verdict
  process_signal signal = do
    t2 ← ask h.now
    on_latency (
        record_signal_received signal.signal_id signal.t0_tick_ms signal.t1_signal_ms
          (unix_milli t2))
    verdict ← judge
    with_verdict signal verdict

module _ {F E : Type 0} where
  unfoldable pub has_active_position : World F E → Bool
  has_active_position w = elim w.active_pos [ none ↦ false | some p ↦ true ]
