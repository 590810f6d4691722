-- ===== src/Execution/Exit.antt =====
-- server/internal/execution/exit.go: `checkTrailingStop` and `executeExit`.
pub mod Trailing
pub mod Closing
pub mod Filled
use Prim.Native.String.{len, slice}
use botbtc.Prelude.{
  ℕ, zero, suc, ◌+◌, ℤ, pos, ltb, ltb_ℤ, Bool, true, false, ◌&&◌, Option, none, some, List, [], ◌∷◌,
  length, drop, String, str_eq, concat, if◌then◌else◌,
}
use botbtc.Float.{Float64, zero_f}
use botbtc.Config.{Config, TrailingStep}
use botbtc.Risk.{Engine, record_stop_loss, record_win, set_position_open}
use botbtc.Latency.{record_closed}
use botbtc.Quantity.{normalize_price}
use botbtc.Bingx.{
  PlaceOrderRequest, PlaceOrderResponse, OrderInfo, BookTicker, buy, sell, position_both, tif_ioc,
}
use botbtc.Execution.State.{
  ActivePosition, Host, World, Answer, answered, failed, Result, ok, err, place_failed,
  no_market_data, no_active_position, Action, pure, raise, ◌>>=◌, ◌>>◌, ask, on_latency, on_risk,
  get_active, set_active, unix_milli,
}
use botbtc.Execution.Poll.{poll_order_fill, cancel_order_safe}

-- The values that an exit's reason is formatted from.
pub data ExitReason (F : Type 0) : Type 0 where
  kill_switch : ExitReason F
  stop_loss : (price level : F) → ExitReason F
  take_profit : (price level : F) → ExitReason F
  trailing_stop : (pnl locked : F) (step : ℕ) → ExitReason F
  max_duration : (elapsed : ℤ) → ExitReason F
  time_stop_no_progress : (idle : ℤ) → ExitReason F

-- `id[:32]` of a longer id
abbrev pub truncate : String → String
truncate s = if ltb 32 (len s) then slice s 0 32 else s

module _ {F : Type 0} ⦃fl : Float64 F⦄ where
  -- The profit of a position at a price.
  unfoldable pub pnl_at : ActivePosition F → F → F
  pnl_at p price =
      if str_eq p.side buy
      then fl.mul (fl.sub price p.entry_price) p.quantity
      else fl.mul (fl.sub p.entry_price price) p.quantity

  -- The loop over `steps[i:]`: advance while the best profit reaches the next step.
  unfoldable pub advance : List (TrailingStep F) → ActivePosition F → ActivePosition F
  advance [] p = p
  advance (step ∷ steps) p =
      let rest =
        advance steps
          (record p { trailing_step = p.trailing_step + 1; locked_pnl = step.lock_usd }) in
      if fl.le step.profit_usd p.best_pnl then rest else p

  -- The position after `checkTrailingStop`, and the reason to exit if there is one.
  unfoldable pub check_trailing_stop :
      List (TrailingStep F) → F → ActivePosition F → ActivePosition F × Option (ExitReason F)
  check_trailing_stop [] price p = (p, none)
  check_trailing_stop (first ∷ rest) price p =
      let pnl = pnl_at p price in
      let p' = advance (drop p.trailing_step (first ∷ rest)) p in
      if fl.lt zero_f p'.locked_pnl && fl.le pnl p'.locked_pnl
      then (p', some (trailing_stop pnl p'.locked_pnl p'.trailing_step))
      else (p', none)

module _ {F E : Type 0} ⦃fl : Float64 F⦄ (h : Host F E) (cfg : Config F) (fuel : ℕ) where
  abbrev pub exit_request :
      ActivePosition F → (price : F) → (client_order_id : String) → PlaceOrderRequest F
  exit_request p price id = record {
    symbol = cfg.bingx.symbol;
    side = if str_eq p.side buy then sell else buy;
    position_side = position_both;
    order_type = "LIMIT";
    time_in_force = tif_ioc;
    price = price;
    quantity = p.quantity;
    reduce_only = true;
    client_order_id = id;
  }

  -- The first exit price, and the one with slippage.
  abbrev pub exit_price_of : ActivePosition F → BookTicker F → F
  exit_price_of p book =
      normalize_price cfg.quantity (if str_eq p.side buy then book.bid_price else book.ask_price)

  abbrev pub reprice_of : ActivePosition F → BookTicker F → F
  reprice_of p book = normalize_price cfg.quantity (
      if str_eq p.side buy
      then fl.sub book.bid_price cfg.orders.max_exit_slippage_usd
      else fl.add book.ask_price cfg.orders.max_exit_slippage_usd)

  abbrev pub exit_id_of : ActivePosition F → String
  exit_id_of p = truncate (concat p.signal_id "-exit")

  -- The second poll, whose error is ignored: an error is "not filled".
  try_poll : String → Action F E (Option (OrderInfo F))
  try_poll id w =
      let (r, w') = poll_order_fill h fuel cfg.bingx.symbol id (pos 3_000_000_000) w in
      elim r [ ok outcome ↦ (ok outcome, w') | err e ↦ (ok none, w') ]

  reprice_outcome : String → Option (OrderInfo F) → Action F E (Option (OrderInfo F))
  reprice_outcome id (some info) = pure (some info)
  reprice_outcome id none = cancel_order_safe h cfg.bingx.symbol id >> pure none

  reprice_answer : String → Answer PlaceOrderResponse → Action F E (Option (OrderInfo F))
  unfolding try_poll reprice_outcome
  reprice_answer id (failed why) = pure none
  reprice_answer id (answered response) = try_poll id >>= reprice_outcome id

  -- `If not filled, try repricing`; the fill, or `none`.
  reprice : ActivePosition F → BookTicker F → Action F E (Option (OrderInfo F))
  unfolding reprice_answer
  reprice p book = do
    let id = truncate (concat (exit_id_of p) "-r")
    cancel_order_safe h cfg.bingx.symbol (exit_id_of p)
    answer ← ask (h.place_order (exit_request p (reprice_of p book) id))
    reprice_answer id answer

  -- The price that the result is counted at: the fill's, or else the limit of the last order.
  abbrev pub fill_price_of : F → Option (OrderInfo F) → F
  fill_price_of limit none = limit
  fill_price_of limit (some info) = if fl.lt zero_f info.avg_price then info.avg_price else limit

  -- From `Record T7` to the end.
  settle : ActivePosition F → (limit : F) → Option (OrderInfo F) → Action F E (Unit {0})
  settle p limit fill = do
    t7 ← ask h.now
    on_latency (record_closed p.signal_id (unix_milli t7))
    t ← ask h.now
    on_risk (
        if fl.lt (pnl_at p (fill_price_of limit fill)) zero_f
        then record_stop_loss (h.today t)
        else record_win)
    on_risk (set_position_open false)
    set_active none
    λ w. (ok tt, record w { monitor_cancel = false })

  -- What follows the first poll.
  finish : ActivePosition F → BookTicker F → Option (OrderInfo F) → Action F E (Unit {0})
  unfolding settle reprice
  finish p book (some info) = settle p (exit_price_of p book) (some info)
  finish p book none = reprice p book >>= settle p (reprice_of p book)

  exit_answer : ActivePosition F → BookTicker F → Answer PlaceOrderResponse → Action F E (Unit {0})
  unfolding finish
  exit_answer p book (failed why) = raise (place_failed why)
  exit_answer p book (answered response) =
      poll_order_fill h fuel cfg.bingx.symbol (exit_id_of p) (pos 5_000_000_000) >>= finish p book

  exit_book : ActivePosition F → Option (BookTicker F) → Action F E (Unit {0})
  unfolding exit_answer
  exit_book p none = raise no_market_data
  exit_book p (some book) =
      ask (h.place_order (exit_request p (exit_price_of p book) (exit_id_of p)))
      >>= exit_answer p book

  close_position : Option (ActivePosition F) → Action F E (Unit {0})
  unfolding exit_book
  close_position none = raise no_active_position
  close_position (some p) = ask h.latest_book >>= exit_book p

  -- The reason is only logged.
  unfoldable pub execute_exit : ExitReason F → Action F E (Unit {0})
  unfolding close_position
  execute_exit reason = get_active >>= close_position
