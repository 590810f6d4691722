-- ===== src/Execution/Monitor.antt =====
-- server/internal/execution/exit.go: `monitorPosition`, one round of its loop after the other.
pub mod Checks
pub mod Staying
pub mod Watching
use botbtc.Prelude.{
  ℕ, zero, suc, ◌-◌, ℤ, pos, ltb_ℤ, leb_ℤ, Bool, true, false, ◌&&◌, Option, none, some, List, [],
  String, str_eq, if◌then◌else◌,
}
use botbtc.Float.{Float64, zero_f}
use botbtc.Config.{Config}
use botbtc.Risk.{is_kill_switch_active}
use botbtc.Bingx.{BookTicker, buy, sell}
use botbtc.Execution.State.{
  ActivePosition, Host, World, Result, ok, err, Action, pure, ◌>>=◌, ◌>>◌, ask, get_active,
  get_risk, set_active, duration_of_ms, time_sub,
}
use botbtc.Execution.Exit.{
  ExitReason, kill_switch, stop_loss, take_profit, max_duration, time_stop_no_progress, pnl_at,
  check_trailing_stop, execute_exit,
}

-- The loop's own variables.
pub record Progress (F : Type 0) : Type 0 where
  pub last_progress_time : ℤ
  pub best_favorable : F

-- What one round does: the monitor goes on with new variables, or returns.
pub data Round (F : Type 0) : Type 0 where
  continue : Progress F → Round F
  return : Round F

module _ {F : Type 0} ⦃fl : Float64 F⦄ where
  -- The price at which the position would be left.
  abbrev pub exit_side_price : ActivePosition F → BookTicker F → F
  exit_side_price p book = if str_eq p.side buy then book.bid_price else book.ask_price

  -- `Track best PnL for trailing`
  unfoldable pub track_best : F → ActivePosition F → ActivePosition F
  track_best pnl p = if fl.lt p.best_pnl pnl then record p { best_pnl = pnl } else p

  -- Checks 6, 1 and 2, in this order.
  unfoldable pub first_checks : Bool → F → ActivePosition F → Option (ExitReason F)
  first_checks killed price p =
      if killed
      then some kill_switch
      else if str_eq p.side buy && fl.le price p.stop_loss
      then some (stop_loss price p.stop_loss)
      else if str_eq p.side sell && fl.le p.stop_loss price
      then some (stop_loss price p.stop_loss)
      else if str_eq p.side buy && fl.le p.take_profit price
      then some (take_profit price p.take_profit)
      else if str_eq p.side sell && fl.le price p.take_profit
      then some (take_profit price p.take_profit)
      else none

module _ {F E : Type 0} ⦃fl : Float64 F⦄ (h : Host F E) (cfg : Config F) (fuel : ℕ) where
  -- `if err := p.executeExit(...); err != nil { log }; return`
  leave : ExitReason F → Action F E (Round F)
  leave reason w = (ok return, (execute_exit h cfg fuel reason w).1)

  -- Check 3: the position with its trailing step, and the reason to exit if there is one.
  trail : F → ActivePosition F → ActivePosition F × Option (ExitReason F)
  trail price p =
      if cfg.trailing.enabled then check_trailing_stop cfg.trailing.steps price p else (p, none)

  -- Check 5.
  check_progress : F → ActivePosition F → Progress F → Action F E (Round F)
  unfolding leave
  check_progress pnl p progress = do
    let move = fl.div pnl p.quantity
    progress' ←
        if fl.lt (fl.add progress.best_favorable cfg.trade.min_favorable_move_usd) move
        then (do t ← ask h.now; pure (record { last_progress_time = t; best_favorable = move }))
        else pure progress
    let timeout = duration_of_ms cfg.trade.time_stop_no_progress_ms
    if ltb_ℤ (pos 0) timeout
        then (do
          t ← ask h.now
          let idle = time_sub t progress'.last_progress_time
          if leb_ℤ timeout idle
              then leave (time_stop_no_progress idle)
              else pure (continue progress'))
        else pure (continue progress')

  -- Checks 4 and 5.
  check_times : (elapsed : ℤ) → F → ActivePosition F → Progress F → Action F E (Round F)
  unfolding leave check_progress
  check_times elapsed pnl p progress =
      if leb_ℤ (duration_of_ms cfg.trade.max_trade_duration_ms) elapsed
      then leave (max_duration elapsed)
      else check_progress pnl p progress

  trailing_outcome :
      (elapsed : ℤ)
      → F
      → ActivePosition F
      → Progress F
      → Option (ExitReason F)
      → Action F E (Round F)
  unfolding leave check_times
  trailing_outcome elapsed pnl p progress (some why) = leave why
  trailing_outcome elapsed pnl p progress none = check_times elapsed pnl p progress

  -- Check 3, and on.
  check_trailing :
      (elapsed : ℤ) → (price pnl : F) → ActivePosition F → Progress F → Action F E (Round F)
  unfolding trail trailing_outcome
  check_trailing elapsed price pnl p progress =
      let (p', reason) = trail price p in
      set_active (some p') >> trailing_outcome elapsed pnl p' progress reason

  first_outcome :
      (elapsed : ℤ)
      → (price pnl : F) → ActivePosition F
      → Progress F
      → Option (ExitReason F)
      → Action F E (Round F)
  unfolding leave check_trailing
  first_outcome elapsed price pnl p progress (some reason) = leave reason
  first_outcome elapsed price pnl p progress none = check_trailing elapsed price pnl p progress

  -- What follows `Track best PnL for trailing`.
  tracked : (price pnl : F) → ActivePosition F → Progress F → Action F E (Round F)
  unfolding first_outcome
  tracked price pnl p progress = do
    t ← ask h.now
    let elapsed = time_sub t p.entry_time
    killed ← get_risk is_kill_switch_active
    first_outcome elapsed price pnl p progress (first_checks killed price p)

  -- A round with a position and a book.
  watch : ActivePosition F → Progress F → Option (BookTicker F) → Action F E (Round F)
  unfolding tracked
  watch p progress none = pure (continue progress)
  watch p progress (some book) =
      let price = exit_side_price p book in
      let pnl = pnl_at p price in
      let p' = track_best pnl p in set_active (some p') >> tracked price pnl p' progress

  with_position : Progress F → Option (ActivePosition F) → Action F E (Round F)
  unfolding watch
  with_position progress none = pure return
  with_position progress (some p) = ask h.latest_book >>= watch p progress

  unfoldable pub monitor_round : Progress F → Action F E (Round F)
  unfolding with_position
  monitor_round progress = do
    done ← ask h.is_done
    if done then pure return else (get_active >>= with_position progress)

  -- The loop, `rounds` ticks of it; the goroutine ends when a round returns.
  unfoldable pub monitor_from : (rounds : ℕ) → Progress F → Action F E (Round F)
  monitor_from zero progress = pure (continue progress)
  monitor_from (suc rounds) progress = monitor_round progress >>= λ round. elim round [
    | return ↦ λ w. (ok return, record w { monitors = w.monitors - 1 })
    | continue progress' ↦ monitor_from rounds progress'
  ]

  unfoldable pub monitor_position : (rounds : ℕ) → Action F E (Round F)
  unfolding monitor_from
  monitor_position rounds = do
    t ← ask h.now
    monitor_from rounds (record { last_progress_time = t; best_favorable = zero_f })
