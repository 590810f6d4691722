-- ===== src/Tests/Trading.antt =====
-- The pipeline's theorems at a signal that opens a position.
use botbtc.Prelude.{
  ℤ, pos, ◌≡◌, ◌≢◌, ◌↔◌, ◌+◌, ltb_ℤ, leb_ℤ, drop, refl, arith, inl, int_laws, true, false, none,
  some, [], sub64, ◌-ℤ◌, lookup, mul64, ◌+ℤ◌,
}
use botbtc.Float.Fixed.{micros_float64, micros-IsIeee}
use botbtc.Risk.{
  is_kill_switch_active, new_engine, evaluate_signal, maybe_reset_daily, get_current_risk,
}
use botbtc.Orders.{new_manager, create_order}
use botbtc.Gate.{ValidationResult, validate}
use botbtc.Quantity.{calculate, normalize_quantity, round_to}
use botbtc.Execution.State.{
  ActivePosition, World, Result, ok, duration_of_ms, time_sub, err, exhausted, new_pipeline,
}
use botbtc.Execution.Frames.{Calls, Keeps}
use botbtc.Execution.Poll.{poll_order_fill, poll_until, poll_round, after_answer}
use botbtc.Execution.Poll.Termination.{IsClocked, poll_order_fill-ends}
use botbtc.Execution.Entry.{execute_entry}
use botbtc.Execution.Entry.Requests.{IsEntryRequest, execute_entry-Keeps}
use botbtc.Execution.Exit.{advance, pnl_at, kill_switch, execute_exit, check_trailing_stop}
use botbtc.Execution.Exit.Trailing.{IsTracked, IsProfit, reached, check_trailing_stop_lem}
use botbtc.Execution.Exit.Closing.{IsExitRequest, Exited, execute_exit-Exited}
use botbtc.Execution.Monitor.{Progress, continue, first_checks, track_best, monitor_round}
use botbtc.Execution.Monitor.Staying.{IsBetween, monitor_round-stays}
use botbtc.Execution.Process.{process_signal, opened, usdt_equity, has_active_position}
use botbtc.Execution.Process.Refusals.{IsUntouched}
use botbtc.Execution.Process.Opening.{IsOrderOf, Opening, process_signal-Opening}
use botbtc.Execution.Process.Bracket.{IsBracket, opened-IsBracket}
use botbtc.Execution.Runs.{Run, start, later, signalled, position-agrees, one_position}
use botbtc.Tests.Data.{
  outside, host, config, signal, risk_cfg, latency_cfg, orders_cfg, trailing_steps, book, dollars,
}

abbrev fresh : World ℤ ℤ
fresh = new_pipeline outside (new_engine risk_cfg) (new_manager "scalper") []

abbrev traded : Result ℤ Unit × World ℤ ℤ
traded = process_signal host config 100 signal fresh

abbrev pub position : ActivePosition ℤ
position = opened config signal (dollars 50_000) (dollars 1) outside

traded-position : traded.1.active_pos ≡ some position
unfolding process_signal execute_entry new_pipeline new_engine evaluate_signal maybe_reset_daily
    validate calculate usdt_equity get_current_risk sub64 normalize_quantity round_to create_order
    lookup new_manager poll_order_fill poll_until ◌+ℤ◌ mul64 poll_round after_answer
traded-position = refl

traded-Run : Run host config fresh traded.1
traded-Run = later start (signalled 100 signal)

position-agrees_example : has_active_position traded.1 ≡ traded.1.risk.has_open_position
position-agrees_example =
    position-agrees host config risk_cfg outside (new_manager "scalper") [] traded-Run

one_position_example :
    let done = process_signal host config 100 signal traded.1 in
    IsUntouched host config 100 signal traded.1 done.1 done.0
one_position_example =
    one_position host config risk_cfg outside (new_manager "scalper") [] 100 signal position
      traded-Run traded-position

process_signal-Opening_example :
    Calls host (IsOrderOf signal) fresh.env traded.1.env
    × Opening config signal fresh traded.1 traded.0
process_signal-Opening_example = process_signal-Opening host config 100 signal fresh

abbrev holding : World ℤ ℤ
holding = record fresh { active_pos = some position; monitor_cancel = true }

execute_exit-Exited_example :
    let done = execute_exit host config 300 kill_switch holding in
    Calls host (IsExitRequest config position) holding.env done.1.env × Exited holding done.1 done.0
execute_exit-Exited_example = execute_exit-Exited host config 300 position kill_switch holding refl

abbrev validation : ValidationResult ℤ
validation = validate latency_cfg orders_cfg signal book (pos 1_000_100)

execute_entry-Keeps_example :
    Keeps host
      (IsEntryRequest signal validation.suggested_entry (dollars 1))
      (execute_entry host config 100 signal validation (dollars 1))
execute_entry-Keeps_example = execute_entry-Keeps host config 100 signal validation (dollars 1)

host-IsClocked : IsClocked host (λ e. e)
host-IsClocked = record {
  now_reads = λ e. refl;
  now_later = λ e. ground arith;
  is_done_later = λ e. ground arith;
  get_order_later = λ symbol id e. ground arith;
  sleep_waits = λ n e. omega int_laws;
}

-- The timeout of the maker probe, 300 ms.
poll_order_fill-ends_example :
    (poll_order_fill host 16 "BTC-USDT" "id" (pos 300_000_000) fresh).0 ≢ err exhausted
poll_order_fill-ends_example =
    poll_order_fill-ends host (λ e. e) host-IsClocked 15 300_000_000 "BTC-USDT" "id" fresh
      (omega arith)

abbrev risen : ActivePosition ℤ
risen = record position { best_pnl = dollars 7 }

risen-IsTracked : IsTracked trailing_steps risen
unfolding opened
risen-IsTracked = record { in_range = omega arith; locked = refl }

check_trailing_stop_lem_example :
    let (p', reason) = check_trailing_stop trailing_steps (dollars 50_001) risen in
    IsTracked trailing_steps p'
    × (p'.trailing_step
        ≡ risen.trailing_step + reached risen.best_pnl (drop risen.trailing_step trailing_steps))
    × (p'.best_pnl ≡ risen.best_pnl)
    × (reached p'.best_pnl (drop p'.trailing_step trailing_steps) ≡ 0)
    × ((profit : ℤ) × IsProfit risen (dollars 50_001) profit
        × ((reason ≢ none) ↔ (
            (trailing_steps ≢ [])
            × (ltb_ℤ (pos 0) p'.locked_pnl ≡ true)
            × (leb_ℤ profit p'.locked_pnl ≡ true))))
check_trailing_stop_lem_example =
    check_trailing_stop_lem trailing_steps (dollars 50_001) risen risen-IsTracked

abbrev watched : Progress ℤ
watched = record { last_progress_time = outside; best_favorable = pos 0 }

holding-stays : (monitor_round host config 100 watched holding).0 ≡ ok (continue watched)
unfolding monitor_round first_checks is_kill_switch_active new_pipeline new_engine track_best opened
    pnl_at check_trailing_stop advance mul64 ◌-ℤ◌
holding-stays = refl

monitor_round-stays_example :
    (holding.risk.kill_switch_active ≡ false)
    × IsBetween host config 100 position book
    × (leb_ℤ
          (duration_of_ms config.trade.max_trade_duration_ms)
          (time_sub outside position.entry_time)
        ≡ false)
unfolding opened new_pipeline
monitor_round-stays_example =
    monitor_round-stays host config 100 watched watched holding position book refl refl refl
      (inl refl) holding-stays

opened-IsBracket_example : IsBracket position
unfolding opened
opened-IsBracket_example =
    opened-IsBracket micros-IsIeee config signal (dollars 50_000) (dollars 1) outside refl refl refl
      refl
