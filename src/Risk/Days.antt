-- ===== src/Risk/Days.antt =====
-- The risk engine over any sequence of calls, as the execution pipeline makes them: a trade is
-- recorded only after a signal was allowed.
use botbtc.Prelude.{
  pos, IsInt64, inc64-le, ◌≤ℤ◌, ◌≡◌, refl, ◌≢◌, Bool, true, false, String, arith, eq_iff,
}
use botbtc.Config.{RiskConfig}
use botbtc.Risk.{
  Engine, allowed, new_engine, maybe_reset_daily, evaluate_signal, record_trade, record_stop_loss,
  record_win, set_kill_switch, set_position_open,
}

-- Which days the clock may show: any, or one day only.
abbrev pub AnyDay : String → String → Type 0
AnyDay asked now = Unit

abbrev pub OnlyDay : String → String → String → Type 0
OnlyDay today asked now = (asked ≡ today) × (now ≡ today)

module _ {F : Type 0} where
  -- `asked` is the day on which a signal was judged, and `now` the day on which a result is recorded.
  pub data Step (asked now : String) (e : Engine F) : Engine F → Type 0 where
    judged : Step asked now e (evaluate_signal now e).0
    traded :
        (evaluate_signal asked e).1 ≡ allowed
        → Step asked now e (record_trade now (evaluate_signal asked e).0)
    stopped : Step asked now e (record_stop_loss now e)
    won : Step asked now e (record_win e)
    killed : (reason : String) → Step asked now e (set_kill_switch reason e)
    marked : (open_now : Bool) → Step asked now e (set_position_open open_now e)

  -- A run in which the clock shows such days as `days` permits.
  pub data Run (days : String → String → Type 0) (e : Engine F) : Engine F → Type 0 where
    start : Run days e e
    later :
        {asked now : String} {f g : Engine F}
        → Run days e f
        → days asked now
        → Step asked now f g
        → Run days e g

  record IsCounted (cfg : RiskConfig F) (e : Engine F) : Type 0 where
    kept : e.cfg ≡ cfg
    from_zero : pos 0 ≤ℤ e.daily_trade_count
    in_limit : e.daily_trade_count ≤ℤ cfg.max_daily_trades

  Step-IsCounted :
      {asked now : String} {e f : Engine F} (cfg : RiskConfig F)
      → IsInt64 cfg.max_daily_trades
      → pos 0 ≤ℤ cfg.max_daily_trades
      → Step asked now e f
      → IsCounted cfg e
      → IsCounted cfg f
  unfolding evaluate_signal record_trade record_stop_loss record_win set_kill_switch
      set_position_open maybe_reset_daily
  Step-IsCounted cfg m p judged c = ground arith
  Step-IsCounted {asked} {now} {e} cfg m p (traded ok) c = ground (
    arith,
    inc64-le e.daily_trade_count cfg.max_daily_trades,
    inc64-le (pos 0) cfg.max_daily_trades,
  )
  Step-IsCounted cfg m p stopped c = ground arith
  Step-IsCounted cfg m p won c = ground arith
  Step-IsCounted cfg m p (killed reason) c = ground arith
  Step-IsCounted cfg m p (marked open_now) c = ground arith

  Run-IsCounted :
      {days : String → String → Type 0} {e f : Engine F} (cfg : RiskConfig F)
      → IsInt64 cfg.max_daily_trades
      → pos 0 ≤ℤ cfg.max_daily_trades
      → Run days e f
      → IsCounted cfg e
      → IsCounted cfg f
  Run-IsCounted cfg m p start c = c
  Run-IsCounted cfg m p (later r d s) c = Step-IsCounted cfg m p s (Run-IsCounted cfg m p r c)

  -- However the days change, the trades of a day never exceed the configured limit (a limit that is
  -- not negative), if the engine starts new and a trade is recorded only after it was allowed.
  pub trades-le-max :
      (cfg : RiskConfig F) {e : Engine F}
      → IsInt64 cfg.max_daily_trades
      → pos 0 ≤ℤ cfg.max_daily_trades
      → Run AnyDay (new_engine cfg) e
      → (pos 0 ≤ℤ e.daily_trade_count) × (e.daily_trade_count ≤ℤ cfg.max_daily_trades)
  unfolding new_engine
  trades-le-max cfg m p r =
      let c =
        Run-IsCounted cfg m p r (record { kept = refl; from_zero = omega arith; in_limit = p }) in
      (c.from_zero, c.in_limit)

  Step-kill :
      {asked now : String} {e f : Engine F}
      → Step asked now e f
      → e.kill_switch_active ≡ true
      → f.kill_switch_active ≡ true
  unfolding evaluate_signal record_trade record_stop_loss record_win set_kill_switch
      set_position_open maybe_reset_daily
  Step-kill judged k = ground arith
  Step-kill (traded ok) k = ground arith
  Step-kill stopped k = ground arith
  Step-kill _ k = ground arith

  Run-kill :
      {days : String → String → Type 0} {e f : Engine F}
      → Run days e f
      → e.kill_switch_active ≡ true
      → f.kill_switch_active ≡ true
  Run-kill start k = k
  Run-kill (later r d s) k = Step-kill s (Run-kill r k)

  -- The kill switch is final: after it is set, no call clears it, no change of day either, and every
  -- signal is refused.
  pub killed-refused :
      (e : Engine F) {f : Engine F} (reason today : String)
      → Run AnyDay (set_kill_switch reason e) f
      → (evaluate_signal today f).1 ≢ allowed
  unfolding evaluate_signal maybe_reset_daily set_kill_switch
  killed-refused e reason today r h = ground (arith, Run-kill r refl)

  abbrev IsDisabled : String → Engine F → Type 0
  IsDisabled today e = (e.last_trade_date ≡ today) × (e.trading_enabled ≡ false)

  Step-IsDisabled :
      {asked now : String} {e f : Engine F} (today : String)
      → asked ≡ today
      → now ≡ today
      → Step asked now e f
      → IsDisabled today e
      → IsDisabled today f
  unfolding evaluate_signal record_trade record_stop_loss record_win set_kill_switch
      set_position_open maybe_reset_daily
  Step-IsDisabled {asked} {now} {e} today p q judged d =
      ground (arith, eq_iff e.last_trade_date now)
  Step-IsDisabled {asked} {now} {e} today p q (traded ok) d =
      ground (arith, eq_iff e.last_trade_date asked)
  Step-IsDisabled {asked} {now} {e} today p q stopped d =
      ground (arith, eq_iff e.last_trade_date now)
  Step-IsDisabled today p q won d = d
  Step-IsDisabled today p q (killed reason) d = d
  Step-IsDisabled today p q (marked open_now) d = d

  Run-IsDisabled :
      (today : String) {e f : Engine F}
      → Run (OnlyDay today) e f
      → IsDisabled today e
      → IsDisabled today f
  Run-IsDisabled today start d = d
  Run-IsDisabled today (later r (p, q) s) d = Step-IsDisabled today p q s (Run-IsDisabled today r d)

  -- Once the stop-loss limit has disabled trading, every signal is refused for the rest of the day,
  -- whatever else happens, wins included.
  pub disabled-refused :
      {e f : Engine F} (today : String)
      → e.last_trade_date ≡ today
      → e.trading_enabled ≡ false
      → Run (OnlyDay today) e f
      → (evaluate_signal today f).1 ≢ allowed
  unfolding evaluate_signal maybe_reset_daily
  disabled-refused {e} {f} today p q r h =
      ground (arith, Run-IsDisabled today r (p, q), eq_iff f.last_trade_date today)
