-- ===== src/Execution/Process/Opening.antt =====
-- How a signal ends: refused, with nothing changed but the day's counters, or with an open position.
use botbtc.Prelude.{
  ℕ, ◌+◌, ℤ, ◌≡◌, refl, ◌∙◌, ap, inl, inr, arith, true, Option, none, some, List, String, str_eq,
  if◌then◌else◌,
}
use botbtc.Float.{Float64, zero_f}
use botbtc.Config.{Config}
use botbtc.Model.{Signal}
use botbtc.Risk.{
  Engine, Verdict, reset_daily, evaluate_signal, maybe_reset_daily, record_trade, set_position_open,
  get_current_risk,
}
use botbtc.Latency.{record_signal_received}
use botbtc.Gate.{ValidationResult, validate}
use botbtc.Quantity.{QuantityResult, calculate}
use botbtc.Bingx.{PlaceOrderRequest, AccountBalance, BookTicker, buy}
use botbtc.Execution.State.{
  ActivePosition, Host, World, Error, Answer, answered, failed, Result, ok, err, balance_failed,
  no_equity, no_market_data, rejected_by_risk, rejected_by_gate, quantity_rejected, ◌>>=◌,
  unix_milli,
}
use botbtc.Execution.Frames.{
  Call, Calls, idle, later, Calls-trans, Keeps-latest_book, Keeps-now, Keeps-get_balance,
  Keeps-get_risk, Keeps-latency,
}
use botbtc.Execution.Outcomes.{IsFramed, Leads, Leads-bind, Leads-raise, Leads-if, Keeps-weaken}
use botbtc.Execution.Entry.{Entry}
use botbtc.Execution.Entry.Requests.{IsEntryRequest, execute_entry-Keeps}
use botbtc.Execution.Process.{
  opened, judge, open_position, enter, size_up, pass_gate, with_verdict, process_signal,
  usdt_equity, leverage,
}

-- A position of the signal's side, with stop and target at the configured distances of its price.
pub record IsOpened {F : Type 0} ⦃fl : Float64 F⦄ (cfg : Config F) (signal : Signal F)
    (p : ActivePosition F) : Type 0 where
  pub its_signal : p.signal_id ≡ signal.signal_id
  pub its_side : p.side ≡ signal.side
  pub its_stop : p.stop_loss ≡ (
      if str_eq signal.side buy
      then fl.sub p.entry_price cfg.trade.initial_stop_loss_usd
      else fl.add p.entry_price cfg.trade.initial_stop_loss_usd)
  pub its_target : p.take_profit ≡ (
      if str_eq signal.side buy
      then fl.add p.entry_price cfg.trade.max_take_profit_usd
      else fl.sub p.entry_price cfg.trade.max_take_profit_usd)

pub data Opening {F E : Type 0} ⦃fl : Float64 F⦄ (cfg : Config F) (signal : Signal F)
    (w : World F E) (w' : World F E) : Result F (Unit {0}) → Type 0 where
  entered :
      (p : ActivePosition F)
      → IsOpened cfg signal p
      → w'.active_pos ≡ some p
      → w'.risk.has_open_position ≡ true
      → w'.monitor_cancel ≡ true
      → w'.monitors ≡ w.monitors + 1
      → Opening cfg signal w w' (ok tt)
  turned_down :
      (e : Error F)
      → w'.active_pos ≡ w.active_pos
      → w'.risk.has_open_position ≡ w.risk.has_open_position
      → w'.monitor_cancel ≡ w.monitor_cancel
      → w'.monitors ≡ w.monitors
      → Opening cfg signal w w' (err e)

-- An order that the signal may be entered by.
abbrev pub IsOrderOf : {F : Type 0} → Signal F → PlaceOrderRequest F → Type 0
IsOrderOf signal req = IsEntryRequest signal req.price req.quantity req

pub record OpeningDone {F E : Type 0} ⦃fl : Float64 F⦄ (h : Host F E) (cfg : Config F)
    (signal : Signal F) (w : World F E) (r : Result F (Unit {0})) (w' : World F E) : Type 0 where
  pub calls : Calls h (IsOrderOf signal) w.env w'.env
  pub outcome : Opening cfg signal w w' r

module _ {F E : Type 0} ⦃fl : Float64 F⦄ (h : Host F E) (cfg : Config F) (fuel : ℕ)
    (signal : Signal F) where
  abbrev Safe : PlaceOrderRequest F → Type 0
  Safe = IsOrderOf signal

  abbrev Done : World F E → Result F (Unit {0}) → World F E → Type 0
  Done = OpeningDone h cfg signal

  before-Opening :
      {u v w : World F E} {r : Result F (Unit {0})}
      → v.active_pos ≡ u.active_pos
      → v.risk.has_open_position ≡ u.risk.has_open_position
      → v.monitor_cancel ≡ u.monitor_cancel
      → v.monitors ≡ u.monitors
      → Opening cfg signal v w r
      → Opening cfg signal u w r
  before-Opening p o c n (entered held is_opened a b m k) =
      Opening.entered held is_opened a b m (k ∙ ap (λ i. i + 1) n)
  before-Opening p o c n (turned_down e a b m k) =
      Opening.turned_down e (a ∙ p) (b ∙ o) (m ∙ c) (k ∙ n)

  Opening-IsFramed : IsFramed h Safe Done
  Opening-IsFramed = record {
    before = λ q d. record {
      calls = Calls-trans h Safe q.calls d.calls;
      outcome =
          before-Opening q.same_pos (ap (λ e. e.has_open_position) q.same_risk) q.same_cancel
            q.same_monitors d.outcome;
    };
    quit = λ e q. record {
      calls = q.calls;
      outcome =
          Opening.turned_down e q.same_pos (ap (λ e. e.has_open_position) q.same_risk) q.same_cancel
            q.same_monitors;
    };
  }

  opened_lem :
      (price qty : F) (entry_time : ℤ)
      → IsOpened cfg signal (opened cfg signal price qty entry_time)
  unfolding opened
  opened_lem price qty entry_time = record {
    its_signal = refl;
    its_side = refl;
    its_stop = refl;
    its_target = refl;
  }

  open_position-Leads :
      (validation : ValidationResult F) (qty : F) (entry : Entry F)
      → Leads Done (open_position h cfg fuel signal validation qty entry)
  unfolding open_position record_trade set_position_open
  open_position-Leads validation qty entry = record {
    at = λ w. record {
      calls = later (later idle Call.now) Call.now;
      outcome = Opening.entered _ (opened_lem _ _ _) refl refl refl refl;
    };
  }

  loosen :
      {price qty : F} (req : PlaceOrderRequest F) → IsEntryRequest signal price qty req → Safe req
  loosen req r = record {
    its_symbol = r.its_symbol;
    its_side = r.its_side;
    its_qty = refl;
    is_limit = r.is_limit;
    opens = r.opens;
    its_force = elim r.its_force [ inl f ↦ inl (f.0, refl) | inr f ↦ inr f ];
  }

  enter-Leads :
      (validation : ValidationResult F) (sized : QuantityResult F)
      → Leads Done (enter h cfg fuel signal validation sized)
  unfolding enter
  enter-Leads validation sized =
      Leads-if Opening-IsFramed sized.valid
        (Leads-bind Opening-IsFramed
          (Keeps-weaken loosen
            (execute_entry-Keeps h cfg fuel signal validation sized.normalized_qty_btc))
          (open_position-Leads validation sized.normalized_qty_btc))
        (Leads-raise Opening-IsFramed (quantity_rejected sized.reject_reason))

  size_up-Leads :
      (validation : ValidationResult F) (book : BookTicker F)
      (answer : Answer (List (AccountBalance F)))
      → Leads Done (size_up h cfg fuel signal validation book answer)
  unfolding size_up
  size_up-Leads validation book (failed why) = Leads-raise Opening-IsFramed (balance_failed why)
  size_up-Leads validation book (answered balances) =
      Leads-if Opening-IsFramed (fl.le (usdt_equity balances) zero_f)
        (Leads-raise Opening-IsFramed no_equity)
        (Leads-bind Opening-IsFramed (Keeps-get_risk get_current_risk) λ risk_pct.
          enter-Leads validation (
            calculate cfg.quantity (usdt_equity balances) risk_pct cfg.trade.initial_stop_loss_usd
              (fl.div (fl.add book.bid_price book.ask_price) (fl.literal 2 0)) (leverage cfg)))

  pass_gate-Leads : (book : Option (BookTicker F)) → Leads Done (pass_gate h cfg fuel signal book)
  unfolding pass_gate
  pass_gate-Leads none = Leads-raise Opening-IsFramed no_market_data
  pass_gate-Leads (some book) = Leads-bind Opening-IsFramed Keeps-now λ t.
      let validation = validate cfg.latency cfg.orders signal book (unix_milli t) in
      Leads-if Opening-IsFramed validation.valid
        (Leads-bind Opening-IsFramed Keeps-get_balance (size_up-Leads validation book))
        (Leads-raise Opening-IsFramed (rejected_by_gate validation.reject_reason))

  with_verdict-Leads : (verdict : Verdict) → Leads Done (with_verdict h cfg fuel signal verdict)
  unfolding with_verdict
  with_verdict-Leads (Verdict.refused why) = Leads-raise Opening-IsFramed (rejected_by_risk why)
  with_verdict-Leads Verdict.allowed = Leads-bind Opening-IsFramed Keeps-latest_book pass_gate-Leads

  reset-open :
      (today : String) (e : Engine F)
      → (maybe_reset_daily today e).has_open_position ≡ e.has_open_position
  unfolding maybe_reset_daily reset_daily
  reset-open today e = ground arith

  judged : Leads Done (judge h cfg fuel >>= with_verdict h cfg fuel signal)
  unfolding judge evaluate_signal
  judged = record {
    at = λ w.
        let done = (with_verdict-Leads _).at _ in
        record {
          calls = Calls-trans h Safe (later idle Call.now) done.calls;
          outcome = before-Opening refl (reset-open _ w.risk) refl refl done.outcome;
        };
  }

  -- A signal, whatever the outside answers, either ends with an error, and then the position, the risk
  -- engine's account of it and the monitor are what they were; or it ends well, and then the pipeline
  -- holds a position of the signal's side whose stop and target are the configured distances from its
  -- price, the risk engine counts it as open, and one more monitor runs, which can be cancelled. On the
  -- way it places no orders but limit orders of the signal's symbol and side that are not reduce-only.
  pub process_signal-Opening :
      (w : World F E)
      → let done = process_signal h cfg fuel signal w in
        Calls h (IsOrderOf signal) w.env done.1.env × Opening cfg signal w done.1 done.0
  unfolding process_signal
  process_signal-Opening w =
      let done = Leads-bind Opening-IsFramed Keeps-now λ t2.
        Leads-bind Opening-IsFramed
          (Keeps-latency (
            record_signal_received signal.signal_id signal.t0_tick_ms signal.t1_signal_ms
              (unix_milli t2)))
          λ _. judged in
      ((done.at w).calls, (done.at w).outcome)
