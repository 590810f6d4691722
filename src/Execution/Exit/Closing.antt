-- ===== src/Execution/Exit/Closing.antt =====
-- How an exit ends, and the orders that it places.
use mathlib.Core.Path.{subst}
use botbtc.Prelude.{
  ℕ, pos, ◌≡◌, refl, ◌∙◌, sym, true, false, Option, none, some, String, str_eq, if◌then◌else◌,
}
use botbtc.Float.{Float64}
use botbtc.Config.{Config}
use botbtc.Risk.{set_position_open}
use botbtc.Bingx.{PlaceOrderRequest, PlaceOrderResponse, OrderInfo, BookTicker, buy, sell, tif_ioc}
use botbtc.Execution.State.{
  ActivePosition, Host, World, Error, Answer, answered, failed, Result, ok, err, place_failed,
  no_market_data, no_active_position,
}
use botbtc.Execution.Frames.{
  Call, Calls, idle, later, Calls-trans, IsQuiet, Keeps, Keeps-pure, keeps_rules, Keeps-latest_book,
  Keeps-place_order,
}
use botbtc.Execution.Outcomes.{IsFramed, Leads, Leads-bind, Leads-raise}
use botbtc.Execution.Poll.{poll_order_fill}
use botbtc.Execution.Poll.Quiet.{poll_order_fill-Keeps, cancel_order_safe-Keeps}
use botbtc.Execution.Exit.{
  ExitReason, exit_request, exit_price_of, reprice_of, exit_id_of, try_poll, reprice_outcome,
  reprice_answer, reprice, settle, finish, exit_answer, exit_book, close_position, execute_exit,
}

-- A reduce-only immediate-or-cancel limit order for the whole position, on its other side.
pub record IsExitRequest {F : Type 0} (cfg : Config F) (p : ActivePosition F)
    (req : PlaceOrderRequest F) : Type 0 where
  pub its_symbol : req.symbol ≡ cfg.bingx.symbol
  pub its_side : req.side ≡ (if str_eq p.side buy then sell else buy)
  pub its_qty : req.quantity ≡ p.quantity
  pub reduces : req.reduce_only ≡ true
  pub its_force : req.time_in_force ≡ tif_ioc

-- An exit has either ended well, and there is no position, in the pipeline or the risk engine, and no
-- monitor; or with an error, and position, risk engine and monitor are what they were.
pub data Exited {F E : Type 0} (w : World F E) (w' : World F E) : Result F (Unit {0}) → Type 0 where
  closed :
      w'.active_pos ≡ none
      → w'.risk.has_open_position ≡ false
      → w'.monitor_cancel ≡ false
      → w'.monitors ≡ w.monitors
      → Exited w w' (ok tt)
  kept :
      (e : Error F)
      → w'.active_pos ≡ w.active_pos
      → w'.risk ≡ w.risk
      → w'.monitor_cancel ≡ w.monitor_cancel
      → w'.monitors ≡ w.monitors
      → Exited w w' (err e)

pub record ExitDone {F E : Type 0} (h : Host F E) (Safe : PlaceOrderRequest F → Type 0)
    (w : World F E) (r : Result F (Unit {0})) (w' : World F E) : Type 0 where
  pub calls : Calls h Safe w.env w'.env
  pub outcome : Exited w w' r

module _ {F E : Type 0} (h : Host F E) (Safe : PlaceOrderRequest F → Type 0) where
  Exited-before :
      {u v w : World F E} {r : Result F (Unit {0})}
      → IsQuiet h Safe u v
      → Exited v w r
      → Exited u w r
  Exited-before q (closed p o c n) = Exited.closed p o c (n ∙ q.same_monitors)
  Exited-before q (kept e p o c n) =
      Exited.kept e (p ∙ q.same_pos) (o ∙ q.same_risk) (c ∙ q.same_cancel) (n ∙ q.same_monitors)

  pub ExitDone-IsFramed : IsFramed h Safe (ExitDone h Safe)
  ExitDone-IsFramed = record {
    before = λ q d. record {
      calls = Calls-trans h Safe q.calls d.calls;
      outcome = Exited-before q d.outcome;
    };
    quit = λ e q. record {
      calls = q.calls;
      outcome = Exited.kept e q.same_pos q.same_risk q.same_cancel q.same_monitors;
    };
  }

module _ {F E : Type 0} ⦃fl : Float64 F⦄ (h : Host F E) (cfg : Config F) (fuel : ℕ)
    (p : ActivePosition F) where
  abbrev Safe : PlaceOrderRequest F → Type 0
  Safe = IsExitRequest cfg p

  abbrev Done : World F E → Result F (Unit {0}) → World F E → Type 0
  Done = ExitDone h Safe

  exit_safe : (price : F) (id : String) → Safe (exit_request h cfg fuel p price id)
  exit_safe price id = record {
    its_symbol = refl;
    its_side = refl;
    its_qty = refl;
    reduces = refl;
    its_force = refl;
  }

  poll-IsQuiet :
      {w : World F E} (polled : Result F (Option (OrderInfo F)) × World F E)
      → IsQuiet h Safe w polled.1
      → IsQuiet h Safe w
          (elim polled.0 as (λ _. Result F (Option (OrderInfo F)) × World F E) [
            | ok outcome ↦ (ok outcome, polled.1)
            | err e ↦ (ok none, polled.1)
          ]).1
  poll-IsQuiet (ok outcome, w') q = q
  poll-IsQuiet (err e, w') q = q

  try_poll-Keeps : (id : String) → Keeps h Safe (try_poll h cfg fuel id)
  unfolding try_poll
  try_poll-Keeps id = record {
    at = λ w.
        poll-IsQuiet (poll_order_fill h fuel cfg.bingx.symbol id (pos 3_000_000_000) w)
          ((poll_order_fill-Keeps h Safe fuel cfg.bingx.symbol id (pos 3_000_000_000)).at w);
  }

  reprice_outcome-Keeps :
      (id : String) (fill : Option (OrderInfo F))
      → Keeps h Safe (reprice_outcome h cfg fuel id fill)
  unfolding reprice_outcome
  reprice_outcome-Keeps id (some info) = Keeps-pure (some info)
  reprice_outcome-Keeps id none = search (keeps_rules, cancel_order_safe-Keeps)

  reprice_answer-Keeps :
      (id : String) (answer : Answer PlaceOrderResponse)
      → Keeps h Safe (reprice_answer h cfg fuel id answer)
  unfolding reprice_answer
  reprice_answer-Keeps id (failed why) = Keeps-pure none
  reprice_answer-Keeps id (answered response) =
      search (keeps_rules, try_poll-Keeps, reprice_outcome-Keeps)

  reprice-Keeps : (book : BookTicker F) → Keeps h Safe (reprice h cfg fuel p book)
  unfolding reprice
  reprice-Keeps book =
      search (keeps_rules, exit_safe, cancel_order_safe-Keeps, reprice_answer-Keeps) depth 12

  settle-Leads :
      (limit : F) (fill : Option (OrderInfo F)) → Leads Done (settle h cfg fuel p limit fill)
  unfolding settle set_position_open
  settle-Leads limit fill = record {
    at = λ w. record {
      calls = later (later idle Call.now) Call.now;
      outcome = Exited.closed refl refl refl refl;
    };
  }

  finish-Leads :
      (book : BookTicker F) (fill : Option (OrderInfo F))
      → Leads Done (finish h cfg fuel p book fill)
  unfolding finish
  finish-Leads book (some info) = settle-Leads (exit_price_of h cfg fuel p book) (some info)
  finish-Leads book none =
      Leads-bind (ExitDone-IsFramed h Safe) (reprice-Keeps book)
        (settle-Leads (reprice_of h cfg fuel p book))

  exit_answer-Leads :
      (book : BookTicker F) (answer : Answer PlaceOrderResponse)
      → Leads Done (exit_answer h cfg fuel p book answer)
  unfolding exit_answer
  exit_answer-Leads book (failed why) = Leads-raise (ExitDone-IsFramed h Safe) (place_failed why)
  exit_answer-Leads book (answered response) =
      Leads-bind (ExitDone-IsFramed h Safe)
        (poll_order_fill-Keeps h Safe fuel cfg.bingx.symbol (exit_id_of h cfg fuel p)
          (pos 5_000_000_000))
        (finish-Leads book)

  exit_book-Leads : (book : Option (BookTicker F)) → Leads Done (exit_book h cfg fuel p book)
  unfolding exit_book
  exit_book-Leads none = Leads-raise (ExitDone-IsFramed h Safe) no_market_data
  exit_book-Leads (some book) =
      let id = exit_id_of h cfg fuel p in
      let price = exit_price_of h cfg fuel p book in
      Leads-bind (ExitDone-IsFramed h Safe)
        (Keeps-place_order (exit_request h cfg fuel p price id) (exit_safe price id))
        (exit_answer-Leads book)

  close_position-Leads : Leads Done (close_position h cfg fuel (some p))
  unfolding close_position
  close_position-Leads = Leads-bind (ExitDone-IsFramed h Safe) Keeps-latest_book exit_book-Leads

  -- Leaving a position, whatever the exchange answers: every order placed on the way is a reduce-only
  -- immediate-or-cancel order for the whole position on its other side; after a success the pipeline and
  -- the risk engine hold no position and there is no monitor to cancel, and after an error position, risk
  -- engine and monitor are what they were.
  pub execute_exit-Exited :
      (reason : ExitReason F) (w : World F E)
      → w.active_pos ≡ some p
      → let done = execute_exit h cfg fuel reason w in
        Calls h (IsExitRequest cfg p) w.env done.1.env × Exited w done.1 done.0
  unfolding execute_exit
  execute_exit-Exited reason w e =
      let done = close_position-Leads.at w in
      subst
        (λ held.
          let done' = close_position h cfg fuel held w in
          Calls h Safe w.env done'.1.env × Exited w done'.1 done'.0)
        (sym e) (done.calls, done.outcome)

module _ {F E : Type 0} ⦃fl : Float64 F⦄ (h : Host F E) (cfg : Config F) (fuel : ℕ) where
  -- Without a position an exit does nothing.
  pub execute_exit-none :
      (reason : ExitReason F) (w : World F E)
      → w.active_pos ≡ none
      → execute_exit h cfg fuel reason w ≡ (err no_active_position, w)
  unfolding execute_exit close_position
  execute_exit-none reason w e =
      subst (λ held. close_position h cfg fuel held w ≡ (err no_active_position, w)) (sym e) refl
