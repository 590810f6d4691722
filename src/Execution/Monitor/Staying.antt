-- ===== src/Execution/Monitor/Staying.antt =====
-- When a round of the monitor keeps the position.
use botbtc.Prelude.{
  ℕ, ℤ, leb_ℤ, ◌≡◌, ◌≢◌, ◌⊎◌, inl, inr, refl, arith, Bool-cases, Bool, false, Option, none, some,
  ◌∙◌,
}
use botbtc.Float.{Float64}
use botbtc.Config.{Config}
use botbtc.Bingx.{BookTicker, buy, sell}
use botbtc.Execution.State.{ActivePosition, Host, World, Result, ok, duration_of_ms, time_sub}
use botbtc.Execution.Exit.{ExitReason, pnl_at}
use botbtc.Risk.{is_kill_switch_active}
use botbtc.Execution.Monitor.{
  Progress, Round, continue, return, first_checks, check_times, trail, trailing_outcome,
  with_position, watch, tracked, exit_side_price, check_trailing, first_outcome, track_best,
  monitor_round,
}

module _ {F E : Type 0} ⦃fl : Float64 F⦄ (h : Host F E) (cfg : Config F) (fuel : ℕ) where
  returned :
      {progress : Progress F} → ◌≢◌ {A = Result F (Round F)} (ok return) (ok (continue progress))
  returned e = grind (arith, e)

  module _ (elapsed : ℤ) (price pnl : F) (progress progress' : Progress F) where
    check_times-stays :
        (p : ActivePosition F) (w : World F E)
        → (check_times h cfg fuel elapsed pnl p progress w).0 ≡ ok (continue progress')
        → leb_ℤ (duration_of_ms cfg.trade.max_trade_duration_ms) elapsed ≡ false
    unfolding check_times
    check_times-stays p w e =
        elim (Bool-cases (leb_ℤ (duration_of_ms cfg.trade.max_trade_duration_ms) elapsed)) [
          | inl late ↦ absurd (returned (rw late at e))
          | inr early ↦ early
        ]

    trailing_outcome-stays :
        (p : ActivePosition F) (reason : Option (ExitReason F)) (w : World F E)
        → (trailing_outcome h cfg fuel elapsed pnl p progress reason w).0 ≡ ok (continue progress')
        → (reason ≡ none) × (leb_ℤ (duration_of_ms cfg.trade.max_trade_duration_ms) elapsed ≡ false)
    unfolding trailing_outcome
    trailing_outcome-stays p none w e = (refl, check_times-stays p w e)
    trailing_outcome-stays p (some why) w e = absurd (returned e)

    first_outcome-stays :
        (p : ActivePosition F) (reason : Option (ExitReason F)) (w : World F E)
        → (first_outcome h cfg fuel elapsed price pnl p progress reason w).0
          ≡ ok (continue progress')
        → (reason ≡ none)
          × ((trail h cfg fuel price p).1 ≡ none)
          × (leb_ℤ (duration_of_ms cfg.trade.max_trade_duration_ms) elapsed ≡ false)
    unfolding first_outcome check_trailing
    first_outcome-stays p none w e =
        let later =
          trailing_outcome-stays (trail h cfg fuel price p).0 (trail h cfg fuel price p).1 _ e in
        (refl, later.0, later.1)
    first_outcome-stays p (some why) w e = absurd (returned e)

  -- The price at which the position would be left, the bid for a buyer and the ask for a seller, has
  -- reached neither its stop nor its target.
  abbrev pub IsBetween : ActivePosition F → BookTicker F → Type 0
  IsBetween p book =
      ((p.side ≡ buy)
        × (fl.le book.bid_price p.stop_loss ≡ false)
        × (fl.le p.take_profit book.bid_price ≡ false))
      ⊎ ((p.side ≡ sell)
          × (fl.le p.stop_loss book.ask_price ≡ false)
          × (fl.le book.ask_price p.take_profit ≡ false))

  track_best-same :
      (pnl : F) (p : ActivePosition F)
      → let q = track_best pnl p in
        (q.side ≡ p.side)
        × (q.stop_loss ≡ p.stop_loss)
        × (q.take_profit ≡ p.take_profit)
        × (q.entry_time ≡ p.entry_time)
  unfolding track_best
  track_best-same pnl p = ground arith

  first_checks-buy :
      (killed : Bool) (price : F) (q : ActivePosition F)
      → q.side ≡ buy
      → first_checks killed price q ≡ none
      → (killed ≡ false) × (fl.le price q.stop_loss ≡ false) × (fl.le q.take_profit price ≡ false)
  unfolding first_checks
  first_checks-buy killed price q is_buy = rw is_buy (ground arith)

  first_checks-sell :
      (killed : Bool) (price : F) (q : ActivePosition F)
      → q.side ≡ sell
      → first_checks killed price q ≡ none
      → (killed ≡ false) × (fl.le q.stop_loss price ≡ false) × (fl.le price q.take_profit ≡ false)
  unfolding first_checks
  first_checks-sell killed price q is_sell = rw is_sell (ground arith)

  first_checks-IsBetween :
      (killed : Bool) (book : BookTicker F) (pnl : F) (p : ActivePosition F)
      → (p.side ≡ buy) ⊎ (p.side ≡ sell)
      → first_checks killed (exit_side_price p book) (track_best pnl p) ≡ none
      → (killed ≡ false) × IsBetween p book
  first_checks-IsBetween killed book pnl p side e =
      let same = track_best-same pnl p in
      elim side [
        | inl is_buy ↦
            let f =
              first_checks-buy killed (exit_side_price p book) (track_best pnl p) (same.0 ∙ is_buy)
                e in
            (f.0, inl (is_buy, rw is_buy at (rw same.1 at f.1), rw is_buy at (rw same.2 at f.2)))
        | inr is_sell ↦
            let f =
              first_checks-sell killed (exit_side_price p book) (track_best pnl p)
                (same.0 ∙ is_sell) e in
            (f.0, inr (is_sell, rw is_sell at (rw same.1 at f.1), rw is_sell at (rw same.2 at f.2)))
      ]

  -- When a tick of the monitor, with a position of side BUY or SELL, a book and a context that is not
  -- done, leaves the monitor running, then the kill switch was off, the book's price for leaving the
  -- position had reached neither its stop nor its target, and its time was below the maximal duration.
  pub monitor_round-stays :
      (progress progress' : Progress F) (w : World F E) (p : ActivePosition F) (book : BookTicker F)
      → w.active_pos ≡ some p
      → (h.is_done w.env).0 ≡ false
      → (h.latest_book (h.is_done w.env).1).0 ≡ some book
      → (p.side ≡ buy) ⊎ (p.side ≡ sell)
      → (monitor_round h cfg fuel progress w).0 ≡ ok (continue progress')
      → let t = (h.now (h.latest_book (h.is_done w.env).1).1).0 in
        (w.risk.kill_switch_active ≡ false)
        × IsBetween p book
        × (leb_ℤ (duration_of_ms cfg.trade.max_trade_duration_ms) (time_sub t p.entry_time) ≡ false)
  unfolding monitor_round with_position watch tracked is_kill_switch_active
  monitor_round-stays progress progress' w p book held running seen side stays =
      let pnl = pnl_at p (exit_side_price p book) in
      let q = track_best pnl p in
      let t = (h.now (h.latest_book (h.is_done w.env).1).1).0 in
      let s =
        first_outcome-stays (time_sub t q.entry_time) (exit_side_price p book) pnl progress
          progress' q (first_checks w.risk.kill_switch_active (exit_side_price p book) q) _
          (rw (running, held, seen) at stays) in
      let first = first_checks-IsBetween w.risk.kill_switch_active book pnl p side s.0 in
      (first.0, first.1, rw (track_best-same pnl p).3 at s.2)
