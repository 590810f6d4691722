-- ===== src/Execution/Simulated/Exiting.antt =====
-- Leaving a position over the paper client.
use botbtc.Prelude.{
  ℕ, suc, ℤ, pos, ◌≡◌, refl, ap, ◌∙◌, inl, inr, true, false, none, some, String, eq_refl, concat,
  inc64, [], ◌∷◌,
}
use botbtc.Float.{Float64, zero_f}
use botbtc.Config.{Config}
use botbtc.Bingx.{PlaceOrderRequest, BookTicker, PositionInfo}
use botbtc.Bingx.Paper
use botbtc.Bingx.Paper.{PaperClient, get_order, fill_price_of, filled_info, pnl_of}
use botbtc.Bingx.Paper.Fills.{get_order-place_order}
use botbtc.Bingx.Paper.Trades.{IsOpposite, IsLeft, pnl_of-IsLeft}
use botbtc.Bridge.Words.{IsSide}
use botbtc.Bingx.Paper.Closing.{place_order-closes}
use botbtc.Execution.State.{ActivePosition, World, ok, unix_milli}
use botbtc.Execution.Exit.{ExitReason, exit_request, exit_price_of, exit_id_of, execute_exit}
use botbtc.Execution.Exit.Filled.{execute_exit-filled}
use botbtc.Execution.Live.{Outside}
use botbtc.Execution.Simulated.{paper_host}
use botbtc.Execution.Simulated.Polling.{IsCalm, poll-fills}

module _ {F E : Type 0} ⦃fl : Float64 F⦄ (out : Outside F E) (decimal : ℤ → String)
    (calm : IsCalm out (pos 5_000_000_000)) (fuel : ℕ) where
  module _ (cfg : Config F) (w : World F (PaperClient F × E)) (p : ActivePosition F)
      (book : BookTicker F) where
    abbrev pub leaving : PlaceOrderRequest F
    leaving =
        let h = paper_host out decimal in
        exit_request h cfg (suc fuel) p (exit_price_of h cfg (suc fuel) p book)
          (exit_id_of h cfg (suc fuel) p)

    -- The time at which the paper client fills it.
    abbrev filled_at : ℤ
    filled_at = unix_milli (out.now (out.latest_book w.env.1).1).0

    abbrev pub after_fill : PaperClient F
    after_fill = (Paper.place_order decimal filled_at leaving w.env.0).0

    placed-found :
        get_order leaving.client_order_id after_fill
        ≡ some (
            filled_info filled_at
              (concat "PAPER-" (decimal (inc64 w.env.0.order_seq)))
              (fill_price_of leaving w.env.0)
              leaving
              w.env.0)
    placed-found =
        get_order-place_order decimal filled_at leaving w.env.0 leaving.client_order_id
        ∙ rw (eq_refl leaving.client_order_id) refl

    exit-settled :
        (reason : ExitReason F)
        → w.active_pos ≡ some p
        → (out.latest_book w.env.1).0 ≡ some book
        → let done = execute_exit (paper_host out decimal) cfg (suc fuel) reason w in
          (done.0 ≡ ok tt)
          × (done.1.active_pos ≡ none)
          × (done.1.risk.has_open_position ≡ false)
          × (done.1.env.0 ≡ after_fill)
    unfolding paper_host
    exit-settled reason held seen =
        let h = paper_host out decimal in
        let e = (out.now (out.latest_book w.env.1).1).1 in
        let asked = record w { env = (after_fill, e) } in
        let settled = execute_exit-filled h cfg (suc fuel) p book _ _ reason w _ held seen refl (
          poll-fills out decimal (pos 5_000_000_000) calm fuel cfg.bingx.symbol
            leaving.client_order_id _ asked placed-found refl) in
        (settled.0, settled.1, settled.2, ap (λ s. s.0) settled.3)

    leaving-IsOpposite : IsSide p.side → IsOpposite p.side leaving.side
    leaving-IsOpposite (inl is_buy) = rw is_buy (inl (refl, refl))
    leaving-IsOpposite (inr is_sell) = rw is_sell (inr (refl, refl))

    -- Over the paper client, with a book, a ticker of its own, a context that is not done and readings of
    -- the clock in a row less than five seconds apart, leaving the pipeline's position while the paper
    -- client holds one position, of the same side and not more than the pipeline's positive quantity,
    -- succeeds. Pipeline, risk engine and paper client then hold no position, and the paper client's
    -- balance has changed by the fee on the exit price and by the profit; that price is the ticker's bid
    -- for a position that was bought and its ask for one that was sold.
    pub execute_exit-simulated :
        (reason : ExitReason F) (position : PositionInfo F) (bt : BookTicker F)
        → w.active_pos ≡ some p
        → (out.latest_book w.env.1).0 ≡ some book
        → w.env.0.book_ticker ≡ some bt
        → w.env.0.positions ≡ position ∷ []
        → IsSide p.side
        → position.side ≡ p.side
        → fl.le p.quantity zero_f ≡ false
        → fl.le position.quantity p.quantity ≡ true
        → let done = execute_exit (paper_host out decimal) cfg (suc fuel) reason w in
          (done.0 ≡ ok tt)
          × (done.1.active_pos ≡ none)
          × (done.1.risk.has_open_position ≡ false)
          × (done.1.env.0.positions ≡ [])
          × ((exit : F) × (profit : F) × IsLeft bt p.side position.quantity position.entry_price
                exit profit
              × (done.1.env.0.simulated_balance
                  ≡ fl.add
                      (fl.sub w.env.0.simulated_balance
                        (fl.mul (fl.mul exit p.quantity) w.env.0.taker_rate))
                      profit))
    execute_exit-simulated reason position bt held seen known only sided same positive enough =
        let settled = exit-settled reason held seen in
        let closed =
          place_order-closes decimal filled_at leaving position w.env.0 refl only positive enough in
        (
          settled.0,
          settled.1,
          settled.2,
          ap (λ c. c.positions) settled.3 ∙ closed.0,
          (
            fill_price_of leaving w.env.0,
            pnl_of position position.quantity (fill_price_of leaving w.env.0),
            pnl_of-IsLeft leaving bt p.side position.quantity position w.env.0
                (leaving-IsOpposite sided) same known,
            ap (λ c. c.simulated_balance) settled.3 ∙ closed.1,
          ),
        )
