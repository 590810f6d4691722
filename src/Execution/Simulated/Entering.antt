-- ===== src/Execution/Simulated/Entering.antt =====
-- Entering over the paper client.
use botbtc.Prelude.{
  ℕ, suc, ℤ, ◌≡◌, refl, ap, ◌∙◌, some, [], ◌∷◌, ◌++◌, String, eq_refl, concat, inc64,
}
use botbtc.Float.{Float64, zero_f}
use botbtc.Config.{Config}
use botbtc.Model.{Signal}
use botbtc.Orders.{created, create_order}
use botbtc.Gate.{ValidationResult}
use botbtc.Bingx.{PlaceOrderRequest, OrderInfo, tif_post_only}
use botbtc.Bingx.Paper
use botbtc.Bingx.Paper.{PaperClient, get_order, fill_price_of, filled_info, opened_position}
use botbtc.Bingx.Paper.Fills.{get_order-place_order}
use botbtc.Bingx.Paper.Closing.{fee_of, place_order-opens}
use botbtc.Execution.State.{World, ok, duration_of_ms, unix_milli}
use botbtc.Execution.Poll.{poll_order_fill}
use botbtc.Execution.Entry.{Entry, entry_request, execute_entry}
use botbtc.Execution.Entry.Filled.{execute_entry-filled}
use botbtc.Execution.Live.{Outside}
use botbtc.Execution.Simulated.{paper_host}
use botbtc.Execution.Simulated.Polling.{IsCalm, poll-fills}

module _ {F E : Type 0} ⦃fl : Float64 F⦄ (out : Outside F E) (decimal : ℤ → String) (cfg : Config F)
    (calm : IsCalm out (duration_of_ms cfg.orders.maker_probe_timeout_ms)) (fuel : ℕ)
    (signal : Signal F) (validation : ValidationResult F) (qty : F) (key : String)
    (w : World F (PaperClient F × E)) where
  -- The maker probe.
  abbrev pub asking : PlaceOrderRequest F
  asking =
      entry_request (paper_host out decimal) cfg (suc fuel) signal tif_post_only
        validation.suggested_entry qty key

  -- The readings of the clock before the probe: for the start, the date of the id, the creation of the
  -- order, and its sending.
  abbrev next : E → E
  next e = (out.now e).1

  abbrev dated_at : E
  dated_at = next w.env.1

  abbrev pub sent_at : E
  sent_at = next (next (next dated_at))

  -- The time at which the paper client fills it.
  abbrev filled_at : ℤ
  filled_at = unix_milli (out.now sent_at).0

  abbrev pub after_fill : PaperClient F
  after_fill = (Paper.place_order decimal filled_at asking w.env.0).0

  abbrev filled : OrderInfo F
  filled =
      filled_info filled_at (concat "PAPER-" (decimal (inc64 w.env.0.order_seq)))
        (fill_price_of asking w.env.0) asking w.env.0

  placed-found : get_order key after_fill ≡ some filled
  placed-found = get_order-place_order decimal filled_at asking w.env.0 key ∙ rw (eq_refl key) refl

  -- The outside when the polling begins and when it has ended.
  abbrev polled_from : PaperClient F × E
  polled_from = (after_fill, next (next sent_at))

  abbrev polled_to : PaperClient F × E
  polled_to = (after_fill, (out.is_done (next (next polled_from.1))).1)

  probe-polled :
      (v : World F (PaperClient F × E))
      → v.env ≡ polled_from
      → let polled =
          poll_order_fill
            (paper_host out decimal)
            (suc fuel)
            signal.symbol
            key
            (duration_of_ms cfg.orders.maker_probe_timeout_ms)
            v in
        (polled.0 ≡ ok (some filled)) × (polled.1.env ≡ polled_to)
  probe-polled v same =
      let found = ap (λ (s : PaperClient F × E). get_order key s.0) same ∙ placed-found in
      let polled =
        poll-fills out decimal (duration_of_ms cfg.orders.maker_probe_timeout_ms) calm fuel
          signal.symbol key filled v found refl in
      (
        ap (λ r. r.0) polled,
        ap (λ r. r.1.env) polled
            ∙ ap (λ (s : PaperClient F × E). (s.0, (out.is_done (next (next s.1))).1)) same,
      )

  -- Over the paper client an entry whose order id is new is filled by its post-only probe, on a calm clock:
  -- the entry is that order at the fill price, and the paper client has been given that one order, so it
  -- holds one position more and has paid the fee.
  pub execute_entry-simulated :
      (create_order out.two_digits
          (out.compact_date (out.now dated_at).0)
          zero_f
          (out.now (next dated_at)).0
          signal
          "entry"
          validation.suggested_entry
          qty
          w.orders).1
        ≡ created key
      → let done = execute_entry (paper_host out decimal) cfg (suc fuel) signal validation qty w in
        let price = fill_price_of asking w.env.0 in
        ((entry : Entry F) × (done.0 ≡ ok entry)
          × (entry.order_key ≡ key)
          × (entry.avg_fill_price ≡ price))
        × (done.1.env.0.positions ≡ w.env.0.positions ++ (opened_position price asking ∷ []))
        × (done.1.env.0.simulated_balance
            ≡ fl.sub w.env.0.simulated_balance (fee_of asking w.env.0))
  unfolding paper_host
  execute_entry-simulated new_id =
      let entered =
        execute_entry-filled (paper_host out decimal) cfg (suc fuel) signal validation qty key
          (Paper.place_order decimal filled_at asking w.env.0).1 filled polled_to w new_id refl
          probe-polled in
      let opens = place_order-opens decimal filled_at asking w.env.0 refl in
      (
        (_, entered.0, refl, refl),
        ap (λ s. s.0.positions) entered.1 ∙ opens.0,
        ap (λ s. s.0.simulated_balance) entered.1 ∙ opens.1,
      )
