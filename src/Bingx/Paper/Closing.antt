-- ===== src/Bingx/Paper/Closing.antt =====
-- The positions of the paper client.
use botbtc.Prelude.{
  ℤ, ◌≡◌, refl, arith, ap, ◌∙◌, true, false, some, [], ◌∷◌, ◌++◌, String, inc64, concat, insert,
}
use botbtc.Float.{Float64, zero_f, IsNumber}
use botbtc.Bingx.{PlaceOrderRequest, PositionInfo, BookTicker}
use botbtc.Bingx.Paper.Trades.{IsOpposite, IsTaken, IsLeft, fill_price_of-IsTaken, pnl_of-IsLeft}
use botbtc.Bingx.Paper.{
  PaperClient, set_book_ticker, pnl_of, close_one, close_all, close_positions, fill_price_of,
  filled_info, opened_position, place_order,
}

module _ {F : Type 0} ⦃fl : Float64 F⦄ where
  abbrev pub fee_of : PlaceOrderRequest F → PaperClient F → F
  fee_of req p = fl.mul (fl.mul (fill_price_of req p) req.quantity) p.taker_rate

  pub place_order-opens :
      (decimal : ℤ → String) (now : ℤ) (req : PlaceOrderRequest F) (p : PaperClient F)
      → req.reduce_only ≡ false
      → let done = (place_order decimal now req p).0 in
        (done.positions ≡ p.positions ++ (opened_position (fill_price_of req p) req ∷ []))
        × (done.simulated_balance ≡ fl.sub p.simulated_balance (fee_of req p))
        × (done.taker_rate ≡ p.taker_rate)
  unfolding place_order
  place_order-opens decimal now req p opens = rw opens (refl, refl, refl)

  close_positions-only :
      (qty price : F) (position : PositionInfo F) (p : PaperClient F)
      → p.positions ≡ position ∷ []
      → fl.le qty zero_f ≡ false
      → fl.le position.quantity qty ≡ true
      → ((close_positions qty price p).positions ≡ [])
        × ((close_positions qty price p).simulated_balance
            ≡ fl.add p.simulated_balance (pnl_of position position.quantity price))
  unfolding close_positions close_all close_one
  close_positions-only qty price position p only positive enough =
      rw (only, positive, enough) (refl, refl)

  abbrev charged : (ℤ → String) → ℤ → PlaceOrderRequest F → PaperClient F → PaperClient F
  charged decimal now req p = record p {
    order_seq = inc64 p.order_seq;
    orders =
        insert req.client_order_id
          (filled_info now (concat "PAPER-" (decimal (inc64 p.order_seq))) (fill_price_of req p) req
            p)
          p.orders;
    simulated_balance = fl.sub p.simulated_balance (fee_of req p);
  }

  place_order-reduces :
      (decimal : ℤ → String) (now : ℤ) (req : PlaceOrderRequest F) (p : PaperClient F)
      → req.reduce_only ≡ true
      → (place_order decimal now req p).0
        ≡ close_positions req.quantity (fill_price_of req p) (charged decimal now req p)
  unfolding place_order
  place_order-reduces decimal now req p closes = ground arith

  -- Closing the quantity of the only position.
  pub place_order-closes :
      (decimal : ℤ → String) (now : ℤ) (req : PlaceOrderRequest F) (position : PositionInfo F)
      (p : PaperClient F)
      → req.reduce_only ≡ true
      → p.positions ≡ position ∷ []
      → fl.le req.quantity zero_f ≡ false
      → fl.le position.quantity req.quantity ≡ true
      → let done = (place_order decimal now req p).0 in
        (done.positions ≡ [])
        × (done.simulated_balance
            ≡ fl.add
                (fl.sub p.simulated_balance (fee_of req p))
                (pnl_of position position.quantity (fill_price_of req p)))
  place_order-closes decimal now req position p closes only positive enough =
      rw (place_order-reduces decimal now req p closes) (
        close_positions-only req.quantity (fill_price_of req p) position (charged decimal now req p)
          only positive enough)

  -- An order that opens a position and then, when the ticker has moved, a reduce-only order of the other
  -- side for the same positive quantity leave a client that had no position without one again. The
  -- position was taken and left at the two tickers' prices for its side; the balance has changed by the
  -- fee on each price, both at the client's rate, and by the profit.
  pub open_close :
      (decimal : ℤ → String) (now now' : ℤ) (bt bt' : BookTicker F) (req req' : PlaceOrderRequest F)
      (p : PaperClient F)
      → p.positions ≡ []
      → p.book_ticker ≡ some bt
      → req.reduce_only ≡ false
      → req'.reduce_only ≡ true
      → IsOpposite req.side req'.side
      → req'.quantity ≡ req.quantity
      → IsNumber req.quantity
      → fl.le req.quantity zero_f ≡ false
      → let q = set_book_ticker bt' (place_order decimal now req p).0 in
        let done = (place_order decimal now' req' q).0 in
        (done.positions ≡ [])
        × ((entry : F) × (exit : F) × (profit : F) × IsTaken bt req.side entry
            × IsLeft bt' req.side req.quantity entry exit profit
            × (done.simulated_balance
                ≡ fl.add
                    (fl.sub
                      (fl.sub p.simulated_balance (fl.mul (fl.mul entry req.quantity) p.taker_rate))
                      (fl.mul (fl.mul exit req.quantity) p.taker_rate))
                    profit))
  unfolding set_book_ticker
  open_close decimal now now' bt bt' req req' p none_yet known opens closes sides same number
        positive =
      let opened = place_order-opens decimal now req p opens in
      let q = set_book_ticker bt' (place_order decimal now req p).0 in
      let position = opened_position (fill_price_of req p) req in
      let closed =
        place_order-closes decimal now' req' position q closes
          (opened.0 ∙ ap (λ l. l ++ (position ∷ [])) none_yet) (rw same positive)
          (rw same number) in
      (
        closed.0,
        (
          fill_price_of req p,
          fill_price_of req' q,
          pnl_of position req.quantity (fill_price_of req' q),
          fill_price_of-IsTaken req bt req'.side p sides known,
          pnl_of-IsLeft req' bt' req.side req.quantity position q sides refl refl,
          closed.1 ∙ rw (opened.1, opened.2, same) refl,
        ),
      )
