-- ===== src/Bingx/Paper/Fills.antt =====
-- The orders of the paper client.
use botbtc.Prelude.{
  ℤ, ◌≡◌, refl, arith, Bool, true, false, not, ◌&&◌, Option, none, some, [], ◌∷◌, String, str_eq,
  Dict, lookup, insert, lookup-insert, inc64, concat, if◌then◌else◌,
}
use botbtc.Float.{Float64}
use botbtc.Bingx.{PlaceOrderRequest, OrderInfo, BookTicker}
use botbtc.Bingx.Paper.{
  PaperClient, new_paper_client, set_book_ticker, get_book_ticker, close_positions, fill_price_of,
  filled_info, place_order, cancel_order, get_order, open_of, get_open_orders,
}

module _ {F : Type 0} ⦃fl : Float64 F⦄ where
  place_order-orders :
      (decimal : ℤ → String) (now : ℤ) (req : PlaceOrderRequest F) (p : PaperClient F)
      → (place_order decimal now req p).0.orders
        ≡ insert req.client_order_id
            (filled_info now
              (concat "PAPER-" (decimal (inc64 p.order_seq)))
              (fill_price_of req p)
              req
              p)
            p.orders
  unfolding place_order close_positions
  place_order-orders decimal now req p = ground arith

  -- After an order was placed, asking for its id gives an order that is FILLED, for the whole quantity
  -- at the fill price, and asking for any other id gives what it gave before.
  pub get_order-place_order :
      (decimal : ℤ → String) (now : ℤ) (req : PlaceOrderRequest F) (p : PaperClient F) (id : String)
      → get_order id (place_order decimal now req p).0 ≡ (
          if str_eq req.client_order_id id
          then some (
              filled_info now
                (concat "PAPER-" (decimal (inc64 p.order_seq)))
                (fill_price_of req p)
                req
                p)
          else get_order id p)
  unfolding get_order
  get_order-place_order decimal now req p id = rw (place_order-orders decimal now req p) (
      lookup-insert req.client_order_id id
        (filled_info now (concat "PAPER-" (decimal (inc64 p.order_seq))) (fill_price_of req p) req
          p)
        p.orders)

  -- The calls on the client that change it.
  pub data Step (decimal : ℤ → String) (p : PaperClient F) : PaperClient F → Type 0 where
    placed :
        (now : ℤ) (req : PlaceOrderRequest F) → Step decimal p (place_order decimal now req p).0
    cancelled : (now : ℤ) (id : String) → Step decimal p (cancel_order now id p).0
    ticked :
        (fetched : Option (BookTicker F)) (now : ℤ)
        → Step decimal p (get_book_ticker fetched now p).0
    told : (bt : BookTicker F) → Step decimal p (set_book_ticker bt p)

  pub data Run (decimal : ℤ → String) (p : PaperClient F) : PaperClient F → Type 0 where
    start : Run decimal p p
    later : {q r : PaperClient F} → Run decimal p q → Step decimal q r → Run decimal p r

  -- `FILLED` or `CANCELLED`
  abbrev is_done : OrderInfo F → Bool
  is_done info = not (not (str_eq info.status "FILLED") && not (str_eq info.status "CANCELLED"))

  open_of-insert :
      (id : String) (info : OrderInfo F) (orders : Dict (OrderInfo F))
      → is_done info ≡ true
      → open_of orders ≡ []
      → open_of (insert id info orders) ≡ []
  unfolding open_of insert
  open_of-insert id info [] d e = ground arith
  open_of-insert id info ((k, other) ∷ orders) d e = ground (arith, open_of-insert id info orders d)

  Step-open :
      {decimal : ℤ → String} {p q : PaperClient F}
      → Step decimal p q
      → open_of p.orders ≡ []
      → open_of q.orders ≡ []
  unfolding get_book_ticker set_book_ticker cancel_order
  Step-open {decimal} {p} (placed now req) e =
      rw (place_order-orders decimal now req p)
        (open_of-insert req.client_order_id _ p.orders refl e)
  Step-open {p = p} (cancelled now id) e = of (lookup id p.orders)
    where
      of :
          (found : Option (OrderInfo F))
          → open_of
              (elim found as (λ _. PaperClient F × Bool) [
                | none ↦ (p, false)
                | some info ↦ (
                  record p {
                    orders =
                        insert id
                          (record info { status = "CANCELLED"; update_time = now })
                          p.orders;
                  },
                  true,
                )
              ]).0.orders
            ≡ []
      of none = e
      of (some info) = open_of-insert id _ p.orders refl e
  Step-open (ticked none now) e = e
  Step-open (ticked (some bt) now) e = e
  Step-open (told bt) e = e

  Run-open :
      {decimal : ℤ → String} {p q : PaperClient F}
      → Run decimal p q
      → open_of p.orders ≡ []
      → open_of q.orders ≡ []
  Run-open start e = e
  Run-open (later r s) e = Step-open s (Run-open r e)

  -- A paper client has no open order at any time: every order is filled at once or cancelled.
  pub no_open_orders :
      (decimal : ℤ → String) (symbol : String) (balance : F) {p : PaperClient F}
      → Run decimal (new_paper_client symbol balance) p
      → get_open_orders p ≡ []
  unfolding new_paper_client get_open_orders open_of
  no_open_orders decimal symbol balance r = Run-open r refl
