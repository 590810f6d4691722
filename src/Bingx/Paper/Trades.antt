-- ===== src/Bingx/Paper/Trades.antt =====
-- The prices of the paper client's fills, and the profit of a position that is left.
use botbtc.Prelude.{◌≡◌, ◌⊎◌, refl, inl, inr, some, String}
use botbtc.Float.{Float64}
use botbtc.Bingx.{PlaceOrderRequest, PositionInfo, BookTicker, buy, sell}
use botbtc.Bingx.Paper.{PaperClient, pnl_of, fill_price_of}

-- One side is BUY and the other SELL.
abbrev pub IsOpposite : (side other : String) → Type 0
IsOpposite side other = ((side ≡ buy) × (other ≡ sell)) ⊎ ((side ≡ sell) × (other ≡ buy))

module _ {F : Type 0} ⦃fl : Float64 F⦄ where
  -- The price at a book for a side: a buyer pays the ask, a seller gets the bid.
  abbrev pub IsTaken : BookTicker F → (side : String) → F → Type 0
  IsTaken bt side price =
      ((side ≡ buy) × (price ≡ bt.ask_price)) ⊎ ((side ≡ sell) × (price ≡ bt.bid_price))

  -- The exit price and the profit of a position that is left at a book: one that was bought is sold at
  -- the bid and gains what the price rose from the entry, one that was sold is bought back at the ask and
  -- gains what it fell, by the quantity.
  pub data IsLeft (bt : BookTicker F) (side : String) (qty entry : F)
      : (exit profit : F) → Type 0 where
    long :
        side ≡ buy → IsLeft bt side qty entry bt.bid_price (fl.mul (fl.sub bt.bid_price entry) qty)
    short :
        side ≡ sell
        → IsLeft bt side qty entry bt.ask_price (fl.neg (fl.mul (fl.sub bt.ask_price entry) qty))

  pub fill_price_of-IsTaken :
      (req : PlaceOrderRequest F) (bt : BookTicker F) (other : String) (p : PaperClient F)
      → IsOpposite req.side other
      → p.book_ticker ≡ some bt
      → IsTaken bt req.side (fill_price_of req p)
  unfolding fill_price_of
  fill_price_of-IsTaken req bt other p sides known = elim sides [
    | inl (is_buy, is_sell) ↦ inl (is_buy, rw (known, is_buy) refl)
    | inr (is_sell, is_buy) ↦ inr (is_sell, rw (known, is_sell) refl)
  ]

  pub pnl_of-IsLeft :
      (req : PlaceOrderRequest F) (bt : BookTicker F) (side : String) (qty : F)
      (position : PositionInfo F) (p : PaperClient F)
      → IsOpposite side req.side
      → position.side ≡ side
      → p.book_ticker ≡ some bt
      → IsLeft bt side qty position.entry_price
          (fill_price_of req p)
          (pnl_of position qty (fill_price_of req p))
  unfolding fill_price_of
  pnl_of-IsLeft req bt side qty position p sides same known = elim sides [
    | inl (is_buy, is_sell) ↦ rw (known, is_sell, same, is_buy) (long refl)
    | inr (is_sell, is_buy) ↦ rw (known, is_buy, same, is_sell) (short refl)
  ]
