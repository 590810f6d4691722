-- ===== src/Bingx/Paper.antt =====
-- server/internal/bingx/paper.go: the paper trading client. A mutex makes each method one step; the
-- clock's `now` (ms) and the answer of the public API are arguments.
pub mod Fills
pub mod Trades
pub mod Closing
pub mod Prices
use botbtc.Prelude.{
  ℤ, pos, inc64, eq_ℤ, Bool, true, false, not, ◌&&◌, Option, none, some, List, [], ◌∷◌, ◌++◌,
  String, str_eq, concat, Dict, lookup, insert, if◌then◌else◌,
}
use botbtc.Float.{Float64, zero_f}
use botbtc.Bingx.{
  PlaceOrderRequest, PlaceOrderResponse, OrderInfo, PositionInfo, AccountBalance, BookTicker, buy,
  sell,
}

pub record PaperClient (F : Type 0) : Type 0 where
  pub symbol : String
  pub simulated_balance : F
  pub positions : List (PositionInfo F)
  pub orders : Dict (OrderInfo F)
  pub order_seq : ℤ
  pub book_ticker : Option (BookTicker F)
  pub maker_rate : F
  pub taker_rate : F

-- The state of the loop in `closePositionsLocked`.
pub record CloseLoop (F : Type 0) : Type 0 where
  pub remaining : F
  pub balance : F
  pub kept : List (PositionInfo F)

module _ {F : Type 0} ⦃fl : Float64 F⦄ where
  -- `NewPaperClient`
  unfoldable pub new_paper_client : String → F → PaperClient F
  new_paper_client symbol balance = record {
    symbol = symbol;
    simulated_balance = balance;
    positions = [];
    orders = [];
    order_seq = pos 0;
    book_ticker = none;
    maker_rate = fl.literal 2 4;
    taker_rate = fl.literal 5 4;
  }

  unfoldable pub set_book_ticker : BookTicker F → PaperClient F → PaperClient F
  set_book_ticker bt p = record p { book_ticker = some bt }

  unfoldable pub fallback_book_ticker : ℤ → PaperClient F → Option (BookTicker F)
  fallback_book_ticker now p = elim p.book_ticker [
    | none ↦ none
    | some bt ↦ some (record bt { timestamp = now })
  ]

  -- `fetched` is the API's ticker, or `none` if the request failed or its answer could not be read.
  unfoldable pub get_book_ticker :
      Option (BookTicker F) → ℤ → PaperClient F → PaperClient F × Option (BookTicker F)
  unfolding fallback_book_ticker
  get_book_ticker none now p = (p, fallback_book_ticker now p)
  get_book_ticker (some bt) now p =
      let stamped = if eq_ℤ bt.timestamp (pos 0) then record bt { timestamp = now } else bt in
      (record p { book_ticker = some stamped }, some stamped)

  unfoldable pub get_balance : PaperClient F → List (AccountBalance F)
  get_balance p =
      record {
        asset = "USDT";
        balance = p.simulated_balance;
        available_balance = p.simulated_balance;
        cross_un_pnl = zero_f;
      }
      ∷ []

  unfoldable pub get_positions : PaperClient F → List (PositionInfo F)
  get_positions p = p.positions

  unfoldable pub get_commission_rate : PaperClient F → F × F
  get_commission_rate p = (p.maker_rate, p.taker_rate)

  -- The profit of closing `qty` of a position at `exit_price`.
  abbrev pub pnl_of : PositionInfo F → (qty exit_price : F) → F
  pnl_of position qty exit_price =
      let pnl = fl.mul (fl.sub exit_price position.entry_price) qty in
      if str_eq position.side sell then fl.neg pnl else pnl

  -- One round of the loop.
  close_one : F → PositionInfo F → CloseLoop F → CloseLoop F
  close_one exit_price position c =
      if fl.le c.remaining zero_f
      then record c { kept = c.kept ++ (position ∷ []) }
      else if fl.le position.quantity c.remaining
      then record c {
        balance = fl.add c.balance (pnl_of position position.quantity exit_price);
        remaining = fl.sub c.remaining position.quantity;
      }
      else record {
        balance = fl.add c.balance (pnl_of position c.remaining exit_price);
        remaining = zero_f;
        kept = c.kept ++ (record position { quantity = fl.sub position.quantity c.remaining } ∷ []);
      }

  close_all : F → List (PositionInfo F) → CloseLoop F → CloseLoop F
  close_all exit_price [] c = c
  close_all exit_price (position ∷ positions) c =
      close_all exit_price positions (close_one exit_price position c)

  unfoldable pub close_positions : (qty exit_price : F) → PaperClient F → PaperClient F
  unfolding close_one close_all
  close_positions qty exit_price p =
      let start : CloseLoop F = record {
        remaining = qty;
        balance = p.simulated_balance;
        kept = [];
      } in
      let done = close_all exit_price p.positions start in
      record p { simulated_balance = done.balance; positions = done.kept }

  -- The ask for a buyer, the bid for a seller, and the limit price while there is no ticker.
  unfoldable pub fill_price_of : PlaceOrderRequest F → PaperClient F → F
  fill_price_of req p = elim p.book_ticker [
    | none ↦ req.price
    | some bt ↦ if str_eq req.side buy then bt.ask_price else bt.bid_price
  ]

  abbrev pub filled_info : ℤ → String → F → PlaceOrderRequest F → PaperClient F → OrderInfo F
  filled_info now id fill_price req p = record {
    order_id = id;
    client_order_id = req.client_order_id;
    symbol = req.symbol;
    side = req.side;
    status = "FILLED";
    price = req.price;
    quantity = req.quantity;
    filled_qty = req.quantity;
    avg_price = fill_price;
    fee = fl.mul (fl.mul fill_price req.quantity) p.taker_rate;
    fee_asset = "USDT";
    is_maker = false;
    create_time = now;
    update_time = now;
  }

  abbrev pub opened_position : F → PlaceOrderRequest F → PositionInfo F
  opened_position fill_price req = record {
    symbol = req.symbol;
    side = req.side;
    quantity = req.quantity;
    entry_price = fill_price;
    mark_price = fill_price;
    unrealized_pnl = zero_f;
    leverage = pos 10;
    margin_type = "CROSSED";
    liquidation_price = zero_f;
  }

  -- `PlaceOrder`; `decimal` is fmt's `%d`.
  unfoldable pub place_order :
      (ℤ → String) → ℤ → PlaceOrderRequest F → PaperClient F → PaperClient F × PlaceOrderResponse
  place_order decimal now req p =
      let seq = inc64 p.order_seq in
      let id = concat "PAPER-" (decimal seq) in
      let fill_price = fill_price_of req p in
      let info = filled_info now id fill_price req p in
      let charged = record p {
        order_seq = seq;
        orders = insert req.client_order_id info p.orders;
        simulated_balance = fl.sub p.simulated_balance info.fee;
      } in
      (
        if not req.reduce_only
            then record charged {
              positions = charged.positions ++ (opened_position fill_price req ∷ []);
            }
            else close_positions req.quantity fill_price charged,
        record {
          order_id = id;
          client_order_id = req.client_order_id;
          status = "FILLED";
          price = fl.format req.price;
          quantity = fl.format req.quantity;
        },
      )

  -- `false` is the error "order not found".
  unfoldable pub cancel_order : ℤ → String → PaperClient F → PaperClient F × Bool
  cancel_order now id p = elim (lookup id p.orders) [
    | none ↦ (p, false)
    | some info ↦ (
      record p {
        orders = insert id (record info { status = "CANCELLED"; update_time = now }) p.orders;
      },
      true,
    )
  ]

  unfoldable pub get_order : String → PaperClient F → Option (OrderInfo F)
  get_order id p = lookup id p.orders

  open_of : Dict (OrderInfo F) → List (OrderInfo F)
  open_of [] = []
  open_of ((k, info) ∷ orders) =
      if not (str_eq info.status "FILLED") && not (str_eq info.status "CANCELLED")
      then info ∷ open_of orders
      else open_of orders

  -- In the order of the association list; Go's `range` leaves the order open.
  unfoldable pub get_open_orders : PaperClient F → List (OrderInfo F)
  unfolding open_of
  get_open_orders p = open_of p.orders
