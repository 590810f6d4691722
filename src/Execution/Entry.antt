-- ===== src/Execution/Entry.antt =====
-- server/internal/execution/entry.go: `executeEntry`, a post-only probe and then an aggressive IOC.
pub mod Requests
pub mod Filled
use botbtc.Prelude.{
  ℕ, ℤ, pos, leb_ℤ, Bool, true, false, Option, none, some, String, str_eq, concat, if◌then◌else◌,
}
use botbtc.Float.{Float64, zero_f}
use botbtc.Config.{Config}
use botbtc.Model.{Signal, Order}
use botbtc.Model.OrderState.{OrderState, submitting, acked, filled, cancelled, rejected}
use botbtc.Orders.{Manager, Creation, created, duplicate, create_order, update_state, modify_order}
use botbtc.Latency.{record_order_sent, record_order_acked, record_fill}
use botbtc.Gate.{ValidationResult}
use botbtc.Quantity.{normalize_price}
use botbtc.Bingx.{
  PlaceOrderRequest, PlaceOrderResponse, OrderInfo, BookTicker, buy, position_both, tif_ioc,
  tif_post_only,
}
use botbtc.Execution.State.{
  Host, World, Answer, answered, failed, Result, ok, err, duplicate_order, place_failed,
  window_exhausted, no_market_data, no_fill, Action, pure, raise, ◌>>=◌, ◌>>◌, ask, on_latency,
  on_orders, duration_of_ms, unix_milli, milliseconds, time_sub,
}
use botbtc.Execution.Poll.{poll_order_fill, cancel_order_safe}

-- The entry order: the response, the key under which the manager holds the order, and the order's
-- `AvgFillPrice`, which is all that the pipeline reads of it.
pub record Entry (F : Type 0) : Type 0 where
  pub response : PlaceOrderResponse
  pub order_key : String
  pub avg_fill_price : F

module _ {F E : Type 0} ⦃fl : Float64 F⦄ (h : Host F E) (cfg : Config F) (fuel : ℕ) where
  -- time.Now().UnixMilli()
  abbrev pub now_ms : Action F E ℤ
  now_ms = ask h.now >>= λ t. pure (unix_milli t)

  -- `_ = p.orderMgr.UpdateState(...)`
  abbrev pub set_state : String → OrderState → Action F E (Unit {0})
  set_state key state = on_orders (λ m. ((update_state key state m).0, tt))

  -- A write through the order's pointer.
  abbrev pub write_order : String → (Order F → Order F) → Action F E (Unit {0})
  write_order key f = on_orders (λ m. (modify_order key f m, tt))

  abbrev pub entry_request :
      Signal F → (time_in_force : String) → (price qty : F) → String → PlaceOrderRequest F
  entry_request signal time_in_force price qty id = record {
    symbol = signal.symbol;
    side = signal.side;
    position_side = position_both;
    order_type = "LIMIT";
    time_in_force = time_in_force;
    price = price;
    quantity = qty;
    reduce_only = false;
    client_order_id = id;
  }

  -- The ask plus the slippage for BUY, else the bid minus it.
  unfoldable pub aggressive_price : Signal F → BookTicker F → F
  aggressive_price signal book =
      let slippage = cfg.orders.max_entry_slippage_usd in
      normalize_price cfg.quantity (
        if str_eq signal.side buy
        then fl.add book.ask_price slippage
        else fl.sub book.bid_price slippage)

  creation_outcome : Creation → Action F E String
  creation_outcome (created key) = pure key
  creation_outcome (duplicate existing) = raise (duplicate_order existing)

  create : Signal F → (price qty : F) → Action F E String
  unfolding creation_outcome
  create signal price qty = do
    id_time ← ask h.now
    created_at ← ask h.now
    creation ← on_orders (
        create_order h.two_digits (h.compact_date id_time) zero_f created_at signal "entry" price
          qty)
    creation_outcome creation

  -- After the poll of the IOC.
  ioc_outcome :
      Signal F
      → (key ioc_id : String) → PlaceOrderResponse
      → Option (OrderInfo F)
      → Action F E (Entry F)
  ioc_outcome signal key ioc_id response (some info) = do
    t6 ← now_ms
    on_latency (record_fill ioc_id t6)
    write_order key (λ o. record o {
      t6_fill_ms = t6;
      status = filled;
      avg_fill_price = info.avg_price;
      filled_qty = info.filled_qty;
      exchange_order_id = response.order_id;
      client_order_id = ioc_id;
    })
    pure (record { response = response; order_key = key; avg_fill_price = info.avg_price })
  ioc_outcome signal key ioc_id response none = do
    cancel_order_safe h signal.symbol ioc_id
    raise no_fill

  -- After the placing of the IOC.
  ioc_answer : Signal F → (key ioc_id : String) → Answer PlaceOrderResponse → Action F E (Entry F)
  unfolding ioc_outcome
  ioc_answer signal key ioc_id (failed why) = raise (place_failed why)
  ioc_answer signal key ioc_id (answered response) = do
    t5 ← now_ms
    on_latency (record_order_acked ioc_id t5)
    outcome ←
        poll_order_fill h fuel signal.symbol ioc_id
          (duration_of_ms cfg.orders.aggressive_ioc_timeout_ms)
    ioc_outcome signal key ioc_id response outcome

  -- From the aggressive price to the end.
  place_ioc : Signal F → F → String → Option (BookTicker F) → Action F E (Entry F)
  unfolding ioc_answer
  place_ioc signal qty key none = raise no_market_data
  place_ioc signal qty key (some book) = do
    let ioc_id = concat key "-ioc"
    t4 ← now_ms
    on_latency (record_order_sent signal.signal_id ioc_id t4)
    answer ←
        ask (h.place_order (entry_request signal tif_ioc (aggressive_price signal book) qty ioc_id))
    ioc_answer signal key ioc_id answer

  -- `Phase 2`
  after_probe : ℤ → Signal F → F → String → Action F E (Entry F)
  unfolding place_ioc
  after_probe entry_start signal qty key = do
    t ← ask h.now
    let elapsed = milliseconds (time_sub t entry_start)
    if leb_ℤ cfg.orders.max_total_entry_window_ms elapsed
        then (do cancel_order_safe h signal.symbol key; raise (window_exhausted elapsed))
        else (do
          cancel_order_safe h signal.symbol key
          set_state key cancelled
          book ← ask h.latest_book
          place_ioc signal qty key book)

  -- After the poll of the probe.
  probe_outcome :
      ℤ → Signal F → F → String → PlaceOrderResponse → Option (OrderInfo F) → Action F E (Entry F)
  unfolding after_probe
  probe_outcome entry_start signal qty key response (some info) = do
    t6 ← now_ms
    on_latency (record_fill key t6)
    write_order key (λ o. record o {
      t6_fill_ms = t6;
      status = filled;
      avg_fill_price = info.avg_price;
      filled_qty = info.filled_qty;
    })
    set_state key filled
    pure (record { response = response; order_key = key; avg_fill_price = info.avg_price })
  probe_outcome entry_start signal qty key response none = after_probe entry_start signal qty key

  -- After the placing of the probe.
  probe_answer : ℤ → Signal F → F → String → Answer PlaceOrderResponse → Action F E (Entry F)
  unfolding probe_outcome
  probe_answer entry_start signal qty key (failed why) =
      set_state key rejected >> raise (place_failed why)
  probe_answer entry_start signal qty key (answered response) = do
    t5 ← now_ms
    on_latency (record_order_acked key t5)
    write_order key (λ o. record o { t5_ack_ms = t5; exchange_order_id = response.order_id })
    set_state key acked
    outcome ←
        poll_order_fill h fuel signal.symbol key (duration_of_ms cfg.orders.maker_probe_timeout_ms)
    probe_outcome entry_start signal qty key response outcome

  -- After the creating of the order.
  after_create : ℤ → Signal F → (price qty : F) → String → Action F E (Entry F)
  unfolding probe_answer
  after_create entry_start signal price qty key = do
    set_state key submitting
    t4 ← now_ms
    on_latency (record_order_sent signal.signal_id key t4)
    write_order key (λ o. record o { t4_send_ms = t4 })
    answer ← ask (h.place_order (entry_request signal tif_post_only price qty key))
    probe_answer entry_start signal qty key answer

  unfoldable pub execute_entry : Signal F → ValidationResult F → F → Action F E (Entry F)
  unfolding create after_create
  execute_entry signal validation qty = do
    entry_start ← ask h.now
    key ← create signal validation.suggested_entry qty
    after_create entry_start signal validation.suggested_entry qty key
