-- ===== src/Tests/Books.antt =====
-- The theorems on the lifecycles, the order manager, the paper client and the latency tracker at
-- concrete inputs.
use botbtc.Prelude.{
  ℤ, pos, ◌≡◌, refl, inl, arith, eq_iff, true, false, ap, some, [], ◌∷◌, String, lookup, insert,
}
use botbtc.Float.Fixed.{micros_float64}
use botbtc.Model.{Signal, Order}
use botbtc.Model.Transition.{Life}
use botbtc.Model.OrderState
use botbtc.Orders.{
  Manager, Creation, created, duplicate, new_manager, new_order, create_order, get_order,
  has_pending_orders, id_suffix, generate_client_order_id,
}
use botbtc.Orders.Runs.{Run, start, later, asked}
use botbtc.Orders.Idempotency.{created_once}
use botbtc.Orders.Lives.{orders_lawful}
use botbtc.Orders.Collisions.{second_order_overwrites}
use botbtc.Bingx.{PlaceOrderRequest}
use botbtc.Bingx.Paper.Trades.{IsTaken, IsLeft}
use botbtc.Bingx.Paper
use botbtc.Bingx.Paper.{PaperClient}
use botbtc.Bingx.Paper.Fills
use botbtc.Bingx.Paper.Closing
use botbtc.Latency.{LatencyRecord, empty_record, compute_deltas, record_signal_received, get_record}
use botbtc.Latency.Deltas
use botbtc.Tests.Data.{signal, book, client, decimal, dollars}

abbrev two_digits : ℤ → String
two_digits n = "01"

abbrev order_id : String
order_id = "btcscalp-scalper-20260102-000001-entry-01"

abbrev first : Manager ℤ × Creation
first =
    create_order two_digits "20260102" (pos 0) (pos 5) signal "entry" (dollars 50_000) (dollars 1)
      (new_manager "scalper")

first_created : first.1 ≡ created order_id
unfolding create_order new_manager lookup generate_client_order_id id_suffix
first_created = refl

created_once_example :
    create_order two_digits "20260103"
      (pos 0)
      (pos 9)
      signal
      "entry"
      (dollars 49_000)
      (dollars 2)
      first.0
    ≡ (first.0, duplicate order_id)
created_once_example =
    created_once two_digits (pos 0) "20260102" "20260103" (pos 5) (pos 9) signal signal "entry"
      (dollars 50_000) (dollars 1) (dollars 49_000) (dollars 2) (new_manager "scalper")
      (ap (λ c. (first.0, c)) first_created) refl start

first-Run : Run two_digits (pos 0) (new_manager "scalper") first.0
first-Run = later start (asked "20260102" (pos 5) signal "entry" (dollars 50_000) (dollars 1))

abbrev first_order : Order ℤ
first_order = new_order (pos 0) signal "entry" (dollars 50_000) (dollars 1) order_id (pos 5)

first_kept : get_order order_id first.0 ≡ some first_order
unfolding create_order get_order new_manager lookup insert generate_client_order_id id_suffix
first_kept = refl

orders_lawful_example : Life OrderState.can_transition_to OrderState.new first_order.status
orders_lawful_example = orders_lawful two_digits (pos 0) "scalper" order_id first-Run first_kept

abbrev settled_order : Order ℤ
settled_order = record first_order { status = OrderState.filled }

abbrev settled : Manager ℤ
settled = record { orders = (order_id, settled_order) ∷ []; seen = []; account_id = "scalper" }

settled-pending : has_pending_orders settled ≡ false
unfolding has_pending_orders
settled-pending = refl

settled_kept : get_order order_id settled ≡ some settled_order
unfolding get_order lookup
settled_kept = refl

abbrev other_signal : Signal ℤ
other_signal = record signal { signal_id = "sig-9990000001" }

same_suffix : id_suffix signal.signal_id ≡ id_suffix other_signal.signal_id
unfolding id_suffix
same_suffix = refl

second_order_overwrites_example :
    let m = new_manager "scalper" in
    let first =
      create_order two_digits "20260102" (pos 0) (pos 5) signal "entry" (dollars 1) (dollars 1) m in
    let second =
      create_order two_digits "20260102"
        (pos 0)
        (pos 6)
        other_signal
        "entry"
        (dollars 2)
        (dollars 2)
        first.0 in
    let id =
      generate_client_order_id two_digits "20260102" m.account_id signal.signal_id "entry"
        (pos 1) in
    (first.1 ≡ created id)
    × (second.1 ≡ created id)
    × (get_order id first.0
        ≡ some (new_order (pos 0) signal "entry" (dollars 1) (dollars 1) id (pos 5)))
    × (get_order id second.0
        ≡ some (new_order (pos 0) other_signal "entry" (dollars 2) (dollars 2) id (pos 6)))
unfolding new_manager lookup
second_order_overwrites_example =
    second_order_overwrites two_digits (pos 0) "20260102" "entry" (pos 5) (pos 6) signal
      other_signal (dollars 1) (dollars 1) (dollars 2) (dollars 2) (new_manager "scalper")
      same_suffix (λ e. ground (arith, eq_iff "sig-0000000001:entry" "sig-9990000001:entry", e))
      refl refl

abbrev buy_one : PlaceOrderRequest ℤ
buy_one = record {
  symbol = "BTC-USDT";
  side = "BUY";
  position_side = "BOTH";
  order_type = "LIMIT";
  time_in_force = "IOC";
  price = dollars 50_001;
  quantity = dollars 1;
  reduce_only = false;
  client_order_id = "in";
}

abbrev sell_one : PlaceOrderRequest ℤ
sell_one = record buy_one { side = "SELL"; reduce_only = true; client_order_id = "out" }

paper-Run :
    Fills.Run decimal
      (Paper.new_paper_client "BTC-USDT" (dollars 10_000))
      (Paper.place_order decimal (pos 7) buy_one client).0
paper-Run = Fills.later (Fills.later Fills.start (Fills.told book)) (Fills.placed (pos 7) buy_one)

open_close_example :
    let q = Paper.set_book_ticker book (Paper.place_order decimal (pos 7) buy_one client).0 in
    let done = (Paper.place_order decimal (pos 9) sell_one q).0 in
    (done.positions ≡ [])
    × ((entry : ℤ) × (exit : ℤ) × (profit : ℤ) × IsTaken book "BUY" entry
        × IsLeft book "BUY" (dollars 1) entry exit profit
        × (done.simulated_balance
            ≡ micros_float64.add
                (micros_float64.sub
                  (micros_float64.sub client.simulated_balance
                    (micros_float64.mul (micros_float64.mul entry (dollars 1)) client.taker_rate))
                  (micros_float64.mul (micros_float64.mul exit (dollars 1)) client.taker_rate))
                profit))
unfolding Paper.new_paper_client Paper.set_book_ticker
open_close_example =
    Closing.open_close decimal (pos 7) (pos 9) book book buy_one sell_one client refl refl refl refl
      (inl (refl, refl)) refl refl refl

tracker-Run : Deltas.Run [] (record_signal_received "sig-1" (pos 10) (pos 14) (pos 15) [])
tracker-Run = Deltas.later Deltas.start (Deltas.received "sig-1" (pos 10) (pos 14) (pos 15))

abbrev received : LatencyRecord
received = compute_deltas (record (empty_record "sig-1") {
  t0_tick_ms = pos 10;
  t1_signal_ms = pos 14;
  t2_recv_ms = pos 15;
})

received_kept :
    get_record "sig-1" (record_signal_received "sig-1" (pos 10) (pos 14) (pos 15) [])
    ≡ some received
unfolding record_signal_received get_record lookup insert
received_kept = refl
