-- ===== src/Execution/Simulated.antt =====
-- server/cmd/scalper/main.go in paper mode: the pipeline whose exchange is the client of
-- server/internal/bingx/paper.go.
pub mod Polling
pub mod Exiting
pub mod Entering
use botbtc.Prelude.{ℤ, Bool, true, false, Option, none, some, String, concat, if◌then◌else◌}
use botbtc.Float.{Float64}
use botbtc.Bingx.{PlaceOrderRequest, OrderInfo}
use botbtc.Bingx.Paper.{PaperClient, get_balance, place_order, cancel_order, get_order}
use botbtc.Execution.State.{Host, Answer, answered, failed, unix_milli}
use botbtc.Execution.Live.{Outside}

-- The error of a client without that order.
abbrev not_found : (id : String) → String
not_found id = concat "paper: order not found: " id

abbrev found : {F : Type 0} → (id : String) → Option (OrderInfo F) → Answer (OrderInfo F)
found id none = failed (not_found id)
found id (some info) = answered info

module _ {F E : Type 0} ⦃fl : Float64 F⦄ where
  -- The pipeline's outside: what it calls besides the exchange, and the paper client beside it. `decimal`
  -- is fmt's `%d`.
  unfoldable pub paper_host : Outside F E → (decimal : ℤ → String) → Host F (PaperClient F × E)
  paper_host out decimal = record {
    now = λ s. ((out.now s.1).0, (s.0, (out.now s.1).1));
    sleep = λ d s. (s.0, out.sleep d s.1);
    is_done = λ s. ((out.is_done s.1).0, (s.0, (out.is_done s.1).1));
    latest_book = λ s. ((out.latest_book s.1).0, (s.0, (out.latest_book s.1).1));
    get_balance = λ s. (answered (get_balance s.0), s);
    place_order = λ req s.
        let (t, e) = out.now s.1 in
        let (p, response) = place_order decimal (unix_milli t) req s.0 in
        (answered response, (p, e));
    cancel_order = λ symbol id s.
        let (t, e) = out.now s.1 in
        let (p, success) = cancel_order (unix_milli t) id s.0 in
        if success then (none, (p, e)) else (some (not_found id), s);
    get_order = λ symbol id s. (found id (get_order id s.0), s);
    today = out.today;
    compact_date = out.compact_date;
    two_digits = out.two_digits;
  }
