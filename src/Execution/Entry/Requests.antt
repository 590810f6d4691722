-- ===== src/Execution/Entry/Requests.antt =====
-- The orders that an entry places.
use botbtc.Prelude.{ℕ, ℤ, ◌≡◌, refl, ◌⊎◌, inl, inr, false, Option, none, some, String}
use botbtc.Float.{Float64}
use botbtc.Config.{Config}
use botbtc.Model.{Signal}
use botbtc.Orders.{Creation, created, duplicate}
use botbtc.Gate.{ValidationResult}
use botbtc.Bingx.{
  PlaceOrderRequest, PlaceOrderResponse, OrderInfo, BookTicker, tif_ioc, tif_post_only,
}
use botbtc.Execution.State.{
  Host, Answer, answered, failed, duplicate_order, place_failed, no_market_data,
}
use botbtc.Execution.Frames.{Keeps, Keeps-pure, Keeps-raise, Keeps-bind, Keeps-now, keeps_rules}
use botbtc.Execution.Poll.Quiet.{poll_order_fill-Keeps, cancel_order_safe-Keeps}
use botbtc.Execution.Entry.{
  entry_request, creation_outcome, create, ioc_outcome, ioc_answer, place_ioc, after_probe,
  probe_outcome, probe_answer, after_create, execute_entry,
}

-- A limit order for the signal's symbol, side and quantity that may open a position: post-only at the
-- suggested price, or immediate-or-cancel.
pub record IsEntryRequest {F : Type 0} (signal : Signal F) (price qty : F)
    (req : PlaceOrderRequest F) : Type 0 where
  pub its_symbol : req.symbol ≡ signal.symbol
  pub its_side : req.side ≡ signal.side
  pub its_qty : req.quantity ≡ qty
  pub is_limit : req.order_type ≡ "LIMIT"
  pub opens : req.reduce_only ≡ false
  pub its_force :
      ((req.time_in_force ≡ tif_post_only) × (req.price ≡ price)) ⊎ (req.time_in_force ≡ tif_ioc)

module _ {F E : Type 0} ⦃fl : Float64 F⦄ (h : Host F E) (cfg : Config F) (fuel : ℕ)
    (signal : Signal F) (price qty : F) where
  abbrev Safe : PlaceOrderRequest F → Type 0
  Safe = IsEntryRequest signal price qty

  ioc_safe :
      (its_price : F) (id : String)
      → Safe (entry_request h cfg fuel signal tif_ioc its_price qty id)
  ioc_safe its_price id = record {
    its_symbol = refl;
    its_side = refl;
    its_qty = refl;
    is_limit = refl;
    opens = refl;
    its_force = inr refl;
  }

  probe_safe : (id : String) → Safe (entry_request h cfg fuel signal tif_post_only price qty id)
  probe_safe id = record {
    its_symbol = refl;
    its_side = refl;
    its_qty = refl;
    is_limit = refl;
    opens = refl;
    its_force = inl (refl, refl);
  }

  creation_outcome-Keeps :
      (creation : Creation) → Keeps h Safe (creation_outcome h cfg fuel creation)
  unfolding creation_outcome
  creation_outcome-Keeps (created key) = Keeps-pure key
  creation_outcome-Keeps (duplicate existing) = Keeps-raise (duplicate_order existing)

  create-Keeps : Keeps h Safe (create h cfg fuel signal price qty)
  unfolding create
  create-Keeps = search (keeps_rules, creation_outcome-Keeps)

  ioc_outcome-Keeps :
      (key ioc_id : String) (response : PlaceOrderResponse) (outcome : Option (OrderInfo F))
      → Keeps h Safe (ioc_outcome h cfg fuel signal key ioc_id response outcome)
  unfolding ioc_outcome
  ioc_outcome-Keeps key ioc_id response (some info) = search keeps_rules depth 12
  ioc_outcome-Keeps key ioc_id response none = search (keeps_rules, cancel_order_safe-Keeps)

  ioc_answer-Keeps :
      (key ioc_id : String) (answer : Answer PlaceOrderResponse)
      → Keeps h Safe (ioc_answer h cfg fuel signal key ioc_id answer)
  unfolding ioc_answer
  ioc_answer-Keeps key ioc_id (failed why) = Keeps-raise (place_failed why)
  ioc_answer-Keeps key ioc_id (answered response) =
      search (keeps_rules, ioc_outcome-Keeps, poll_order_fill-Keeps) depth 12

  place_ioc-Keeps :
      (key : String) (book : Option (BookTicker F))
      → Keeps h Safe (place_ioc h cfg fuel signal qty key book)
  unfolding place_ioc
  place_ioc-Keeps key none = Keeps-raise no_market_data
  place_ioc-Keeps key (some book) = search (keeps_rules, ioc_safe, ioc_answer-Keeps) depth 12

  after_probe-Keeps :
      (entry_start : ℤ) (key : String)
      → Keeps h Safe (after_probe h cfg fuel entry_start signal qty key)
  unfolding after_probe
  after_probe-Keeps entry_start key =
      search (keeps_rules, place_ioc-Keeps, cancel_order_safe-Keeps) depth 12

  probe_outcome-Keeps :
      (entry_start : ℤ) (key : String) (response : PlaceOrderResponse)
      (outcome : Option (OrderInfo F))
      → Keeps h Safe (probe_outcome h cfg fuel entry_start signal qty key response outcome)
  unfolding probe_outcome
  probe_outcome-Keeps entry_start key response (some info) = search keeps_rules depth 12
  probe_outcome-Keeps entry_start key response none = after_probe-Keeps entry_start key

  probe_answer-Keeps :
      (entry_start : ℤ) (key : String) (answer : Answer PlaceOrderResponse)
      → Keeps h Safe (probe_answer h cfg fuel entry_start signal qty key answer)
  unfolding probe_answer
  probe_answer-Keeps entry_start key (failed why) = search keeps_rules
  probe_answer-Keeps entry_start key (answered response) =
      search (keeps_rules, probe_outcome-Keeps, poll_order_fill-Keeps) depth 12

  after_create-Keeps :
      (entry_start : ℤ) (key : String)
      → Keeps h Safe (after_create h cfg fuel entry_start signal price qty key)
  unfolding after_create
  after_create-Keeps entry_start key = search (keeps_rules, probe_safe, probe_answer-Keeps) depth 12

-- Whatever the exchange answers and however an entry ends, the only orders that it places are limit
-- orders for the signal's symbol, side and quantity, post-only at the suggested price or
-- immediate-or-cancel; and it leaves the risk engine, the position and the monitor as they were.
pub execute_entry-Keeps :
    {F E : Type 0} ⦃fl : Float64 F⦄ (h : Host F E) (cfg : Config F) (fuel : ℕ) (signal : Signal F)
    (validation : ValidationResult F) (qty : F)
    → Keeps h
        (IsEntryRequest signal validation.suggested_entry qty)
        (execute_entry h cfg fuel signal validation qty)
unfolding execute_entry
execute_entry-Keeps h cfg fuel signal validation qty =
    let price = validation.suggested_entry in
    Keeps-bind Keeps-now λ entry_start.
      Keeps-bind {f = λ key. after_create h cfg fuel entry_start signal price qty key}
        (create-Keeps h cfg fuel signal price qty)
        (λ key. after_create-Keeps h cfg fuel signal price qty entry_start key)
