-- ===== src/Execution/State.antt =====
-- server/internal/execution/pipeline.go: the pipeline's state, what it calls outside itself, and the
-- monad of its methods. A time is a number of nanoseconds, a duration an int64 of nanoseconds.
use Prim.Native.Nat.{◌/◌}
use botbtc.Prelude.{
  ℕ, suc, ℤ, pos, negsuc, sub_ℕ, ◌-ℤ◌, mul64, ltb_ℤ, Bool, false, Option, none, List, String,
  if◌then◌else◌,
}
use botbtc.Risk
use botbtc.Risk.{Engine}
use botbtc.Orders.{Manager}
use botbtc.Latency.{LatencyTracker}
use botbtc.Gate
use botbtc.Quantity
use botbtc.Bingx.{PlaceOrderRequest, PlaceOrderResponse, OrderInfo, AccountBalance, BookTicker}

pub record ActivePosition (F : Type 0) : Type 0 where
  pub signal_id : String
  pub side : String
  pub entry_price : F
  pub quantity : F
  pub entry_time : ℤ
  pub stop_loss : F
  pub take_profit : F
  pub trailing_step : ℕ
  pub best_pnl : F
  pub locked_pnl : F
  pub exit_order_id : String

-- An answer of the exchange: a value, or the text of an error.
pub data Answer (A : Type 0) : Type 0 where
  answered : A → Answer A
  failed : String → Answer A

-- What the pipeline calls outside itself, over a state `E` of the outside world: the clock, the
-- context's `Done` channel, the interfaces bingx.Client and bingx.MarketDataProvider, and the
-- formats of a date and a number.
pub record Host (F E : Type 0) : Type 0 where
  pub now : E → ℤ × E
  pub sleep : ℤ → E → E
  pub is_done : E → Bool × E
  pub latest_book : E → Option (BookTicker F) × E
  pub get_balance : E → Answer (List (AccountBalance F)) × E
  pub place_order : PlaceOrderRequest F → E → Answer PlaceOrderResponse × E
  pub cancel_order : (symbol client_order_id : String) → E → Option String × E
  pub get_order : (symbol client_order_id : String) → E → Answer (OrderInfo F) × E
  -- "2006-01-02" and "20060102" of a time, and `%02d`
  pub today : ℤ → String
  pub compact_date : ℤ → String
  pub two_digits : ℤ → String

-- `monitor_cancel` is true while `monitorCancel` is not nil; `monitors` counts the goroutines that run
-- `monitorPosition`.
pub record World (F E : Type 0) : Type 0 where
  pub env : E
  pub risk : Engine F
  pub orders : Manager F
  pub latency : LatencyTracker
  pub active_pos : Option (ActivePosition F)
  pub monitor_cancel : Bool
  pub monitors : ℕ

-- `NewPipeline`
unfoldable pub new_pipeline : {F E : Type 0} → E → Engine F → Manager F → LatencyTracker → World F E
new_pipeline env engine manager tracker = record {
  env = env;
  risk = engine;
  orders = manager;
  latency = tracker;
  active_pos = none;
  monitor_cancel = false;
  monitors = 0;
}

-- The errors that the methods return; `exhausted` is the end of the model's fuel.
pub data Error (F : Type 0) : Type 0 where
  rejected_by_risk : Risk.Reason → Error F
  no_market_data : Error F
  rejected_by_gate : Option (Gate.RejectReason F) → Error F
  balance_failed : String → Error F
  no_equity : Error F
  quantity_rejected : Option (Quantity.RejectReason F) → Error F
  duplicate_order : (existing : String) → Error F
  place_failed : String → Error F
  context_done : Error F
  window_exhausted : (elapsed_ms : ℤ) → Error F
  no_fill : Error F
  no_active_position : Error F
  exhausted : Error F

pub data Result (F A : Type 0) : Type 0 where
  ok : A → Result F A
  err : Error F → Result F A

-- time.Duration(ms) * time.Millisecond
abbrev pub duration_of_ms : ℤ → ℤ
duration_of_ms ms = mul64 ms (pos 1_000_000)

-- Time.UnixMilli, rounded down, and Duration.Milliseconds, rounded towards zero
abbrev pub unix_milli : ℤ → ℤ
unix_milli (pos n) = pos (n / 1_000_000)
unix_milli (negsuc n) = negsuc (n / 1_000_000)

abbrev pub milliseconds : ℤ → ℤ
milliseconds (pos n) = pos (n / 1_000_000)
milliseconds (negsuc n) = sub_ℕ 0 (suc n / 1_000_000)

-- Time.Sub, which saturates.
abbrev pub time_sub : ℤ → ℤ → ℤ
time_sub t u =
    let d = t -ℤ u in
    if ltb_ℤ (pos 9_223_372_036_854_775_807) d
    then pos 9_223_372_036_854_775_807
    else if ltb_ℤ d (negsuc 9_223_372_036_854_775_807)
    then negsuc 9_223_372_036_854_775_807
    else d

-- A method: what it returns, and the world after it, after an error too.
abbrev pub Action : (F E A : Type 0) → Type 0
Action F E A = World F E → Result F A × World F E

module _ {F E : Type 0} where
  abbrev pub pure : {A : Type 0} → A → Action F E A
  pure a w = (ok a, w)

  abbrev pub raise : {A : Type 0} → Error F → Action F E A
  raise e w = (err e, w)

  infixl 5 ◌>>=◌ ◌>>◌
  abbrev pub ◌>>=◌ : {A B : Type 0} → Action F E A → (A → Action F E B) → Action F E B
  ◌>>=◌ m f w = let (r, w') = m w in elim r [ ok a ↦ f a w' | err e ↦ (err e, w') ]

  abbrev pub ◌>>◌ : {A B : Type 0} → Action F E A → Action F E B → Action F E B
  ◌>>◌ m k = m >>= λ _. k

  -- A call of the host.
  abbrev pub ask : {A : Type 0} → (E → A × E) → Action F E A
  ask f w = let (a, e) = f w.env in (ok a, record w { env = e })

  abbrev pub tell : (E → E) → Action F E (Unit {0})
  tell f w = (ok tt, record w { env = f w.env })

  abbrev pub on_risk : (Engine F → Engine F) → Action F E (Unit {0})
  on_risk f w = (ok tt, record w { risk = f w.risk })

  abbrev pub on_latency : (LatencyTracker → LatencyTracker) → Action F E (Unit {0})
  on_latency f w = (ok tt, record w { latency = f w.latency })

  -- A call of the order manager.
  abbrev pub on_orders : {A : Type 0} → (Manager F → Manager F × A) → Action F E A
  on_orders f w = let (m, a) = f w.orders in (ok a, record w { orders = m })

  abbrev pub get_active : Action F E (Option (ActivePosition F))
  get_active w = (ok w.active_pos, w)

  abbrev pub set_active : Option (ActivePosition F) → Action F E (Unit {0})
  set_active p w = (ok tt, record w { active_pos = p })

  abbrev pub get_risk : {A : Type 0} → (Engine F → A) → Action F E A
  get_risk f w = (ok (f w.risk), w)
