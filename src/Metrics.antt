-- ===== src/Metrics.antt =====
-- server/internal/monitoring/metrics.go: counters, gauges and two windows of latencies, and what the
-- HTTP handler reports of them. An atomic counter or a mutex makes each method one step.
pub mod Rotation
pub mod Windows
use botbtc.Prelude.{
  ℕ, zero, suc, ◌+◌, ◌-◌, ◌%◌, ℤ, pos, negsuc, inc64, ltb_ℤ, leb_ℤ, Bool, true, false, Option, none,
  some, List, [], ◌∷◌, ◌++◌, length, get_elem?, String, concat, ltb, ◌==◌, if◌then◌else◌,
}
use botbtc.Float.{Float64, zero_f}

-- `latencyWindowSize`
abbrev pub latency_window_size : ℕ
latency_window_size = 1000

-- `signalToAckMs` with `ackIdx`, or `signalToFillMs` with `fillIdx`.
pub record Window : Type 0 where
  pub samples : List ℤ
  pub idx : ℤ

pub record Metrics (F : Type 0) : Type 0 where
  pub signals_received : ℤ
  pub signals_accepted : ℤ
  pub signals_rejected : ℤ
  pub orders_placed : ℤ
  pub orders_filled : ℤ
  pub orders_cancelled : ℤ
  pub orders_rejected : ℤ
  pub trades_won : ℤ
  pub trades_lost : ℤ
  pub kill_switch_events : ℤ
  pub current_pnl_usd : F
  pub total_pnl_usd : F
  pub current_risk_pct : F
  pub daily_trade_count : ℤ
  pub open_positions : ℤ
  pub signal_to_ack : Window
  pub signal_to_fill : Window

-- `xs[i] = v`, for an index within the slice
abbrev pub set {ℓ} : {A : Type ℓ} → List A → ℕ → A → List A
set [] i v = []
set (x ∷ xs) zero v = v ∷ xs
set (x ∷ xs) (suc i) v = x ∷ set xs i v

-- `idx % latencyWindowSize`, which is negative for some negative `idx`; `none` is the panic that the
-- index of a slice then is.
unfoldable pub slot_of : ℤ → Option ℕ
slot_of (pos n) = some (n % latency_window_size)
slot_of (negsuc n) = if suc n % latency_window_size == 0 then some 0 else none

abbrev pub empty_window : Window
empty_window = record { samples = []; idx = pos 0 }

-- `RecordSignalToAck` and `RecordSignalToFill`, on their windows; `none` is a panic.
unfoldable pub record_sample : ℤ → Window → Option Window
unfolding slot_of
record_sample ms w =
    if ltb (length w.samples) latency_window_size
    then some (record { samples = w.samples ++ (ms ∷ []); idx = inc64 w.idx })
    else elim (slot_of w.idx) [
      | none ↦ none
      | some i ↦ some (record { samples = set w.samples i ms; idx = inc64 w.idx })
    ]

-- `percentile`; `none` is the panic of an index out of range, and `int_of` Go's `int(x)`.
unfoldable pub percentile : {F : Type 0} ⦃fl : Float64 F⦄ → (F → ℤ) → List ℤ → F → Option ℤ
percentile int_of [] pct = some (pos 0)
percentile ⦃fl = fl⦄ int_of (x ∷ rest) pct =
    let n = length (x ∷ rest) in
    let i = int_of (fl.mul pct (fl.of_int (pos n))) in
    let i' = if leb_ℤ (pos n) i then pos (n - 1) else i in
    elim i' [ pos k ↦ get_elem? (x ∷ rest) k | negsuc k ↦ none ]

-- One metric of the report: the lines HELP, TYPE and the value.
pub data Value (F : Type 0) : Type 0 where
  counter : ℤ → Value F
  gauge : F → Value F
  gauge_int : ℤ → Value F

pub record Metric (F : Type 0) : Type 0 where
  pub name : String
  pub help : String
  pub value : Value F

module _ {F : Type 0} ⦃fl : Float64 F⦄ where
  -- `NewMetrics`
  unfoldable pub new_metrics : Metrics F
  new_metrics = record {
    signals_received = pos 0;
    signals_accepted = pos 0;
    signals_rejected = pos 0;
    orders_placed = pos 0;
    orders_filled = pos 0;
    orders_cancelled = pos 0;
    orders_rejected = pos 0;
    trades_won = pos 0;
    trades_lost = pos 0;
    kill_switch_events = pos 0;
    current_pnl_usd = zero_f;
    total_pnl_usd = zero_f;
    current_risk_pct = zero_f;
    daily_trade_count = pos 0;
    open_positions = pos 0;
    signal_to_ack = empty_window;
    signal_to_fill = empty_window;
  }

  unfoldable pub record_signal_to_ack : ℤ → Metrics F → Option (Metrics F)
  record_signal_to_ack ms m = elim (record_sample ms m.signal_to_ack) [
    | none ↦ none
    | some w ↦ some (record m { signal_to_ack = w })
  ]

  unfoldable pub record_signal_to_fill : ℤ → Metrics F → Option (Metrics F)
  record_signal_to_fill ms m = elim (record_sample ms m.signal_to_fill) [
    | none ↦ none
    | some w ↦ some (record m { signal_to_fill = w })
  ]

  unfoldable pub set_pnl : (current total : F) → Metrics F → Metrics F
  set_pnl current total m = record m { current_pnl_usd = current; total_pnl_usd = total }

  unfoldable pub set_risk : F → Metrics F → Metrics F
  set_risk pct m = record m { current_risk_pct = pct }

  unfoldable pub set_daily_trades : ℤ → Metrics F → Metrics F
  set_daily_trades n m = record m { daily_trade_count = n }

  unfoldable pub set_open_positions : ℤ → Metrics F → Metrics F
  set_open_positions n m = record m { open_positions = n }

  -- `writeCounter`, `writeGauge`, `writeGaugeInt`
  abbrev metric : String → String → Value F → Metric F
  metric name help value = record { name = name; help = help; value = value }

  -- `sort` stands for sort.Slice by `<`.
  module _ (sort : List ℤ → List ℤ) (int_of : F → ℤ) where
    -- The three percentiles, or a panic.
    percentiles : List ℤ → Option (ℤ × ℤ × ℤ)
    unfolding percentile
    percentiles [] = some (pos 0, pos 0, pos 0)
    percentiles (x ∷ rest) =
        let sorted = sort (x ∷ rest) in
        elim (percentile int_of sorted (fl.literal 50 2)) [
          | none ↦ none
          | some p50 ↦ elim (percentile int_of sorted (fl.literal 95 2)) [
            | none ↦ none
            | some p95 ↦ elim (percentile int_of sorted (fl.literal 99 2)) [
              | none ↦ none
              | some p99 ↦ some (p50, p95, p99)
            ]
          ]
        ]

    -- `writeLatencyPercentiles`
    unfoldable pub latency_percentiles : (prefix help : String) → List ℤ → Option (List (Metric F))
    unfolding percentiles
    latency_percentiles prefix help samples = elim (percentiles samples) [
      | none ↦ none
      | some (p50, p95, p99) ↦ some (
          metric (concat prefix "_p50_ms") (concat help " p50") (gauge_int p50)
          ∷ metric (concat prefix "_p95_ms") (concat help " p95") (gauge_int p95)
          ∷ metric (concat prefix "_p99_ms") (concat help " p99") (gauge_int p99)
          ∷ [])
    ]

    counters : Metrics F → List (Metric F)
    counters m =
        metric "btc_scalper_signals_received_total" "Total signals received"
          (counter m.signals_received)
        ∷ metric "btc_scalper_signals_accepted_total" "Total signals accepted by risk"
            (counter m.signals_accepted)
        ∷ metric "btc_scalper_signals_rejected_total" "Total signals rejected by risk"
            (counter m.signals_rejected)
        ∷ metric "btc_scalper_orders_placed_total" "Total orders placed" (counter m.orders_placed)
        ∷ metric "btc_scalper_orders_filled_total" "Total orders filled" (counter m.orders_filled)
        ∷ metric "btc_scalper_orders_cancelled_total" "Total orders cancelled"
            (counter m.orders_cancelled)
        ∷ metric "btc_scalper_orders_rejected_total" "Total orders rejected"
            (counter m.orders_rejected)
        ∷ metric "btc_scalper_trades_won_total" "Total winning trades" (counter m.trades_won)
        ∷ metric "btc_scalper_trades_lost_total" "Total losing trades" (counter m.trades_lost)
        ∷ metric "btc_scalper_kill_switch_events_total" "Total kill switch activations"
            (counter m.kill_switch_events)
        ∷ []

    gauges : Metrics F → List (Metric F)
    gauges m =
        metric "btc_scalper_current_pnl_usd" "Current position PnL in USD" (gauge m.current_pnl_usd)
        ∷ metric "btc_scalper_total_pnl_usd" "Total session PnL in USD" (gauge m.total_pnl_usd)
        ∷ metric "btc_scalper_current_risk_pct" "Current risk percentage of capital"
            (gauge m.current_risk_pct)
        ∷ metric "btc_scalper_daily_trade_count" "Number of trades today"
            (gauge_int m.daily_trade_count)
        ∷ metric "btc_scalper_open_positions" "Number of currently open positions"
            (gauge_int m.open_positions)
        ∷ []

    -- `Handler`
    unfoldable pub report : Metrics F → Option (List (Metric F))
    unfolding counters gauges latency_percentiles
    report m =
        elim (latency_percentiles "btc_scalper_signal_to_ack" "Signal to ACK latency"
          m.signal_to_ack.samples) [
            | none ↦ none
            | some ack ↦
                elim (latency_percentiles "btc_scalper_signal_to_fill" "Signal to fill latency"
                  m.signal_to_fill.samples) [
                    | none ↦ none
                    | some fill ↦ some (counters m ++ (gauges m ++ (ack ++ fill)))
                  ]
          ]
