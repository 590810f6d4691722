-- ===== src/Latency.antt =====
-- server/internal/monitoring/latency.go: the timestamps of each signal's way, and their differences.
-- A mutex makes each method one step.
pub mod Deltas
use botbtc.Prelude.{
  ℤ, pos, sub64, ltb_ℤ, Bool, ◌&&◌, Option, none, some, List, [], ◌∷◌, String, str_eq, Dict, lookup,
  insert, if◌then◌else◌,
}

pub record LatencyRecord : Type 0 where
  pub signal_id : String
  pub client_order_id : String
  pub t0_tick_ms : ℤ
  pub t1_signal_ms : ℤ
  pub t2_recv_ms : ℤ
  pub t4_send_ms : ℤ
  pub t5_ack_ms : ℤ
  pub t6_fill_ms : ℤ
  pub t7_closed_ms : ℤ
  pub mt5_to_bridge_ms : ℤ
  pub signal_to_ack_ms : ℤ
  pub signal_to_fill_ms : ℤ
  pub ack_to_fill_ms : ℤ
  pub fill_to_close_ms : ℤ
  pub total_lifetime_ms : ℤ

-- `records`, keyed by signal id
abbrev pub LatencyTracker : Type 0
LatencyTracker = Dict LatencyRecord

abbrev pub empty_record : String → LatencyRecord
empty_record id = record {
  signal_id = id;
  client_order_id = "";
  t0_tick_ms = pos 0;
  t1_signal_ms = pos 0;
  t2_recv_ms = pos 0;
  t4_send_ms = pos 0;
  t5_ack_ms = pos 0;
  t6_fill_ms = pos 0;
  t7_closed_ms = pos 0;
  mt5_to_bridge_ms = pos 0;
  signal_to_ack_ms = pos 0;
  signal_to_fill_ms = pos 0;
  ack_to_fill_ms = pos 0;
  fill_to_close_ms = pos 0;
  total_lifetime_ms = pos 0;
}

-- `if to > 0 && from > 0 { delta = to - from }`
unfoldable pub delta : (to from old : ℤ) → ℤ
delta to from old = if ltb_ℤ (pos 0) to && ltb_ℤ (pos 0) from then sub64 to from else old

unfoldable pub compute_deltas : LatencyRecord → LatencyRecord
compute_deltas r = record r {
  mt5_to_bridge_ms = delta r.t1_signal_ms r.t0_tick_ms r.mt5_to_bridge_ms;
  signal_to_ack_ms = delta r.t5_ack_ms r.t1_signal_ms r.signal_to_ack_ms;
  signal_to_fill_ms = delta r.t6_fill_ms r.t1_signal_ms r.signal_to_fill_ms;
  ack_to_fill_ms = delta r.t6_fill_ms r.t5_ack_ms r.ack_to_fill_ms;
  fill_to_close_ms = delta r.t7_closed_ms r.t6_fill_ms r.fill_to_close_ms;
  total_lifetime_ms = delta r.t7_closed_ms r.t0_tick_ms r.total_lifetime_ms;
}

unfoldable pub get_or_create : String → LatencyTracker → LatencyRecord
get_or_create id t = elim (lookup id t) [ none ↦ empty_record id | some r ↦ r ]

-- The key of the first record of that order, in the order of the association list; Go's `range`
-- leaves the order open.
unfoldable pub find_by_order_id : String → LatencyTracker → Option String
find_by_order_id order_id [] = none
find_by_order_id order_id ((k, r) ∷ t) =
    if str_eq r.client_order_id order_id then some k else find_by_order_id order_id t

-- Fill in the record of a signal, new or not, and its differences.
unfoldable pub fill_in : String → (LatencyRecord → LatencyRecord) → LatencyTracker → LatencyTracker
unfolding compute_deltas get_or_create
fill_in id f t = insert id (compute_deltas (f (get_or_create id t))) t

-- The same for the record of an order, if there is one.
unfoldable pub fill_in_order :
    String → (LatencyRecord → LatencyRecord) → LatencyTracker → LatencyTracker
unfolding fill_in
fill_in_order order_id f t = elim (find_by_order_id order_id t) [
  | none ↦ t
  | some id ↦ fill_in id f t
]

unfoldable pub record_signal_received : String → (t0 t1 t2 : ℤ) → LatencyTracker → LatencyTracker
unfolding fill_in
record_signal_received id t0 t1 t2 =
    fill_in id (λ r. record r { t0_tick_ms = t0; t1_signal_ms = t1; t2_recv_ms = t2 })

unfoldable pub record_order_sent : (id order_id : String) → ℤ → LatencyTracker → LatencyTracker
unfolding fill_in
record_order_sent id order_id t4 =
    fill_in id (λ r. record r { client_order_id = order_id; t4_send_ms = t4 })

unfoldable pub record_order_acked : String → ℤ → LatencyTracker → LatencyTracker
unfolding fill_in_order
record_order_acked order_id t5 = fill_in_order order_id (λ r. record r { t5_ack_ms = t5 })

unfoldable pub record_fill : String → ℤ → LatencyTracker → LatencyTracker
unfolding fill_in_order
record_fill order_id t6 = fill_in_order order_id (λ r. record r { t6_fill_ms = t6 })

unfoldable pub record_closed : String → ℤ → LatencyTracker → LatencyTracker
unfolding fill_in
record_closed id t7 = fill_in id (λ r. record r { t7_closed_ms = t7 })

unfoldable pub get_record : String → LatencyTracker → Option LatencyRecord
get_record id t = lookup id t
