-- ===== src/Latency/Deltas.antt =====
-- The differences of a record agree with its timestamps.
use mathlib.Core.Path.{subst}
use botbtc.Prelude.{
  ℤ, ◌≡◌, arith, Bool-cases, inl, inr, Option, none, some, [], String, str_eq, lookup,
  lookup-insert, if◌then◌else◌,
}
use botbtc.Latency.{
  LatencyRecord, LatencyTracker, delta, compute_deltas, get_or_create, find_by_order_id, fill_in,
  fill_in_order, record_signal_received, record_order_sent, record_order_acked, record_fill,
  record_closed, get_record,
}

-- The calls on the tracker.
pub data Step (t : LatencyTracker) : LatencyTracker → Type 0 where
  received : (id : String) (t0 t1 t2 : ℤ) → Step t (record_signal_received id t0 t1 t2 t)
  sent : (id order_id : String) (t4 : ℤ) → Step t (record_order_sent id order_id t4 t)
  acked : (order_id : String) (t5 : ℤ) → Step t (record_order_acked order_id t5 t)
  filled : (order_id : String) (t6 : ℤ) → Step t (record_fill order_id t6 t)
  closed : (id : String) (t7 : ℤ) → Step t (record_closed id t7 t)

pub data Run (t : LatencyTracker) : LatencyTracker → Type 0 where
  start : Run t t
  later : {u v : LatencyTracker} → Run t u → Step u v → Run t v

-- Each difference is that of its two timestamps, wherever both are set.
abbrev pub IsComputed : LatencyRecord → Type 0
IsComputed r = compute_deltas r ≡ r

delta_idem : (to from old : ℤ) → delta to from (delta to from old) ≡ delta to from old
unfolding delta
delta_idem to from old = ground arith

compute_deltas_idem : (r : LatencyRecord) → IsComputed (compute_deltas r)
unfolding compute_deltas
compute_deltas_idem r = simp delta_idem

abbrev AreComputed : LatencyTracker → Type 0
AreComputed t = (id : String) (r : LatencyRecord) → lookup id t ≡ some r → IsComputed r

fill_in-AreComputed :
    (id : String) (f : LatencyRecord → LatencyRecord) (t : LatencyTracker)
    → AreComputed t
    → AreComputed (fill_in id f t)
unfolding fill_in
fill_in-AreComputed id f t h j r e =
    let new_one = compute_deltas (f (get_or_create id t)) in
    let q : (if str_eq id j then some new_one else lookup j t) ≡ some r = rw lookup-insert at e in
    elim (Bool-cases (str_eq id j)) [
      | inl same ↦
          let same_record : new_one ≡ r = ground arith in
          subst IsComputed same_record (compute_deltas_idem _)
      | inr other ↦ h j r (ground arith)
    ]

fill_in_order-AreComputed :
    (order_id : String) (f : LatencyRecord → LatencyRecord) (t : LatencyTracker)
    → AreComputed t
    → AreComputed (fill_in_order order_id f t)
unfolding fill_in_order
fill_in_order-AreComputed order_id f t h = of (find_by_order_id order_id t)
  where
    of :
        (found : Option String)
        → AreComputed (elim found as (λ _. LatencyTracker) [ none ↦ t | some id ↦ fill_in id f t ])
    of none = h
    of (some id) = fill_in-AreComputed id f t h

Step-AreComputed : {t u : LatencyTracker} → Step t u → AreComputed t → AreComputed u
unfolding record_signal_received record_order_sent record_order_acked record_fill record_closed
Step-AreComputed {t} (received id t0 t1 t2) h =
    fill_in-AreComputed id (λ r. record r { t0_tick_ms = t0; t1_signal_ms = t1; t2_recv_ms = t2 }) t
      h
Step-AreComputed {t} (sent id order_id t4) h =
    fill_in-AreComputed id (λ r. record r { client_order_id = order_id; t4_send_ms = t4 }) t h
Step-AreComputed {t} (acked order_id t5) h =
    fill_in_order-AreComputed order_id (λ r. record r { t5_ack_ms = t5 }) t h
Step-AreComputed {t} (filled order_id t6) h =
    fill_in_order-AreComputed order_id (λ r. record r { t6_fill_ms = t6 }) t h
Step-AreComputed {t} (closed id t7) h =
    fill_in-AreComputed id (λ r. record r { t7_closed_ms = t7 }) t h

Run-AreComputed : {t u : LatencyTracker} → Run t u → AreComputed t → AreComputed u
Run-AreComputed start h = h
Run-AreComputed (later r s) h = Step-AreComputed s (Run-AreComputed r h)

-- Whatever is recorded from an empty tracker on, in every record the six differences are those of the
-- timestamps wherever both timestamps are set: computing them again changes nothing.
pub records_computed :
    (id : String) {t : LatencyTracker} {r : LatencyRecord}
    → Run [] t
    → get_record id t ≡ some r
    → compute_deltas r ≡ r
unfolding get_record lookup
records_computed id {t} {r} run e = Run-AreComputed run (λ j s q. absurd (empty j s q)) id r e
  where
    empty : (j : String) (s : LatencyRecord) → lookup j [] ≡ some s → ⊥
    empty j s q = cc
