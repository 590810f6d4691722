-- ===== src/Model/Lifecycles/Signals.antt =====
-- Lives of a signal (server/internal/model/signal.go).
use botbtc.Prelude.{ℕ, ◌≤◌, ◌<◌, ◌≡◌, refl, ◌⊎◌, Bool, true, false, arith}
use botbtc.Model.Transition.{
  Transition, Life, changes, changes-le_rank, Life-through, AllIn, check_table-All,
}
use botbtc.Model.SignalState.{
  SignalState, created, sent_to_bridge, acked_by_bridge, received_by_server, accepted_by_risk,
  submitted_to_bingx, order_acked, order_filled, order_expired, order_cancelled, position_open,
  position_closing, position_closed, SignalState-discrete, valid_signal_transitions,
  can_transition_to,
}

rank : SignalState → ℕ
rank created = 0
rank sent_to_bridge = 1
rank acked_by_bridge = 2
rank received_by_server = 3
rank accepted_by_risk = 4
rank submitted_to_bingx = 5
rank order_acked = 6
rank order_filled = 7
rank position_open = 8
rank position_closing = 9
rank _ = 10

table_rises :
    (s : SignalState)
    → AllIn SignalState-discrete (λ u. rank s < rank u) (valid_signal_transitions s)
unfolding valid_signal_transitions rank
table_rises created = omega arith
table_rises _ = omega arith

rank_rises : (s t : SignalState) → can_transition_to s t ≡ Transition.allowed → rank s < rank t
unfolding can_transition_to
rank_rises s t e = check_table-All SignalState-discrete (λ u. rank s < rank u) _ t (table_rises s) e

rank_bounded : (s : SignalState) → rank s ≤ 10
unfolding rank
rank_bounded created = omega arith
rank_bounded _ = omega arith

-- Every signal's life ends: from any state at most ten changes are allowed, whatever they are.
pub changes-le_ten :
    {s t : SignalState} (p : Life can_transition_to s t) → changes can_transition_to p ≤ 10
changes-le_ten {s} {t} p =
    omega (arith, changes-le_rank can_transition_to rank rank_rises p, rank_bounded t)

-- The stages at which an order of the signal exists at the exchange, or has existed.
abbrev pub is_ordered : SignalState → Bool
is_ordered submitted_to_bingx = true
is_ordered order_acked = true
is_ordered order_filled = true
is_ordered order_expired = true
is_ordered order_cancelled = true
is_ordered position_open = true
is_ordered position_closing = true
is_ordered position_closed = true
is_ordered _ = false

table_entry :
    (s : SignalState)
    → AllIn SignalState-discrete
        (λ u. is_ordered u ≡ true → (s ≡ accepted_by_risk) ⊎ (is_ordered s ≡ true))
        (valid_signal_transitions s)
unfolding valid_signal_transitions
table_entry created = ground arith
table_entry _ = ground arith

ordered_entry :
    (s t : SignalState)
    → can_transition_to s t ≡ Transition.allowed
    → is_ordered t ≡ true
    → (s ≡ accepted_by_risk) ⊎ (is_ordered s ≡ true)
unfolding can_transition_to
ordered_entry s t e =
    check_table-All SignalState-discrete
      (λ u. is_ordered u ≡ true → (s ≡ accepted_by_risk) ⊎ (is_ordered s ≡ true)) _ t
      (table_entry s) e

-- A signal that was created and has reached a stage with an order has passed the risk engine: its
-- life splits at ACCEPTED_BY_RISK.
pub ordered_after_risk :
    {t : SignalState}
    → Life can_transition_to created t
    → is_ordered t ≡ true
    → Life can_transition_to created accepted_by_risk × Life can_transition_to accepted_by_risk t
ordered_after_risk p inside =
    Life-through can_transition_to accepted_by_risk is_ordered ordered_entry p refl inside
