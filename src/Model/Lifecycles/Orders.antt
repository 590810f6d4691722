-- ===== src/Model/Lifecycles/Orders.antt =====
-- Lives of an order (server/internal/model/order.go).
use botbtc.Prelude.{◌≡◌, refl, ◌⊎◌, Bool, true, false, arith}
use botbtc.Model.Transition.{Transition, Life, Life-through, AllIn, check_table-All}
use botbtc.Model.OrderState.{
  OrderState, new, submitting, rejected, unlisted, OrderState-discrete, valid_order_transitions,
  can_transition_to,
}

-- The stages that an order has only after it was handed to the exchange.
abbrev pub is_sent : OrderState → Bool
is_sent new = false
is_sent submitting = false
is_sent rejected = false
is_sent (unlisted s) = false
is_sent _ = true

table_entry :
    (s : OrderState)
    → AllIn OrderState-discrete
        (λ u. is_sent u ≡ true → (s ≡ submitting) ⊎ (is_sent s ≡ true))
        (valid_order_transitions s)
unfolding valid_order_transitions
table_entry new = ground arith
table_entry _ = ground arith

sent_entry :
    (s t : OrderState)
    → can_transition_to s t ≡ Transition.allowed
    → is_sent t ≡ true
    → (s ≡ submitting) ⊎ (is_sent s ≡ true)
unfolding can_transition_to
sent_entry s t e =
    check_table-All OrderState-discrete
      (λ u. is_sent u ≡ true → (s ≡ submitting) ⊎ (is_sent s ≡ true)) _ t (table_entry s) e

-- A new order that has been acknowledged, filled, cancelled or the like was SUBMITTING before.
pub sent_after_submitting :
    {t : OrderState}
    → Life can_transition_to new t
    → is_sent t ≡ true
    → Life can_transition_to new submitting × Life can_transition_to submitting t
sent_after_submitting p inside =
    Life-through can_transition_to submitting is_sent sent_entry p refl inside
