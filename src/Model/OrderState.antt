-- ===== src/Model/OrderState.antt =====
-- server/internal/model/order.go: the lifecycle of an order. `unlisted s` is a string that is none
-- of the source's constants.
use botbtc.Prelude.{Option, none, some, List, [], ◌∷◌, String}
use botbtc.Model.Transition.{Transition, check_table, String-discrete}

pub data OrderState : Type 0 where
  new submitting acked partially_filled filled : OrderState
  cancel_requested cancelled replace_requested replaced : OrderState
  rejected expired unknown : OrderState
  unlisted : String → OrderState

unfoldable pub OrderState-discrete : Discrete OrderState
unfolding String-discrete
OrderState-discrete = hlevel String-discrete

-- `ValidOrderTransitions`
unfoldable pub valid_order_transitions : OrderState → Option (List OrderState)
valid_order_transitions new = some (submitting ∷ rejected ∷ [])
valid_order_transitions submitting = some (acked ∷ rejected ∷ unknown ∷ [])
valid_order_transitions acked =
    some
      (partially_filled ∷ filled ∷ cancel_requested ∷ replace_requested ∷ expired ∷ rejected ∷ [])
valid_order_transitions partially_filled =
    some (filled ∷ cancel_requested ∷ replace_requested ∷ expired ∷ [])
valid_order_transitions filled = some []
valid_order_transitions cancel_requested =
    some (cancelled ∷ filled ∷ partially_filled ∷ unknown ∷ [])
valid_order_transitions cancelled = some []
valid_order_transitions replace_requested = some (replaced ∷ cancelled ∷ filled ∷ unknown ∷ [])
valid_order_transitions replaced = some (acked ∷ [])
valid_order_transitions rejected = some []
valid_order_transitions expired = some []
valid_order_transitions unknown = some (acked ∷ filled ∷ cancelled ∷ rejected ∷ expired ∷ [])
valid_order_transitions (unlisted s) = none

unfoldable pub can_transition_to : OrderState → OrderState → Transition
unfolding valid_order_transitions OrderState-discrete
can_transition_to s target = check_table OrderState-discrete (valid_order_transitions s) target
