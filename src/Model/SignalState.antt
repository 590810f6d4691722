-- ===== src/Model/SignalState.antt =====
-- server/internal/model/signal.go: the lifecycle of a signal. `unlisted s` is a string that is none
-- of the source's constants.
use botbtc.Prelude.{Option, none, some, List, [], ◌∷◌, String}
use botbtc.Model.Transition.{Transition, check_table, String-discrete}

pub data SignalState : Type 0 where
  created sent_to_bridge acked_by_bridge received_by_server : SignalState
  accepted_by_risk rejected_by_risk submitted_to_bingx : SignalState
  order_acked order_filled order_expired order_cancelled : SignalState
  position_open position_closing position_closed error : SignalState
  unlisted : String → SignalState

unfoldable pub SignalState-discrete : Discrete SignalState
unfolding String-discrete
SignalState-discrete = hlevel String-discrete

-- `ValidSignalTransitions`
unfoldable pub valid_signal_transitions : SignalState → Option (List SignalState)
valid_signal_transitions created = some (sent_to_bridge ∷ error ∷ [])
valid_signal_transitions sent_to_bridge = some (acked_by_bridge ∷ error ∷ [])
valid_signal_transitions acked_by_bridge = some (received_by_server ∷ error ∷ [])
valid_signal_transitions received_by_server =
    some (accepted_by_risk ∷ rejected_by_risk ∷ error ∷ [])
valid_signal_transitions accepted_by_risk = some (submitted_to_bingx ∷ error ∷ [])
valid_signal_transitions rejected_by_risk = some []
valid_signal_transitions submitted_to_bingx =
    some (order_acked ∷ order_expired ∷ order_cancelled ∷ error ∷ [])
valid_signal_transitions order_acked =
    some (order_filled ∷ order_expired ∷ order_cancelled ∷ error ∷ [])
valid_signal_transitions order_filled = some (position_open ∷ error ∷ [])
valid_signal_transitions order_expired = some []
valid_signal_transitions order_cancelled = some []
valid_signal_transitions position_open = some (position_closing ∷ position_closed ∷ error ∷ [])
valid_signal_transitions position_closing = some (position_closed ∷ error ∷ [])
valid_signal_transitions position_closed = some []
valid_signal_transitions error = some []
valid_signal_transitions (unlisted s) = none

unfoldable pub can_transition_to : SignalState → SignalState → Transition
unfolding valid_signal_transitions SignalState-discrete
can_transition_to s target = check_table SignalState-discrete (valid_signal_transitions s) target
