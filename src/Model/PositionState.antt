-- ===== src/Model/PositionState.antt =====
-- server/internal/model/position.go: the lifecycle of a position. `unlisted s` is a string that is
-- none of the source's constants; the constant NONE is `no_position`.
use botbtc.Prelude.{Option, none, some, List, [], ◌∷◌, String}
use botbtc.Model.Transition.{Transition, check_table, String-discrete}

pub data PositionState : Type 0 where
  no_position opening opened closing closed desync emergency : PositionState
  unlisted : String → PositionState

unfoldable pub PositionState-discrete : Discrete PositionState
unfolding String-discrete
PositionState-discrete = hlevel String-discrete

-- `ValidPositionTransitions`
unfoldable pub valid_position_transitions : PositionState → Option (List PositionState)
valid_position_transitions no_position = some (opening ∷ [])
valid_position_transitions opening = some (opened ∷ closed ∷ desync ∷ emergency ∷ [])
valid_position_transitions opened = some (closing ∷ closed ∷ desync ∷ emergency ∷ [])
valid_position_transitions closing = some (closed ∷ desync ∷ emergency ∷ [])
valid_position_transitions closed = some []
valid_position_transitions desync = some (closing ∷ closed ∷ emergency ∷ [])
valid_position_transitions emergency = some (closed ∷ [])
valid_position_transitions (unlisted s) = none

unfoldable pub can_transition_to : PositionState → PositionState → Transition
unfolding valid_position_transitions PositionState-discrete
can_transition_to s target =
    check_table PositionState-discrete (valid_position_transitions s) target
