-- ===== src/Model/Lifecycles/Positions.antt =====
-- Lives of a position (server/internal/model/position.go).
use botbtc.Prelude.{◌≡◌, refl, ◌⊎◌, inr, Bool, true, false, arith}
use botbtc.Model.Transition.{Life, here, next, AllIn, check_table-All}
use botbtc.Model.PositionState.{
  PositionState, no_position, opening, opened, closing, closed, desync, emergency, unlisted,
  PositionState-discrete, valid_position_transitions, can_transition_to,
}

abbrev pub is_listed : PositionState → Bool
is_listed (unlisted s) = false
is_listed _ = true

-- No position is stuck: every listed state has a way to CLOSED.
pub Life-closed : (s : PositionState) → is_listed s ≡ true → Life can_transition_to s closed
unfolding can_transition_to
Life-closed no_position e = next {t = opening} (next {t = no_position} here refl) refl
Life-closed opening e = next {t = opening} here refl
Life-closed opened e = next {t = opened} here refl
Life-closed closing e = next {t = closing} here refl
Life-closed closed e = here
Life-closed desync e = next {t = desync} here refl
Life-closed emergency e = next {t = emergency} here refl
Life-closed (unlisted s) e = cc

abbrev is_exit : PositionState → Bool
is_exit closed = true
is_exit emergency = true
is_exit _ = false

table_exit :
    (s : PositionState)
    → is_exit s ≡ true
    → AllIn PositionState-discrete (λ u. u ≡ closed) (valid_position_transitions s)
unfolding valid_position_transitions
table_exit no_position e = cc
table_exit _ e = ground arith

-- A position that has reached EMERGENCY or CLOSED is never anything but EMERGENCY or CLOSED again.
pub emergency_closes :
    {s t : PositionState}
    → (s ≡ emergency) ⊎ (s ≡ closed)
    → Life can_transition_to s t
    → (t ≡ emergency) ⊎ (t ≡ closed)
unfolding can_transition_to
emergency_closes h here = h
emergency_closes h (next {t} {u} p e) =
    let exit : is_exit t ≡ true = ground (arith, emergency_closes h p) in
    inr (check_table-All PositionState-discrete (λ v. v ≡ closed) _ u (table_exit t exit) e)
