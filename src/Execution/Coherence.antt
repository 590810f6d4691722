-- ===== src/Execution/Coherence.antt =====
-- The position that the pipeline holds and the risk engine's flag for it: the two places where a
-- position is recorded (pipeline.go's `activePos`, risk/engine.go's `HasOpenPosition`).
use mathlib.Core.Path.{subst}
use botbtc.Prelude.{ℕ, ◌≡◌, refl, sym, ap, ◌∙◌, true, false, Option, none, some}
use botbtc.Float.{Float64}
use botbtc.Config.{Config}
use botbtc.Model.{Signal}
use botbtc.Execution.State.{ActivePosition, Host, World, Result}
use botbtc.Execution.Exit.{ExitReason, execute_exit}
use botbtc.Execution.Exit.Closing.{Exited, closed, kept, execute_exit-Exited, execute_exit-none}
use botbtc.Execution.Process.{process_signal, has_active_position}
use botbtc.Execution.Process.Opening.{Opening, entered, turned_down, process_signal-Opening}

module _ {F E : Type 0} where
  -- They agree.
  abbrev pub IsCoherent : World F E → Type 0
  IsCoherent w = has_active_position w ≡ w.risk.has_open_position

  pub has_active-some :
      (w : World F E) (p : ActivePosition F) → w.active_pos ≡ some p → has_active_position w ≡ true
  unfolding has_active_position
  has_active-some w p e = ap (λ o. elim o [ none ↦ false | some p ↦ true ]) e

  pub has_active-none : (w : World F E) → w.active_pos ≡ none → has_active_position w ≡ false
  unfolding has_active_position
  has_active-none w e = ap (λ o. elim o [ none ↦ false | some p ↦ true ]) e

  pub has_active-same :
      (w w' : World F E)
      → w'.active_pos ≡ w.active_pos
      → has_active_position w' ≡ has_active_position w
  unfolding has_active_position
  has_active-same w w' e = ap (λ o. elim o [ none ↦ false | some p ↦ true ]) e

  Exited-IsCoherent :
      {w w' : World F E} {r : Result F (Unit {0})} → Exited w w' r → IsCoherent w → IsCoherent w'
  Exited-IsCoherent {w} {w'} (closed p o c n) coherent = has_active-none w' p ∙ sym o
  Exited-IsCoherent {w} {w'} (kept e p o c n) coherent =
      has_active-same w w' p ∙ coherent ∙ ap (λ e. e.has_open_position) (sym o)

module _ {F E : Type 0} ⦃fl : Float64 F⦄ (h : Host F E) (cfg : Config F) (fuel : ℕ) where
  -- An exit, however it ends, leaves pipeline and risk engine in agreement.
  pub execute_exit-IsCoherent :
      (reason : ExitReason F) (w : World F E)
      → IsCoherent w
      → IsCoherent (execute_exit h cfg fuel reason w).1
  execute_exit-IsCoherent reason w coherent = of w.active_pos refl
    where
      of :
          (held : Option (ActivePosition F))
          → w.active_pos ≡ held
          → IsCoherent (execute_exit h cfg fuel reason w).1
      of none e =
          subst (λ done. IsCoherent done.1) (sym (execute_exit-none h cfg fuel reason w e)) coherent
      of (some p) e = Exited-IsCoherent (execute_exit-Exited h cfg fuel p reason w e).1 coherent

  Opening-IsCoherent :
      {signal : Signal F} {w w' : World F E} {r : Result F (Unit {0})}
      → Opening cfg signal w w' r
      → IsCoherent w
      → IsCoherent w'
  Opening-IsCoherent {w = w} {w' = w'} (entered held is_opened a o c n) coherent =
      has_active-some w' held a ∙ sym o
  Opening-IsCoherent {w = w} {w' = w'} (turned_down e a o c n) coherent =
      has_active-same w w' a ∙ coherent ∙ sym o

  -- A signal, however it ends, leaves pipeline and risk engine in agreement.
  pub process_signal-IsCoherent :
      (signal : Signal F) (w : World F E)
      → IsCoherent w
      → IsCoherent (process_signal h cfg fuel signal w).1
  process_signal-IsCoherent signal w coherent =
      Opening-IsCoherent (process_signal-Opening h cfg fuel signal w).1 coherent
