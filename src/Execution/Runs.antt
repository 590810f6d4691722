-- ===== src/Execution/Runs.antt =====
-- The pipeline's work as a step relation: signals from the bridge, rounds of monitors, the kill switch
-- and whatever happens outside, in any order. A method is one step here: the interleaving of two
-- methods' calls is not modelled.
use botbtc.Prelude.{ℕ, ◌≡◌, refl, sym, ◌∙◌, some, String}
use botbtc.Float.{Float64}
use botbtc.Config.{Config, RiskConfig}
use botbtc.Model.{Signal}
use botbtc.Orders.{Manager}
use botbtc.Latency.{LatencyTracker}
use botbtc.Risk.{set_kill_switch, new_engine}
use botbtc.Execution.State.{ActivePosition, Host, World, new_pipeline}
use botbtc.Execution.Process.{process_signal, has_active_position}
use botbtc.Execution.Process.Refusals.{IsUntouched, process_signal-IsUntouched}
use botbtc.Execution.Monitor.{Progress, monitor_round}
use botbtc.Execution.Monitor.Watching.{monitor_round-IsCoherent}
use botbtc.Execution.Coherence.{IsCoherent, has_active-some, process_signal-IsCoherent}

module _ {F E : Type 0} ⦃fl : Float64 F⦄ (h : Host F E) (cfg : Config F) where
  pub data Step (w : World F E) : World F E → Type 0 where
    signalled : (fuel : ℕ) (signal : Signal F) → Step w (process_signal h cfg fuel signal w).1
    monitored : (fuel : ℕ) (progress : Progress F) → Step w (monitor_round h cfg fuel progress w).1
    killed : (reason : String) → Step w (record w { risk = set_kill_switch reason w.risk })
    elsewhere : (e : E) → Step w (record w { env = e })

  pub data Run (w : World F E) : World F E → Type 0 where
    start : Run w w
    later : {v v' : World F E} → Run w v → Step v v' → Run w v'

  Step-IsCoherent : {w w' : World F E} → Step w w' → IsCoherent w → IsCoherent w'
  unfolding has_active_position set_kill_switch
  Step-IsCoherent {w} (signalled fuel signal) c = process_signal-IsCoherent h cfg fuel signal w c
  Step-IsCoherent {w} (monitored fuel progress) c = monitor_round-IsCoherent h cfg fuel progress w c
  Step-IsCoherent (killed reason) c = c
  Step-IsCoherent (elsewhere e) c = c

  Run-IsCoherent : {w w' : World F E} → Run w w' → IsCoherent w → IsCoherent w'
  Run-IsCoherent start c = c
  Run-IsCoherent (later r s) c = Step-IsCoherent s (Run-IsCoherent r c)

  module _ (risk_cfg : RiskConfig F) (env : E) (manager : Manager F)
      (tracker : LatencyTracker) where
    abbrev pub fresh : World F E
    fresh = new_pipeline env (new_engine risk_cfg) manager tracker

    -- From a new pipeline with a new risk engine, methods taken as single steps, whatever signals
    -- arrive, whatever the monitors do and whatever happens outside, the pipeline holds a position
    -- exactly when the risk engine counts one as open.
    pub position-agrees :
        {w : World F E} → Run fresh w → has_active_position w ≡ w.risk.has_open_position
    unfolding new_pipeline new_engine has_active_position
    position-agrees r = Run-IsCoherent r refl

    -- While a pipeline that was started so holds a position, every signal is refused by the risk
    -- engine, with nothing asked of the exchange, and orders and position stay as they are.
    pub one_position :
        (fuel : ℕ) (signal : Signal F) {w : World F E} (p : ActivePosition F)
        → Run fresh w
        → w.active_pos ≡ some p
        → let done = process_signal h cfg fuel signal w in
          IsUntouched h cfg fuel signal w done.1 done.0
    one_position fuel signal {w} p r e =
        process_signal-IsUntouched h cfg fuel signal w
          (sym (position-agrees r) ∙ has_active-some w p e)
