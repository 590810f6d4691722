-- ===== src/Program/Counting.antt =====
-- What the counters of the signals count.
use botbtc.Prelude.{ℕ, ◌+◌, ◌-◌, ◌≤◌, pos, ◌≡◌, not, ◌&&◌, Option, if◌then◌else◌}
use botbtc.Float.{Float64}
use botbtc.Config.{Config}
use botbtc.Model.{Signal}
use botbtc.Metrics.{Metrics, new_metrics}
use botbtc.Storage.{AsyncWriter}
use botbtc.Storage.Events.{Event}
use botbtc.Execution.State.{Host, World}
use botbtc.Execution.Runs.{Step}
use botbtc.Execution.Process.{has_active_position}
use botbtc.Execution.Process.Opening.{Opening}
use botbtc.Program.{Program, on_signal}

module _ {F E Line : Type 0} ⦃fl : Float64 F⦄ (h : Host F E) (cfg : Config F)
    (line : Event F → Option Line) where
  -- A position was opened between the two states.
  abbrev pub opened_one : World F E → World F E → ℕ
  opened_one w w' = if not (has_active_position w) && has_active_position w' then 1 else 0

  -- Signals of the loop, and whatever else happens to the pipeline: the number of signals so far and of
  -- those that opened a position.
  pub data Run : (received opened : ℕ) → Program F E Line → Type 0 where
    start :
        (w : World F E) (events : AsyncWriter (Event F) Line)
        → Run 0 0 (record { world = w; metrics = new_metrics; events = events })
    signalled :
        {received opened : ℕ} {p : Program F E Line} (fuel : ℕ) (sig : Signal F)
        → Run received opened p
        → Run
            (received + 1)
            (opened + opened_one p.world (on_signal h cfg line fuel sig p).world)
            (on_signal h cfg line fuel sig p)
    meanwhile :
        {received opened : ℕ} {p : Program F E Line} {w : World F E}
        → Run received opened p
        → Step h cfg p.world w
        → Run received opened (record p { world = w })
    wrote :
        {received opened : ℕ} {p : Program F E Line} (events : AsyncWriter (Event F) Line)
        → Run received opened p
        → Run received opened (record p { events = events })

  pub record IsCounted (received opened : ℕ) (m : Metrics F) : Type 0 where
    pub all : m.signals_received ≡ pos received
    pub accepted : m.signals_accepted ≡ pos opened
    pub placed : m.orders_placed ≡ pos opened
    pub rejected : m.signals_rejected ≡ pos (received - opened)
    pub some_of : opened ≤ received
