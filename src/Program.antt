-- ===== src/Program.antt =====
-- server/cmd/scalper/main.go: the loop that takes signals from the bridge, and the end of the program.
pub mod Counting
pub mod Startup
use botbtc.Prelude.{ℕ, ℤ, inc64, Bool, true, false, Option, if◌then◌else◌}
use botbtc.Float.{Float64}
use botbtc.Config.{Config}
use botbtc.Model.{Signal}
use botbtc.Metrics.{Metrics}
use botbtc.Storage.{AsyncWriter, stop}
use botbtc.Storage.Events.{Event, write_signal}
use botbtc.Execution.State.{Host, World, Result, ok, err}
use botbtc.Execution.Process.{process_signal, has_active_position}

-- What the loop works on: the pipeline with its surroundings, `metrics` and `eventWriter`.
pub record Program (F E Line : Type 0) : Type 0 where
  pub world : World F E
  pub metrics : Metrics F
  pub events : AsyncWriter (Event F) Line

module _ {F : Type 0} where
  -- `SignalsReceived.Add(1)`, `SignalsRejected.Add(1)`, and both counters of a success
  unfoldable pub count_received : Metrics F → Metrics F
  count_received m = record m { signals_received = inc64 m.signals_received }

  unfoldable pub count_rejected : Metrics F → Metrics F
  count_rejected m = record m { signals_rejected = inc64 m.signals_rejected }

  unfoldable pub count_accepted : Metrics F → Metrics F
  count_accepted m = record m {
    signals_accepted = inc64 m.signals_accepted;
    orders_placed = inc64 m.orders_placed;
  }

  -- The counts of the loop by what `ProcessSignal` returned.
  unfoldable pub counted : Result F (Unit {0}) → Metrics F → Metrics F
  unfolding count_rejected count_accepted
  counted (ok done) m = count_accepted m
  counted (err e) m = count_rejected m

module _ {F E Line : Type 0} ⦃fl : Float64 F⦄ (h : Host F E) (cfg : Config F)
    (line : Event F → Option Line) (fuel : ℕ) where
  -- `case sig, ok := <-bridgeServer.SignalChan()`, with a signal
  unfoldable pub on_signal : Signal F → Program F E Line → Program F E Line
  unfolding count_received count_rejected counted write_signal
  on_signal sig p =
      let received = count_received p.metrics in
      let (t, env) = h.now p.world.env in
      let events = write_signal line t sig p.events in
      let w = record p.world { env = env } in
      let (result, w') = process_signal h cfg fuel sig w in
      if has_active_position w
      then record { world = w; metrics = count_rejected received; events = events }
      else record { world = w'; metrics = counted result received; events = events }

  -- From the label `shutdown` on, where the program ends. `cancel()` lets the writer's goroutine see the
  -- end of the context, and `Stop` closes its channel; which of them it sees first is open (Storage.Log).
  unfoldable pub shutdown : Program F E Line → Program F E Line
  unfolding stop
  shutdown p = record p { events = stop line p.events }
