-- ===== src/Storage/Events.antt =====
-- The events of server/internal/storage/async_writer.go, and the calls that write one of each type.
use botbtc.Prelude.{ℤ, String, Dict, Option}
use botbtc.Model.{Signal, Order}
use botbtc.Latency.{LatencyRecord}
use botbtc.Storage.{AsyncWriter, write}

-- The `interface{}` of an event, by what the program writes there.
pub data EventData (F : Type 0) : Type 0 where
  of_signal : Signal F → EventData F
  of_order : Order F → EventData F
  of_latency : LatencyRecord → EventData F
  of_error : (error_type message : String) (context : Dict String) → EventData F

-- `kind` is the field `Type`.
pub record Event (F : Type 0) : Type 0 where
  pub kind : String
  pub timestamp : ℤ
  pub content : EventData F

module _ {F Line : Type 0} (line : Event F → Option Line) (now : ℤ) where
  unfoldable pub write_signal : Signal F → AsyncWriter (Event F) Line → AsyncWriter (Event F) Line
  unfolding write
  write_signal signal w =
      (write line (record { kind = "signal"; timestamp = now; content = of_signal signal }) w).0

  unfoldable pub write_order : Order F → AsyncWriter (Event F) Line → AsyncWriter (Event F) Line
  unfolding write
  write_order order w =
      (write line (record { kind = "order"; timestamp = now; content = of_order order }) w).0

  unfoldable pub write_latency :
      LatencyRecord → AsyncWriter (Event F) Line → AsyncWriter (Event F) Line
  unfolding write
  write_latency rec w =
      (write line (record { kind = "latency"; timestamp = now; content = of_latency rec }) w).0

  unfoldable pub write_error :
      (error_type message : String)
      → Dict String
      → AsyncWriter (Event F) Line
      → AsyncWriter (Event F) Line
  unfolding write
  write_error error_type message context w =
      (write line
        (record { kind = "error"; timestamp = now; content = of_error error_type message context })
        w).0
