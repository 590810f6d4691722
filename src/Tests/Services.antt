-- ===== src/Tests/Services.antt =====
-- The theorems about the bridge, the event log, the metrics and the main loop.
use botbtc.Prelude.{
  ◌≤◌, ℤ, pos, ◌≡◌, arith, Option, none, some, String, str_eq, concat, List, [], ◌∷◌, length, Bool,
  true, false, if◌then◌else◌,
}
use botbtc.Float.Fixed.{micros_float64}
use botbtc.Bridge.{CustomSignal, Json, parse_signal}
use botbtc.Bridge.Parsing.{Outcome, parse_signal_lem}
use botbtc.Bridge.Server.{
  Read, Server, ended, scanned, new_connection, new_server, accept, serve_at, handle_connection,
}
use botbtc.Bridge.Server.Replies.{IsServed, handle_connection_lem}
use botbtc.Bridge.Server.Connections.{Run, start, connected, served, IsCounted, connections_bound}
use botbtc.Storage.{AsyncWriter, new_async_writer, write, receive, on_done, drain, stop}
use botbtc.Storage.Log
use botbtc.Storage.Runs
use botbtc.Storage.Events.{Event}
use botbtc.Metrics.{Window, empty_window, new_metrics}
use botbtc.Metrics.Rotation.{rotate}
use botbtc.Metrics.Windows.{record_all, last_thousand, record_all_lem}
use botbtc.Program.{Program, on_signal}
use botbtc.Program.Counting
use botbtc.Tests.Data.{host, config, signal, outside}
use botbtc.Execution.State.{World, new_pipeline}
use botbtc.Risk.{new_engine}
use botbtc.Orders.{new_manager}

abbrev custom : CustomSignal ℤ
custom = record {
  signal = "LONG";
  side = "";
  timestamp_ms = pos 5;
  velocity250 = pos 0;
  velocity500 = pos 0;
  velocity1000 = pos 0;
}

-- A message is its signal's id; "beat" is a heartbeat and "bad" is no JSON.
abbrev json : Json ℤ String
json = record {
  base_type = λ s. if str_eq s "beat" then some "heartbeat" else some "";
  signal = λ s. if str_eq s "bad" then none else some (record signal { signal_id = s; side = "" });
  custom_signal = λ s. some custom;
  ack = λ a. some (concat a.status a.signal_id);
}

abbrev blank : String → Bool
blank s = str_eq s ""

parse_signal_lem_example : Outcome json "sig-1" (parse_signal json "sig-1")
parse_signal_lem_example = parse_signal_lem json "sig-1"

abbrev reads : List (Read String)
reads =
    scanned "beat" true true
    ∷ scanned "sig-1" true true
    ∷ scanned "bad" true true
    ∷ scanned "sig-2" true false
    ∷ []

handle_connection_lem_example :
    IsServed json blank reads (handle_connection json blank reads new_connection)
handle_connection_lem_example = handle_connection_lem json blank reads

-- Two connections at a limit of one, and a round of the first.
abbrev server : Server ℤ
server = serve_at json blank 0 ended (accept (accept (new_server (pos 1))))

server-Run : Run json blank 1 server
server-Run = served 0 ended (connected (connected start))

connections_bound_example : IsCounted json blank 1 server
connections_bound_example = connections_bound json blank 1 (omega arith) server-Run

abbrev line : String → Option String
line s = if str_eq s "bad" then none else some s

-- Writing the line "b" to the file fails.
abbrev writes : List (String × Bool) → String → Bool
writes calls l = if str_eq l "b" then false else true

-- Three events for a channel of two; then the writer is cancelled, drains one event, and is closed.
abbrev started : AsyncWriter String String
started = new_async_writer line 2

abbrev written : AsyncWriter String String
written = (write line "c" (write line "b" (write line "a" started).0).0).0

abbrev log : AsyncWriter String String
log =
    drain line writes
      (stop line (drain line writes (on_done line writes (receive line writes written))))

record_all_lem_example :
    (w : Window) × ((record_all (pos 7 ∷ pos 9 ∷ []) empty_window ≡ some w)
      × ((w.idx ≡ pos 2)
          × ((length w.samples ≤ 1000)
              × (rotate 2 w.samples ≡ last_thousand (pos 7 ∷ pos 9 ∷ [])))))
record_all_lem_example = record_all_lem (pos 7 ∷ pos 9 ∷ []) (omega arith)

abbrev fresh : World ℤ ℤ
fresh = new_pipeline outside (new_engine config.risk) (new_manager "scalper") []

abbrev event_line : Event ℤ → Option String
event_line e = some e.kind

abbrev program : Program ℤ ℤ String
program = record { world = fresh; metrics = new_metrics; events = new_async_writer event_line 8 }

abbrev once : Program ℤ ℤ String
once = on_signal host config event_line 100 signal program
