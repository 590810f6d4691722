-- ===== src/Lib.antt =====
-- A Bitcoin scalper in Go: signals from a trading terminal arrive over a bridge, are judged, sized and
-- entered at an exchange, and the resulting position is watched until it is left. All paths below are
-- from the repository's root; `internal` stands for server/internal.
--
-- The parts, and the files that model them:
--   Config                 internal/config/config.go and its LoadConfig
--   Model                  internal/model: Signal, Order, Position; Model.SignalState, OrderState and PositionState
--                          hold the tables of allowed transitions and CanTransitionTo, Model.Transition
--                          the search that they share, Model.Lifecycles what the tables imply
--   Risk                   internal/risk/engine.go, each method of Engine a function on its state
--   Gate                   internal/strategygate/gate.go, Validate
--   Quantity               internal/quantity/calculator.go, Calculate and the normalisations
--   Orders                 internal/orders/manager.go and idgen.go, with the map of orders by client id
--   Latency                internal/monitoring/latency.go
--   Bingx, Bingx.Paper     internal/bingx/client.go and paper.go; Paper.Prices its requests, Fills its orders,
--                          Trades and Closing the prices, positions and profits
--   Bingx.Feeds            internal/bingx/ws.go and ws_realtime.go: Newest and Stream on their channels,
--                          Freshness on the gate's view of their books
--   Bingx.Signing          internal/bingx/auth.go: Determinism on the order of the query,
--                          Maps on the parameters as a map
--   Bingx.Live             internal/bingx/live.go: its requests, the methods in Calls; Requests and Orders on
--                          what is sent and accepted, Clock on the clock's difference
--   Bridge                 internal/bridge: protocol.go; Bridge.Server is server.go, with its Start and
--                          Stop in Server.Stopping, and PriceFeed is pricefeed.go, with Start and
--                          Stop in PriceFeed.Stopping, Broadcasts.Runs on what its clients receive
--   Metrics                internal/monitoring/metrics.go; Windows on its latency windows
--   Channel, Storage       Go's channels as used here, and internal/storage/async_writer.go: Runs the calls and
--                          steps of its goroutine, Calls and Log what the file holds after them
--   Program                server/cmd/scalper/main.go from the signal loop on, Counting on its counters;
--                          Program.Startup and Startup.Launch what comes before
--                          the loop, Endings and Ready how it ends
--   Alerts, Clock          internal/monitoring/alerts.go and internal/timeutil/clock.go
--   Benchmark              tools/latency_benchmark/main.go; Report its tests, Average and Clocks on the
--                          measured difference of the clocks
--   Execution              internal/execution: State is the Pipeline and what it calls, Process is
--                          ProcessSignal (pipeline.go), Entry and Poll are entry.go, Exit and Monitor are
--                          exit.go, Monitor.Staying on when a position is kept; Frames and Outcomes are
--                          the rules for reasoning about their methods, Coherence and Runs the position
--                          as two parts record it; Execution.Live and Execution.Simulated are the
--                          pipeline over each of the two clients
--   Float                  Go's float64 with math and strconv, a parameter; Float.Fixed is an instance
--   Tests                  concrete inputs
-- Process calls Risk, Gate, Quantity and Entry, and Entry calls Orders and Latency; Monitor calls Exit,
-- and Exit reports to Risk. Program takes the signals that Bridge passed on, writes them to Storage, gives
-- them to Process and counts in Metrics; the books of Bingx.Feeds are what Gate and Execution judge by.
-- For Execution the interfaces Client and MarketDataProvider, the clock, the context and the date formats
-- are the record Execution.State.Host over a state of its own, so a theorem on the pipeline holds for
-- every exchange; Bingx.Paper and Bingx.Live.Calls are the two clients of the repository, and
-- Program.Startup chooses between them.
--
-- How the code is read:
--   - A method is a function from a state to its result and the next state; in Execution a do block over
--     the pipeline's state, in which an error ends the method and keeps the state reached so far. A long
--     method is cut where it branches, and the pieces call each other in the code's order.
--   - An error or a reject reason is a constructor with the values that the code formats into its text.
--   - int and int64 are integers with the wrap-around of 64 bits written out; a time is in nanoseconds.
--   - float64 is an abstract type with the operations that the code uses. Theorems that need laws take
--     IsIeee, laws of IEEE 754 away from NaN; no theorem relies on exact arithmetic.
--   - A Go map is an association list; `range` over a map visits it in an order that Go leaves open: here
--     it is the list's, or, for GetActiveEntryOrder, an argument. Bingx.Signing.Maps takes the parameters
--     of a request as the quotient of such lists that forgets their order.
--   - Mutexes make the methods of Engine, Manager, LatencyTracker and PaperClient single steps. The
--     pipeline's own methods are single steps too in Execution.Runs; the interleaving of their parts is
--     not modelled.
--   - pollOrderFill runs on fuel, one unit a round; a round that goes on sleeps 20 ms, so one unit for
--     each 20 ms of the timeout and one more are enough. monitorPosition has no end of its own, and
--     runs for a given number of ticks.
--   - time.NewTicker panics in the event writer's goroutine when the flush interval is not positive. Go may
--     run it before the servers listen or later; System.panics_first decides, and the loop is not reached.
--   - A goroutine's loop is a function for one round, and its surroundings (a read that times out, a
--     channel with room, a timer) are the argument of the round; runs take rounds in any order.
--   - encoding/json, compress/gzip and fmt are records of functions (Bridge.Json, Bingx.Feeds.Wire,
--     Bingx.Live.Network with net/http, Bingx.Live.Calls.Bodies, Alerts.Telegram, Benchmark.Probe,
--     Program.Startup.System) or arguments.
--
-- Not modelled: logging, flags and the banner; the HTTP server of the metrics; sockets beyond whether they
-- listen, connect, read and write; delays that nothing depends on; what a failed write leaves of its line in
-- the event log, and its Sync and Close; a buffer size that is too large for memory;
-- buildFormBody in live.go, which nothing calls. The MetaTrader programs and the
-- database's schema are in other languages.
pub mod Prelude
pub mod Channel
pub mod Float
pub mod Config
pub mod Model
pub mod Risk
pub mod Quantity
pub mod Bingx
pub mod Gate
pub mod Orders
pub mod Latency
pub mod Execution
pub mod Bridge
pub mod Metrics
pub mod Storage
pub mod Program
pub mod Benchmark
pub mod Alerts
pub mod Clock
pub mod Tests
