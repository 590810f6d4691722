-- ===== src/Program/Startup/Launch.antt =====
-- server/cmd/scalper/main.go from `Core Components` to the loop, and `main` up to the loop.
use botbtc.Prelude.{ℕ, ℤ, pos, negsuc, mul64, leb_ℤ, ◌&&◌, ◌++◌, Bool, Option, String, [], ◌∷◌}
use botbtc.Float.{Float64}
use botbtc.Config.{StorageConfig, Config}
use botbtc.Risk.{new_engine}
use botbtc.Orders.{new_manager}
use botbtc.Metrics.{new_metrics}
use botbtc.Storage.{new_async_writer}
use botbtc.Storage.Events.{Event}
use botbtc.Bingx.Feeds.{new_feed}
use botbtc.Bingx.Live.{Network}
use botbtc.Bridge.Server.{new_server}
use botbtc.Alerts.{new_alert_sender}
use botbtc.Bridge.PriceFeed.{new_price_feed_server}
use botbtc.Execution.State.{new_pipeline}
use botbtc.Program.Startup.{
  Exchange, Goroutine, event_writer, ws_market_client, metrics_server, bridge_accept,
  price_feed_accept, tick_forwarder, log_not_opened, bridge_not_listening, price_feed_not_listening,
  log_level, Scalper, Outcome, done, panicked, System, ◌>>=◌, exit_unless, panic_if, load,
  bridge_address, price_feed_address, select_exchange,
}

module _ {F E Line Client : Type 0} ⦃fl : Float64 F⦄ (line : Event F → Option Line) where
  -- `Core Components`, and all that is made of the configuration; the goroutines are added as they start.
  unfoldable pub assembled : Config F → Exchange F → (buffer_size : ℕ) → E → Scalper F E Line Client
  unfolding new_pipeline new_engine new_manager new_metrics new_async_writer new_server log_level
  assembled cfg exchange size e = record {
    cfg = cfg;
    level = log_level cfg.logging.level;
    exchange = exchange;
    market_poller = new_feed;
    ws_client = new_feed;
    program = record {
      world = new_pipeline e (new_engine cfg.risk) (new_manager "scalper") [];
      metrics = new_metrics;
      events = new_async_writer line size;
    };
    bridge_server = new_server cfg.bridge.max_connections;
    price_feed = new_price_feed_server;
    alerts =
        new_alert_sender cfg.monitoring.telegram_bot_token cfg.monitoring.telegram_chat_id
          cfg.monitoring.enable_alerts;
    started = [];
  }

  unfoldable pub assemble : Config F → Exchange F → E → Outcome (Scalper F E Line Client) × E
  unfolding assembled
  assemble cfg exchange e = (
    elim cfg.storage.buffer_size [
      | negsuc n ↦ panicked
      | pos size ↦ done (assembled cfg exchange size e)
    ],
    e,
  )

-- `flushInterval` of the event writer, from milliseconds.
abbrev pub flush_interval : StorageConfig → ℤ
flush_interval cfg = mul64 cfg.flush_interval_ms (pos 1_000_000)

-- Whether time.NewTicker panics in the event writer's goroutine.
abbrev pub ticker_panics : StorageConfig → Bool
ticker_panics cfg = leb_ℤ (flush_interval cfg) (pos 0)

module _ {F E Line Client : Type 0} where
  -- A `go` statement, or a `Start` that has one.
  unfoldable pub launch : Goroutine → Scalper F E Line Client → Scalper F E Line Client
  launch goroutine s = record s { started = s.started ++ (goroutine ∷ []) }

module _ {F E Bytes Line Client : Type 0} ⦃fl : Float64 F⦄ (sys : System F E Bytes)
    (net : Network E Bytes) (line : Event F → Option Line) where
  -- The goroutines from `Start async event writer` to `Start Prometheus metrics endpoint`.
  unfoldable pub start_background : Scalper F E Line Client → Scalper F E Line Client
  unfolding launch
  start_background s =
      launch (metrics_server s.cfg.monitoring.prometheus_port)
        (launch ws_market_client (launch Goroutine.market_poller (launch event_writer s)))

  -- The last goroutine is started, and the loop is entered with the outside as start-up left it.
  unfoldable pub looping : Scalper F E Line Client → E → Scalper F E Line Client
  unfolding launch
  looping s e =
      launch tick_forwarder
        (record s { program = record s.program { world = record s.program.world { env = e } } })

  -- A panic of the event writer's goroutine has ended the program before the loop.
  unfoldable pub enter_loop : Scalper F E Line Client → E → Outcome (Scalper F E Line Client) × E
  unfolding looping
  enter_loop s =
      panic_if (λ e. ticker_panics s.cfg.storage) >>= λ ticking e. (done (looping s e), e)

  -- From `Startup` to the loop.
  unfoldable pub start_servers : Scalper F E Line Client → E → Outcome (Scalper F E Line Client) × E
  unfolding enter_loop start_background launch
  start_servers s =
      let bridge = bridge_address sys s.cfg in
      let feed = price_feed_address sys s.cfg in
      let s1 = start_background s in
      let s2 = launch (bridge_accept bridge) s1 in
      let s3 = launch (price_feed_accept feed) s2 in
      panic_if (λ e. ticker_panics s.cfg.storage && sys.panics_first e) >>= λ ticking.
      exit_unless (bridge_not_listening bridge) (sys.listen bridge) >>= λ listening.
      exit_unless (price_feed_not_listening feed) (sys.listen feed) >>= λ feeding. enter_loop s3

  -- From `Async Event Writer` to the loop.
  unfoldable pub start_scalper : Config F → Exchange F → E → Outcome (Scalper F E Line Client) × E
  unfolding assemble start_servers
  start_scalper cfg exchange =
      exit_unless log_not_opened (sys.open_log cfg.storage.event_log_file) >>= λ opened.
      assemble line cfg exchange >>= start_servers

  -- `main` from its first line to the loop.
  unfoldable pub start_up : (path : String) → E → Outcome (Scalper F E Line Client) × E
  unfolding load select_exchange start_scalper
  start_up path = load sys path >>= λ cfg. select_exchange sys net cfg.bingx >>= start_scalper cfg
