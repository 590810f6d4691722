-- ===== src/Program/Startup/Endings.antt =====
-- The ways in which start-up ends.
use botbtc.Prelude.{
  ℕ, pos, negsuc, ◌≡◌, ◌<ℤ◌, ◌≤ℤ◌, mul64, ◌∷◌, [], true, false, Option, none, some, String,
}
use botbtc.Float.{Float64}
use botbtc.Config.{Config}
use botbtc.Risk.{new_engine}
use botbtc.Orders.{new_manager}
use botbtc.Alerts.{new_alert_sender}
use botbtc.Bridge.Server.{new_server}
use botbtc.Bridge.PriceFeed.{new_price_feed_server}
use botbtc.Bingx.Feeds.{new_feed}
use botbtc.Metrics.{new_metrics}
use botbtc.Storage.{new_async_writer}
use botbtc.Storage.Events.{Event}
use botbtc.Bingx.Live.{LiveError, Network, sync_server_time}
use botbtc.Execution.State.{new_pipeline}
use botbtc.Program.Startup.Steps.{IsLoaded, IsExchange}
use botbtc.Program.Startup.{
  config_unreadable, config_unparsed, clock_not_synced, log_not_opened, bridge_not_listening,
  price_feed_not_listening, Scalper, Outcome, done, exited, panicked, System, new_live_client,
  log_level, event_writer, ws_market_client, metrics_server, bridge_accept, price_feed_accept,
  tick_forwarder, Goroutine, bridge_address, price_feed_address,
}

module _ {F E Bytes : Type 0} (sys : System F E Bytes) (cfg : Config F) where
  -- The outside after the log was opened, after the bridge listened and after the price feed did.
  abbrev pub after_log : E → E
  after_log e = (sys.open_log cfg.storage.event_log_file e).1

  abbrev pub after_bridge : E → E
  after_bridge e = (sys.listen (bridge_address sys cfg) (after_log e)).1

  abbrev pub after_feed : E → E
  after_feed e = (sys.listen (price_feed_address sys cfg) (after_bridge e)).1

module _ {F E Bytes Line Client : Type 0} ⦃fl : Float64 F⦄ (sys : System F E Bytes)
    (net : Network E Bytes) (line : Event F → Option Line) where
  -- The loop can begin: the log was opened, both servers listen, in this order, and the flush interval is
  -- positive; with a new pipeline over what these calls left, a risk engine of the configuration, counters
  -- at zero, an empty log, and the goroutines in the order in which they were started.
  pub record IsReady (path : String) (e : E) (s : Scalper F E Line Client) : Type 0 where
    pub from_file : IsLoaded sys net path e s.cfg
    pub its_exchange : IsExchange sys net s.cfg.bingx s.exchange
    pub before : E
    pub logging : (sys.open_log s.cfg.storage.event_log_file before).0 ≡ true
    pub bridging : (sys.listen (bridge_address sys s.cfg) (after_log sys s.cfg before)).0 ≡ true
    pub feeding :
        (sys.listen (price_feed_address sys s.cfg) (after_bridge sys s.cfg before)).0 ≡ true
    pub new_world :
        s.program.world
        ≡ new_pipeline
            (after_feed sys s.cfg before)
            (new_engine s.cfg.risk)
            (new_manager "scalper")
            []
    pub no_counts : s.program.metrics ≡ new_metrics
    pub size : ℕ
    pub its_size : s.cfg.storage.buffer_size ≡ pos size
    pub new_log : s.program.events ≡ new_async_writer line size
    pub ticking : pos 0 <ℤ mul64 s.cfg.storage.flush_interval_ms (pos 1_000_000)
    pub its_level : s.level ≡ log_level s.cfg.logging.level
    pub no_books : (s.market_poller ≡ new_feed) × (s.ws_client ≡ new_feed)
    pub no_clients : s.price_feed ≡ new_price_feed_server
    pub alerting :
        s.alerts
        ≡ new_alert_sender s.cfg.monitoring.telegram_bot_token s.cfg.monitoring.telegram_chat_id
            s.cfg.monitoring.enable_alerts
    pub connections : s.bridge_server ≡ new_server s.cfg.bridge.max_connections
    pub running :
        s.started
        ≡ event_writer
          ∷ Goroutine.market_poller
          ∷ ws_market_client
          ∷ metrics_server s.cfg.monitoring.prometheus_port
          ∷ bridge_accept (bridge_address sys s.cfg)
          ∷ price_feed_accept (price_feed_address sys s.cfg)
          ∷ tick_forwarder
          ∷ []

  -- How start-up ends; every failure is that of the call it is named for.
  pub data Ended (path : String) (e : E) : Outcome (Scalper F E Line Client) → Type 0 where
    ready : (s : Scalper F E Line Client) → IsReady path e s → Ended path e (done s)
    no_file : sys.read_file e path ≡ none → Ended path e (exited config_unreadable)
    no_yaml :
        (bytes : Bytes)
        → sys.read_file e path ≡ some bytes
        → sys.unmarshal bytes ≡ none
        → Ended path e (exited config_unparsed)
    no_clock :
        (cfg : Config F) (why : LiveError) (e' : E)
        → IsLoaded sys net path e cfg
        → cfg.bingx.paper_mode ≡ false
        → (sync_server_time net sys.server_time (new_live_client cfg.bingx) e').0 ≡ some why
        → Ended path e (exited (clock_not_synced why))
    no_log :
        (cfg : Config F) (e' : E)
        → IsLoaded sys net path e cfg
        → (sys.open_log cfg.storage.event_log_file e').0 ≡ false
        → Ended path e (exited log_not_opened)
    bad_size :
        (cfg : Config F) (n : ℕ)
        → IsLoaded sys net path e cfg
        → cfg.storage.buffer_size ≡ negsuc n
        → Ended path e panicked
    bad_interval :
        (cfg : Config F)
        → IsLoaded sys net path e cfg
        → mul64 cfg.storage.flush_interval_ms (pos 1_000_000) ≤ℤ pos 0
        → Ended path e panicked
    no_bridge :
        (cfg : Config F) (before : E)
        → IsLoaded sys net path e cfg
        → (sys.open_log cfg.storage.event_log_file before).0 ≡ true
        → (sys.listen (bridge_address sys cfg) (after_log sys cfg before)).0 ≡ false
        → Ended path e (exited (bridge_not_listening (bridge_address sys cfg)))
    no_price_feed :
        (cfg : Config F) (before : E)
        → IsLoaded sys net path e cfg
        → (sys.open_log cfg.storage.event_log_file before).0 ≡ true
        → (sys.listen (bridge_address sys cfg) (after_log sys cfg before)).0 ≡ true
        → (sys.listen (price_feed_address sys cfg) (after_bridge sys cfg before)).0 ≡ false
        → Ended path e (exited (price_feed_not_listening (price_feed_address sys cfg)))
