-- ===== src/Program/Startup.antt =====
-- server/cmd/scalper/main.go up to the loop: the configuration, the choice of the exchange, and the
-- servers and goroutines that are started, with what ends the program on the way.
pub mod Launch
pub mod Steps
pub mod Endings
pub mod Ready
use botbtc.Prelude.{
  ℕ, ℤ, pos, negsuc, add64, mul64, leb_ℤ, ◌&&◌, ◌++◌, Bool, true, false, Option, none, some, String,
  str_eq, List, [], ◌∷◌, if◌then◌else◌,
}
use botbtc.Float.{Float64}
use botbtc.Config.{
  BingxConfig, StorageConfig, Config, Loaded, loaded, unreadable, unparsed, load_config,
}
use botbtc.Risk.{new_engine}
use botbtc.Orders.{new_manager}
use botbtc.Metrics.{new_metrics}
use botbtc.Storage.{new_async_writer}
use botbtc.Storage.Events.{Event}
use botbtc.Bingx.Paper.{PaperClient, new_paper_client}
use botbtc.Bingx.Feeds.{Feed, new_feed}
use botbtc.Bingx.Live.{LiveClient, LiveError, Network, sync_server_time}
use botbtc.Bridge.Server.{Server, new_server}
use botbtc.Alerts.{AlertSender, new_alert_sender}
use botbtc.Bridge.PriceFeed.{PriceFeedServer, new_price_feed_server}
use botbtc.Execution.State.{new_pipeline}
use botbtc.Program.{Program}

-- `exchange`
pub data Exchange (F : Type 0) : Type 0 where
  paper : PaperClient F → Exchange F
  live : LiveClient → Exchange F

-- What runs beside the loop, by the function that runs: `run`, the `Start`s, ListenAndServe on a port,
-- the `acceptLoop`s on an address, and the loop that forwards ticks.
pub data Goroutine : Type 0 where
  event_writer : Goroutine
  market_poller : Goroutine
  ws_market_client : Goroutine
  metrics_server : (port : ℤ) → Goroutine
  bridge_accept : (addr : String) → Goroutine
  price_feed_accept : (addr : String) → Goroutine
  tick_forwarder : Goroutine

-- The errors that `main` exits with, by status 1.
pub data Failure : Type 0 where
  config_unreadable : Failure
  config_unparsed : Failure
  clock_not_synced : LiveError → Failure
  log_not_opened : Failure
  bridge_not_listening : (addr : String) → Failure
  price_feed_not_listening : (addr : String) → Failure

-- The level of the logger.
pub data Level : Type 0 where
  debug : Level
  info : Level
  warn : Level
  error : Level

unfoldable pub log_level : (level : String) → Level
log_level level =
    if str_eq level "debug"
    then debug
    else if str_eq level "warn"
    then warn
    else if str_eq level "error"
    then error
    else info

-- What `main` holds when it enters the loop.
pub record Scalper (F E Line Client : Type 0) : Type 0 where
  pub cfg : Config F
  pub level : Level
  pub exchange : Exchange F
  pub market_poller : Feed F
  pub ws_client : Feed F
  pub program : Program F E Line
  pub bridge_server : Server F
  pub price_feed : PriceFeedServer Client
  pub alerts : AlertSender
  pub started : List Goroutine

-- `panicked` is make(chan Event, n) of a negative n, or time.NewTicker(d) of a d that is not positive.
pub data Outcome (A : Type 0) : Type 0 where
  done : A → Outcome A
  exited : Failure → Outcome A
  panicked : Outcome A

-- What start-up calls: os.ReadFile and yaml.Unmarshal, os.OpenFile of the log, net.Listen("tcp", …), and
-- fmt's "%s:%d"; `server_time` is the JSON of the exchange's time. `panics_first` is Go's choice of when
-- a goroutine that panics runs: before the servers listen, or when they do already.
pub record System (F E Bytes : Type 0) : Type 0 where
  pub read_file : E → String → Option Bytes
  pub unmarshal : Bytes → Option (Config F)
  pub open_log : String → E → Bool × E
  pub listen : String → E → Bool × E
  pub address : String → ℤ → String
  pub server_time : Bytes → Option ℤ
  pub panics_first : E → Bool

-- `NewLiveClient`
unfoldable pub new_live_client : BingxConfig → LiveClient
new_live_client cfg = record {
  base_url = cfg.base_url;
  api_key = cfg.api_key;
  api_secret = cfg.api_secret;
  recv_window = cfg.recv_window;
  server_time_delta = pos 0;
}

module _ {E : Type 0} where
  infixl 5 ◌>>=◌
  abbrev pub ◌>>=◌ :
      {A B : Type 0} → (E → Outcome A × E) → (A → E → Outcome B × E) → E → Outcome B × E
  ◌>>=◌ m f e =
      let (r, e') = m e in
      elim r [ done a ↦ f a e' | exited why ↦ (exited why, e') | panicked ↦ (panicked, e') ]

  abbrev pub exit_unless : Failure → (E → Bool × E) → E → Outcome (Unit {0}) × E
  exit_unless why call e =
      let (success, e') = call e in (if success then done tt else exited why, e')

  abbrev pub panic_if : (E → Bool) → E → Outcome (Unit {0}) × E
  panic_if bad e = (if bad e then panicked else done tt, e)

module _ {F E Bytes : Type 0} (sys : System F E Bytes) where
  unfoldable pub load : (path : String) → E → Outcome (Config F) × E
  unfolding load_config
  load path e = (
    elim (load_config (sys.read_file e) sys.unmarshal path) [
      | loaded cfg ↦ done cfg
      | unreadable path ↦ exited config_unreadable
      | unparsed path ↦ exited config_unparsed
    ],
    e,
  )

  abbrev pub bridge_address : Config F → String
  bridge_address cfg = sys.address cfg.bridge.host cfg.bridge.port

  abbrev pub price_feed_address : Config F → String
  price_feed_address cfg = sys.address cfg.bridge.host (add64 cfg.bridge.port (pos 1))

module _ {F E Bytes : Type 0} ⦃fl : Float64 F⦄ (sys : System F E Bytes)
    (net : Network E Bytes) where
  -- `BingX Client (paper or live)`
  unfoldable pub select_exchange : BingxConfig → E → Outcome (Exchange F) × E
  unfolding new_paper_client new_live_client sync_server_time
  select_exchange cfg e =
      let (failure, client, e') = sync_server_time net sys.server_time (new_live_client cfg) e in
      if cfg.paper_mode
      then (done (paper (new_paper_client cfg.symbol (fl.literal 100_000 0))), e)
      else (
        elim failure [ none ↦ done (live client) | some why ↦ exited (clock_not_synced why) ],
        e',
      )
