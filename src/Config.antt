-- ===== src/Config.antt =====
-- server/internal/config/config.go: the configuration and its loading.
use botbtc.Prelude.{ℤ, Bool, Option, none, some, List, String}

pub record BridgeConfig : Type 0 where
  pub host : String
  pub port : ℤ
  pub read_timeout_ms : ℤ
  pub max_connections : ℤ

pub record BingxConfig : Type 0 where
  pub api_key : String
  pub api_secret : String
  pub base_url : String
  pub ws_market_url : String
  pub ws_account_url : String
  pub recv_window : ℤ
  pub symbol : String
  pub account_id : String
  pub paper_mode : Bool

pub record RiskConfig (F : Type 0) : Type 0 where
  pub base_risk_percent : F
  pub escalated_risk_percent : F
  pub escalate_after_consecutive_losses : ℤ
  pub max_daily_trades : ℤ
  pub max_daily_stop_losses : ℤ
  pub max_open_positions : ℤ

pub record TradeConfig (F : Type 0) : Type 0 where
  pub max_trade_duration_ms : ℤ
  pub initial_stop_loss_usd : F
  pub max_take_profit_usd : F
  pub time_stop_no_progress_ms : ℤ
  pub min_favorable_move_usd : F

pub record TrailingStep (F : Type 0) : Type 0 where
  pub profit_usd : F
  pub lock_usd : F

pub record TrailingConfig (F : Type 0) : Type 0 where
  pub enabled : Bool
  pub activation_usd : F
  pub steps : List (TrailingStep F)

pub record LatencyConfig : Type 0 where
  pub max_signal_age_ms : ℤ
  pub max_mt5_to_bridge_ms : ℤ
  pub max_signal_to_ack_ms : ℤ
  pub max_signal_to_fill_ms : ℤ

pub record OrdersConfig (F : Type 0) : Type 0 where
  pub order_type : String
  pub maker_probe_timeout_ms : ℤ
  pub aggressive_ioc_timeout_ms : ℤ
  pub max_total_entry_window_ms : ℤ
  pub max_reprice_attempts : ℤ
  pub max_entry_slippage_usd : F
  pub max_exit_slippage_usd : F

pub record LoggingConfig : Type 0 where
  pub level : String
  pub file : String

pub record MonitoringConfig : Type 0 where
  pub prometheus_port : ℤ
  pub enable_alerts : Bool
  pub telegram_bot_token : String
  pub telegram_chat_id : String

pub record StorageConfig : Type 0 where
  pub event_log_file : String
  pub buffer_size : ℤ
  pub flush_interval_ms : ℤ

pub record QuantityConfig (F : Type 0) : Type 0 where
  pub min_qty : F
  pub max_qty : F
  pub qty_step : F
  pub price_precision : ℤ
  pub qty_precision : ℤ
  pub tick_size : F
  pub max_leverage : ℤ
  pub default_leverage : ℤ

pub record Config (F : Type 0) : Type 0 where
  pub bridge : BridgeConfig
  pub bingx : BingxConfig
  pub risk : RiskConfig F
  pub trade : TradeConfig F
  pub trailing : TrailingConfig F
  pub latency : LatencyConfig
  pub orders : OrdersConfig F
  pub quantity : QuantityConfig F
  pub logging : LoggingConfig
  pub monitoring : MonitoringConfig
  pub storage : StorageConfig

-- The result of `LoadConfig`, with its two errors.
pub data Loaded (F : Type 0) : Type 0 where
  loaded : Config F → Loaded F
  unreadable : (path : String) → Loaded F
  unparsed : (path : String) → Loaded F

-- `LoadConfig`; `read_file` is os.ReadFile and `unmarshal` yaml.Unmarshal into an empty `Config`.
unfoldable pub load_config :
    {F Bytes : Type 0} (read_file : String → Option Bytes) (unmarshal : Bytes → Option (Config F))
    → (path : String) → Loaded F
load_config read_file unmarshal path = elim (read_file path) [
  | none ↦ unreadable path
  | some bytes ↦ elim (unmarshal bytes) [ none ↦ unparsed path | some cfg ↦ loaded cfg ]
]
