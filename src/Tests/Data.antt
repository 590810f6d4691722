-- ===== src/Tests/Data.antt =====
-- Test data: a configuration like configs/dev.yaml, a signal, an exchange, and a paper client.
use botbtc.Prelude.{ℕ, ◌*◌, ℤ, pos, ◌+ℤ◌, true, false, none, some, List, [], ◌∷◌, String}
use botbtc.Float.Fixed.{micros_float64}
use botbtc.Config.{
  BridgeConfig, BingxConfig, RiskConfig, TradeConfig, TrailingStep, LatencyConfig, OrdersConfig,
  QuantityConfig, Config,
}
use botbtc.Model.{Signal}
use botbtc.Bingx.{OrderInfo, BookTicker}
use botbtc.Bingx.Paper
use botbtc.Bingx.Paper.{PaperClient}
use botbtc.Execution.State.{answered, Host}

abbrev pub dollars : ℕ → ℤ
dollars n = pos (n * 1_000_000)

abbrev pub bridge_cfg : BridgeConfig
bridge_cfg = record {
  host = "0.0.0.0";
  port = pos 9_100;
  read_timeout_ms = pos 5_000;
  max_connections = pos 5;
}

abbrev pub bingx_cfg : BingxConfig
bingx_cfg = record {
  api_key = "key";
  api_secret = "secret";
  base_url = "https://open-api.bingx.com";
  ws_market_url = "wss://open-api-swap.bingx.com/swap-market";
  ws_account_url = "wss://open-api-swap.bingx.com/swap-account";
  recv_window = pos 5_000;
  symbol = "BTC-USDT";
  account_id = "scalper";
  paper_mode = true;
}

abbrev pub risk_cfg : RiskConfig ℤ
risk_cfg = record {
  base_risk_percent = dollars 1;
  escalated_risk_percent = dollars 2;
  escalate_after_consecutive_losses = pos 2;
  max_daily_trades = pos 20;
  max_daily_stop_losses = pos 3;
  max_open_positions = pos 1;
}

abbrev pub trade_cfg : TradeConfig ℤ
trade_cfg = record {
  max_trade_duration_ms = pos 60_000;
  initial_stop_loss_usd = dollars 10;
  max_take_profit_usd = dollars 50;
  time_stop_no_progress_ms = pos 20_000;
  min_favorable_move_usd = dollars 2;
}

abbrev pub trailing_steps : List (TrailingStep ℤ)
trailing_steps =
    record { profit_usd = dollars 5; lock_usd = dollars 2 }
    ∷ record { profit_usd = dollars 10; lock_usd = dollars 6 }
    ∷ []

abbrev pub latency_cfg : LatencyConfig
latency_cfg = record {
  max_signal_age_ms = pos 250;
  max_mt5_to_bridge_ms = pos 100;
  max_signal_to_ack_ms = pos 300;
  max_signal_to_fill_ms = pos 500;
}

abbrev pub orders_cfg : OrdersConfig ℤ
orders_cfg = record {
  order_type = "LIMIT";
  maker_probe_timeout_ms = pos 300;
  aggressive_ioc_timeout_ms = pos 200;
  max_total_entry_window_ms = pos 800;
  max_reprice_attempts = pos 1;
  max_entry_slippage_usd = dollars 5;
  max_exit_slippage_usd = dollars 10;
}

abbrev pub quantity_cfg : QuantityConfig ℤ
quantity_cfg = record {
  min_qty = pos 100;
  max_qty = dollars 1;
  qty_step = pos 100;
  price_precision = pos 1;
  qty_precision = pos 4;
  tick_size = pos 100_000;
  max_leverage = pos 20;
  default_leverage = pos 10;
}

abbrev pub config : Config ℤ
config = record {
  bridge = bridge_cfg;
  bingx = bingx_cfg;
  risk = risk_cfg;
  trade = trade_cfg;
  trailing = record { enabled = true; activation_usd = dollars 5; steps = trailing_steps };
  latency = latency_cfg;
  orders = orders_cfg;
  quantity = quantity_cfg;
  logging = record { level = "debug"; file = "logs/scalper.log" };
  monitoring = record {
    prometheus_port = pos 9_090;
    enable_alerts = false;
    telegram_bot_token = "";
    telegram_chat_id = "";
  };
  storage = record {
    event_log_file = "logs/events.jsonl";
    buffer_size = pos 1_000;
    flush_interval_ms = pos 500;
  };
}

abbrev pub signal : Signal ℤ
signal = record {
  signal_id = "sig-0000000001";
  strategy_id = "scalper";
  symbol = "BTC-USDT";
  side = "BUY";
  signal_price = dollars 50_000;
  bid = dollars 49_999;
  ask = dollars 50_001;
  spread = dollars 2;
  velocity_250ms = pos 0;
  velocity_500ms = pos 0;
  velocity_1000ms = pos 0;
  acceleration = pos 0;
  ema_fast = pos 0;
  ema_slow = pos 0;
  micro_atr_1s = pos 0;
  micro_atr_2s = pos 0;
  legacy_lots = pos 0;
  contract_size = pos 0;
  t0_tick_ms = pos 999_990;
  t1_signal_ms = pos 1_000_000;
}

abbrev pub book : BookTicker ℤ
book = record {
  symbol = "BTC-USDT";
  bid_price = dollars 49_999;
  bid_qty = dollars 1;
  ask_price = dollars 50_001;
  ask_qty = dollars 1;
  timestamp = pos 1_000_000;
}

abbrev pub decimal : ℤ → String
decimal n = "1"

abbrev pub client : PaperClient ℤ
client = Paper.set_book_ticker book (Paper.new_paper_client "BTC-USDT" (dollars 10_000))

-- An outside world that is a clock in nanoseconds, and an exchange that fills every order at once at
-- 50,000.
abbrev pub outside : ℤ
outside = pos 1_000_100_000_000

abbrev pub fill : OrderInfo ℤ
fill = record {
  order_id = "77";
  client_order_id = "";
  symbol = "BTC-USDT";
  side = "BUY";
  status = "FILLED";
  price = dollars 50_000;
  quantity = pos 100;
  filled_qty = pos 100;
  avg_price = dollars 50_000;
  fee = pos 0;
  fee_asset = "USDT";
  is_maker = false;
  create_time = pos 0;
  update_time = pos 0;
}

abbrev pub host : Host ℤ ℤ
host = record {
  now = λ e. (e, e);
  sleep = λ d e. e +ℤ d;
  is_done = λ e. (false, e);
  latest_book = λ e. (some book, e);
  get_balance = λ e. (
    answered (
        record {
          asset = "USDT";
          balance = dollars 10_000;
          available_balance = dollars 10_000;
          cross_un_pnl = pos 0;
        }
        ∷ []),
    e,
  );
  place_order = λ req e. (
    answered (record {
      order_id = "77";
      client_order_id = req.client_order_id;
      status = "NEW";
      price = "";
      quantity = "";
    }),
    e,
  );
  cancel_order = λ symbol id e. (none, e);
  get_order = λ symbol id e. (answered fill, e);
  today = λ t. "2026-01-02";
  compact_date = λ t. "20260102";
  two_digits = λ n. "01";
}
