-- ===== src/Model.antt =====
-- server/internal/model: signals, orders and positions, and the tables of their lifecycles.
pub mod Transition
pub mod SignalState
pub mod OrderState
pub mod PositionState
pub mod Lifecycles
use botbtc.Prelude.{ℤ, Bool, String}

pub record Signal (F : Type 0) : Type 0 where
  pub signal_id : String
  pub strategy_id : String
  pub symbol : String
  pub side : String
  pub signal_price : F
  pub bid : F
  pub ask : F
  pub spread : F
  pub velocity_250ms : F
  pub velocity_500ms : F
  pub velocity_1000ms : F
  pub acceleration : F
  pub ema_fast : F
  pub ema_slow : F
  pub micro_atr_1s : F
  pub micro_atr_2s : F
  pub legacy_lots : F
  pub contract_size : F
  pub t0_tick_ms : ℤ
  pub t1_signal_ms : ℤ

-- `created_at` is a time in nanoseconds.
pub record Order (F : Type 0) : Type 0 where
  pub client_order_id : String
  pub exchange_order_id : String
  pub signal_id : String
  pub symbol : String
  pub side : String
  pub role : String
  pub order_type : String
  pub time_in_force : String
  pub limit_price : F
  pub qty : F
  pub status : OrderState.OrderState
  pub avg_fill_price : F
  pub filled_qty : F
  pub reduce_only : Bool
  pub t4_send_ms : ℤ
  pub t5_ack_ms : ℤ
  pub t6_fill_ms : ℤ
  pub created_at : ℤ

-- `entry_time` is a time in nanoseconds.
pub record Position (F : Type 0) : Type 0 where
  pub position_id : String
  pub signal_id : String
  pub symbol : String
  pub side : String
  pub entry_price : F
  pub current_price : F
  pub qty : F
  pub unrealized_pnl : F
  pub status : PositionState.PositionState
  pub entry_time : ℤ
  pub trailing_step : ℤ
