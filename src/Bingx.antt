-- ===== src/Bingx.antt =====
-- server/internal/bingx/client.go: the values that the exchange client and its users exchange.
pub mod Paper
pub mod Feeds
pub mod Signing
pub mod Live
use botbtc.Prelude.{ℤ, Bool, String}

pub record PlaceOrderRequest (F : Type 0) : Type 0 where
  pub symbol : String
  pub side : String
  pub position_side : String
  pub order_type : String
  pub time_in_force : String
  pub price : F
  pub quantity : F
  pub reduce_only : Bool
  pub client_order_id : String

pub record PlaceOrderResponse : Type 0 where
  pub order_id : String
  pub client_order_id : String
  pub status : String
  pub price : String
  pub quantity : String

pub record OrderInfo (F : Type 0) : Type 0 where
  pub order_id : String
  pub client_order_id : String
  pub symbol : String
  pub side : String
  pub status : String
  pub price : F
  pub quantity : F
  pub filled_qty : F
  pub avg_price : F
  pub fee : F
  pub fee_asset : String
  pub is_maker : Bool
  pub create_time : ℤ
  pub update_time : ℤ

pub record PositionInfo (F : Type 0) : Type 0 where
  pub symbol : String
  pub side : String
  pub quantity : F
  pub entry_price : F
  pub mark_price : F
  pub unrealized_pnl : F
  pub leverage : ℤ
  pub margin_type : String
  pub liquidation_price : F

pub record AccountBalance (F : Type 0) : Type 0 where
  pub asset : String
  pub balance : F
  pub available_balance : F
  pub cross_un_pnl : F

pub record BookTicker (F : Type 0) : Type 0 where
  pub symbol : String
  pub bid_price : F
  pub bid_qty : F
  pub ask_price : F
  pub ask_qty : F
  pub timestamp : ℤ

pub record ContractInfo (F : Type 0) : Type 0 where
  pub symbol : String
  pub price_precision : ℤ
  pub quantity_precision : ℤ
  pub min_qty : F
  pub max_qty : F
  pub qty_step : F
  pub tick_size : F
  pub max_leverage : ℤ

-- `SideBuy`, `SideSell`, `PositionBoth`, `TIF_IOC`, `TIF_PostOnly`
abbrev pub buy : String
buy = "BUY"

abbrev pub sell : String
sell = "SELL"

abbrev pub position_both : String
position_both = "BOTH"

abbrev pub tif_ioc : String
tif_ioc = "IOC"

abbrev pub tif_post_only : String
tif_post_only = "PostOnly"
