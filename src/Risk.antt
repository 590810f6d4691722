-- ===== src/Risk.antt =====
-- server/internal/risk/engine.go: the risk engine. Each method takes `today()`, the day that the
-- clock shows, and a mutex makes it one step; so a method is a function on the engine's state.
pub mod Verdicts
pub mod Days
pub mod History
use botbtc.Prelude.{
  ℤ, pos, inc64, leb_ℤ, Bool, true, false, not, ◌&&◌, String, str_eq, if◌then◌else◌,
}
use botbtc.Config.{RiskConfig}

pub record Engine (F : Type 0) : Type 0 where
  pub cfg : RiskConfig F
  pub daily_trade_count : ℤ
  pub daily_stop_loss_count : ℤ
  pub consecutive_losses : ℤ
  pub current_risk_percent : F
  pub trading_enabled : Bool
  pub has_open_position : Bool
  pub last_trade_date : String
  pub kill_switch_active : Bool
  pub kill_switch_reason : String

-- The values that the reason of a refusal is formatted from.
pub data Reason : Type 0 where
  kill_switch : String → Reason
  trading_disabled : Reason
  trade_limit : ℤ → ℤ → Reason
  position_limit : ℤ → Reason

pub data Verdict : Type 0 where
  allowed : Verdict
  refused : Reason → Verdict

module _ {F : Type 0} where
  -- `NewEngine`
  unfoldable pub new_engine : RiskConfig F → Engine F
  new_engine cfg = record {
    cfg = cfg;
    daily_trade_count = pos 0;
    daily_stop_loss_count = pos 0;
    consecutive_losses = pos 0;
    current_risk_percent = cfg.base_risk_percent;
    trading_enabled = true;
    has_open_position = false;
    last_trade_date = "";
    kill_switch_active = false;
    kill_switch_reason = "";
  }

  -- `resetDailyLocked`, and `ResetDaily` around it
  unfoldable pub reset_daily : String → Engine F → Engine F
  reset_daily today e = record e {
    daily_trade_count = pos 0;
    daily_stop_loss_count = pos 0;
    consecutive_losses = pos 0;
    current_risk_percent = e.cfg.base_risk_percent;
    trading_enabled = true;
    last_trade_date = today;
  }

  unfoldable pub maybe_reset_daily : String → Engine F → Engine F
  unfolding reset_daily
  maybe_reset_daily today e =
      if not (str_eq e.last_trade_date "") && not (str_eq e.last_trade_date today)
      then reset_daily today e
      else e

  verdict : Engine F → Verdict
  verdict e =
      if e.kill_switch_active
      then refused (kill_switch e.kill_switch_reason)
      else if not e.trading_enabled
      then refused trading_disabled
      else if leb_ℤ e.cfg.max_daily_trades e.daily_trade_count
      then refused (trade_limit e.daily_trade_count e.cfg.max_daily_trades)
      else if e.has_open_position
      then refused (position_limit e.cfg.max_open_positions)
      else allowed

  unfoldable pub evaluate_signal : String → Engine F → Engine F × Verdict
  unfolding verdict
  evaluate_signal today e = let e' = maybe_reset_daily today e in (e', verdict e')

  unfoldable pub record_trade : String → Engine F → Engine F
  record_trade today e =
      let e' = maybe_reset_daily today e in
      record e' { daily_trade_count = inc64 e'.daily_trade_count; last_trade_date = today }

  count_stop_loss : Engine F → Engine F
  count_stop_loss e = record e {
    daily_stop_loss_count = inc64 e.daily_stop_loss_count;
    consecutive_losses = inc64 e.consecutive_losses;
  }

  escalate : Engine F → Engine F
  escalate e =
      if leb_ℤ e.cfg.escalate_after_consecutive_losses e.consecutive_losses
      then record e { current_risk_percent = e.cfg.escalated_risk_percent }
      else e

  disable : Engine F → Engine F
  disable e =
      if leb_ℤ e.cfg.max_daily_stop_losses e.daily_stop_loss_count
      then record e { trading_enabled = false }
      else e

  unfoldable pub record_stop_loss : String → Engine F → Engine F
  unfolding count_stop_loss escalate disable
  record_stop_loss today e = disable (escalate (count_stop_loss (maybe_reset_daily today e)))

  unfoldable pub record_win : Engine F → Engine F
  record_win e = record e {
    consecutive_losses = pos 0;
    current_risk_percent = e.cfg.base_risk_percent;
  }

  unfoldable pub get_current_risk : Engine F → F
  get_current_risk e = e.current_risk_percent

  unfoldable pub is_kill_switch_active : Engine F → Bool
  is_kill_switch_active e = e.kill_switch_active

  unfoldable pub set_kill_switch : String → Engine F → Engine F
  set_kill_switch reason e = record e { kill_switch_active = true; kill_switch_reason = reason }

  unfoldable pub has_open : Engine F → Bool
  has_open e = e.has_open_position

  unfoldable pub set_position_open : Bool → Engine F → Engine F
  set_position_open open_now e = record e { has_open_position = open_now }
