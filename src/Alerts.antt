-- ===== src/Alerts.antt =====
-- server/internal/monitoring/alerts.go: notifications by the Telegram Bot API, or by the log alone.
pub mod Sending
use botbtc.Prelude.{
  ℤ, pos, ltb_ℤ, eq_ℤ, Bool, true, false, not, ◌||◌, Option, none, some, String, str_eq, concat,
  List, [], ◌∷◌, if◌then◌else◌,
}
use botbtc.Float.{Float64, zero_f}

pub record AlertSender : Type 0 where
  pub bot_token : String
  pub chat_id : String
  pub enabled : Bool

-- `telegramPayload`
pub record TelegramPayload : Type 0 where
  pub chat_id : String
  pub text : String
  pub parse_mode : String

pub data AlertError : Type 0 where
  not_marshalled : AlertError
  not_created : AlertError
  not_sent : AlertError
  bad_status : ℤ → AlertError

-- encoding/json, http.NewRequestWithContext and http.Client.Do, whose answer is a status.
pub record Telegram (E Bytes : Type 0) : Type 0 where
  pub marshal : TelegramPayload → Option Bytes
  pub builds : (url : String) → Bool
  pub post : (url : String) → Bytes → E → Option ℤ × E

-- fmt's `%d`, `%.1f` and `%.2f`
pub record Formats (F : Type 0) : Type 0 where
  pub decimal : ℤ → String
  pub tenths : F → String
  pub cents : F → String

abbrev join : List String → String
join [] = ""
join (s ∷ texts) = concat s (join texts)

-- `NewAlertSender`
abbrev pub new_alert_sender : (bot_token chat_id : String) → Bool → AlertSender
new_alert_sender bot_token chat_id enabled = record {
  bot_token = bot_token;
  chat_id = chat_id;
  enabled = enabled;
}

-- The texts of the alerts.
abbrev pub alert_text : (level message : String) → String
alert_text level message = join ("<b>[" ∷ level ∷ "]</b>\n" ∷ message ∷ [])

abbrev pub kill_switch_text : (reason : String) → String
kill_switch_text reason = join (
    "🚨 <b>KILL SWITCH ACTIVATED</b>\n\nReason: " ∷ reason
    ∷ "\n\nAll trading halted. Manual intervention required." ∷ [])

module _ {F : Type 0} ⦃fl : Float64 F⦄ (fmt : Formats F) where
  unfoldable pub trade_result_text :
      (signal_id side : String) (pnl_usd : F) (duration_ms : ℤ) → String
  trade_result_text signal_id side pnl_usd duration_ms = join (
      (if fl.lt pnl_usd zero_f then "🔴" else "🟢")
      ∷ " <b>Trade Closed</b>\n\nSignal: <code>"
      ∷ signal_id
      ∷ "</code>\nSide: "
      ∷ side
      ∷ "\nPnL: $"
      ∷ fmt.cents pnl_usd
      ∷ "\nDuration: "
      ∷ fmt.decimal duration_ms
      ∷ "ms"
      ∷ [])

  -- The rate in percent; 0 when nothing was traded.
  unfoldable pub win_rate : (trades wins : ℤ) → F
  win_rate trades wins =
      if ltb_ℤ (pos 0) trades
      then fl.mul (fl.div (fl.of_int wins) (fl.of_int trades)) (fl.literal 100 0)
      else zero_f

  unfoldable pub daily_summary_text : (trades wins losses : ℤ) (total_pnl : F) → String
  unfolding win_rate
  daily_summary_text trades wins losses total_pnl = join (
      (if fl.le zero_f total_pnl then "📈" else "📉")
      ∷ " <b>Daily Summary</b>\n\nTrades: "
      ∷ fmt.decimal trades
      ∷ "\nWins: "
      ∷ fmt.decimal wins
      ∷ " | Losses: "
      ∷ fmt.decimal losses
      ∷ "\nWin Rate: "
      ∷ fmt.tenths (win_rate trades wins)
      ∷ "%\nTotal PnL: $"
      ∷ fmt.cents total_pnl
      ∷ [])

abbrev pub message_url : AlertSender → String
message_url a = join ("https://api.telegram.org/bot" ∷ a.bot_token ∷ "/sendMessage" ∷ [])

abbrev pub payload_of : AlertSender → (text : String) → TelegramPayload
payload_of a text = record { chat_id = a.chat_id; text = text; parse_mode = "HTML" }

abbrev pub is_silent : AlertSender → Bool
is_silent a = not a.enabled || str_eq a.bot_token ""

unfoldable pub status_error : Option ℤ → Option AlertError
status_error none = some not_sent
status_error (some code) = if eq_ℤ code (pos 200) then none else some (bad_status code)

module _ {E Bytes : Type 0} (net : Telegram E Bytes) where
  -- `send`; `none` is no error.
  unfoldable pub send : AlertSender → (text : String) → E → Option AlertError × E
  unfolding status_error
  send a text e = if is_silent a then (none, e) else elim (net.marshal (payload_of a text)) [
    | none ↦ (some not_marshalled, e)
    | some body ↦
        let (status, e') = net.post (message_url a) body e in
        if net.builds (message_url a) then (status_error status, e') else (some not_created, e)
  ]

  -- `SendAlert`, `SendKillSwitch`, `SendTradeResult` and `SendDailySummary`
  abbrev pub send_alert : AlertSender → (level message : String) → E → Option AlertError × E
  send_alert a level message = send a (alert_text level message)

  abbrev pub send_kill_switch : AlertSender → (reason : String) → E → Option AlertError × E
  send_kill_switch a reason = send a (kill_switch_text reason)

  module _ {F : Type 0} ⦃fl : Float64 F⦄ (fmt : Formats F) where
    abbrev pub send_trade_result :
        AlertSender
        → (signal_id side : String) (pnl_usd : F) (duration_ms : ℤ) → E
        → Option AlertError × E
    send_trade_result a signal_id side pnl_usd duration_ms =
        send a (trade_result_text fmt signal_id side pnl_usd duration_ms)

    abbrev pub send_daily_summary :
        AlertSender → (trades wins losses : ℤ) (total_pnl : F) → E → Option AlertError × E
    send_daily_summary a trades wins losses total_pnl =
        send a (daily_summary_text fmt trades wins losses total_pnl)
