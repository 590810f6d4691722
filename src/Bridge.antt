-- ===== src/Bridge.antt =====
-- server/internal/bridge/protocol.go: signals as the MT5 bridge sends them, and the replies.
pub mod Words
pub mod Parsing
pub mod Server
pub mod PriceFeed
use botbtc.Prelude.{
  ℤ, pos, eq_ℤ, Bool, true, false, not, ◌&&◌, ◌||◌, Option, none, some, String, str_eq, concat,
  if◌then◌else◌,
}
use botbtc.Float.{Float64, zero_f}
use botbtc.Model.{Signal}

pub record Ack : Type 0 where
  pub signal_id : String
  pub status : String
  pub t2_recv_ms : ℤ
  pub message : String

-- `customSig`
pub record CustomSignal (F : Type 0) : Type 0 where
  pub signal : String
  pub side : String
  pub timestamp_ms : ℤ
  pub velocity250 : F
  pub velocity500 : F
  pub velocity1000 : F

-- json.Unmarshal of a message into the three structs of `ParseSignal`, where `none` is its error, and
-- json.Marshal of a reply.
pub record Json (F Bytes : Type 0) : Type 0 where
  pub base_type : Bytes → Option String
  pub signal : Bytes → Option (Signal F)
  pub custom_signal : Bytes → Option (CustomSignal F)
  pub ack : Ack → Option String

pub data ParseError : Type 0 where
  err_heartbeat : ParseError
  bad_json : ParseError
  missing_id : ParseError
  invalid_side : String → ParseError

pub data Parsed (F : Type 0) : Type 0 where
  parsed : Signal F → Parsed F
  failed : ParseError → Parsed F

-- The `switch customSig.Signal`.
abbrev pub side_of : String → String
side_of signal =
    if str_eq signal "LONG" then "BUY" else if str_eq signal "SHORT" then "SELL" else signal

unfoldable pub or_int : ℤ → ℤ → ℤ
or_int n other = if eq_ℤ n (pos 0) && not (eq_ℤ other (pos 0)) then other else n

-- The two tests on `sig.Side`.
unfoldable pub resolve_side : {F : Type 0} → CustomSignal F → String → String
resolve_side custom side =
    let side' = if str_eq side "" && not (str_eq custom.side "") then custom.side else side in
    if str_eq side' "" && not (str_eq custom.signal "") then side_of custom.signal else side'

module _ {F : Type 0} ⦃fl : Float64 F⦄ where
  unfoldable pub or_float : F → F → F
  or_float x other = if fl.eq x zero_f && not (fl.eq other zero_f) then other else x

  -- The body of `if err := json.Unmarshal(data, &customSig); err == nil`.
  unfoldable pub with_custom : CustomSignal F → Signal F → Signal F
  unfolding resolve_side or_int or_float
  with_custom custom sig = record sig {
    side = resolve_side custom sig.side;
    t0_tick_ms = or_int sig.t0_tick_ms custom.timestamp_ms;
    t1_signal_ms = or_int sig.t1_signal_ms custom.timestamp_ms;
    velocity_250ms = or_float sig.velocity_250ms custom.velocity250;
    velocity_500ms = or_float sig.velocity_500ms custom.velocity500;
    velocity_1000ms = or_float sig.velocity_1000ms custom.velocity1000;
  }

  -- The middle of the book, when the signal has no price.
  unfoldable pub with_price : Signal F → Signal F
  with_price sig =
      if fl.eq sig.signal_price zero_f && (not (fl.eq sig.bid zero_f) && not (fl.eq sig.ask zero_f))
      then record sig { signal_price = fl.div (fl.add sig.bid sig.ask) (fl.literal 2 0) }
      else sig

  -- The two last checks of `ParseSignal`.
  unfoldable pub validated : Signal F → Parsed F
  validated sig =
      if str_eq sig.signal_id ""
      then failed missing_id
      else if not (str_eq sig.side "BUY") && not (str_eq sig.side "SELL")
      then failed (invalid_side sig.side)
      else parsed sig

  module _ {Bytes : Type 0} (json : Json F Bytes) where
    abbrev pub is_heartbeat : Bytes → Bool
    is_heartbeat bytes = elim (json.base_type bytes) [
      | none ↦ false
      | some kind ↦ str_eq kind "heartbeat"
    ]

    unfoldable pub parse_signal : Bytes → Parsed F
    unfolding with_custom with_price validated
    parse_signal bytes =
        if is_heartbeat bytes then failed err_heartbeat else elim (json.signal bytes) [
          | none ↦ failed bad_json
          | some sig ↦ validated (
              with_price (elim (json.custom_signal bytes) [
                | none ↦ sig
                | some custom ↦ with_custom custom sig
              ]))
        ]

    unfoldable pub build_ack : (signal_id status : String) → Option String
    build_ack signal_id status =
        elim (json.ack
          (record { signal_id = signal_id; status = status; t2_recv_ms = pos 0; message = "" })) [
            | none ↦ none
            | some text ↦ some (concat text "\n")
          ]
