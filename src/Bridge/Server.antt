-- ===== src/Bridge/Server.antt =====
-- server/internal/bridge/server.go: the TCP server that takes signals from the bridge.
pub mod Answers
pub mod Replies
pub mod Connections
pub mod Stopping
use botbtc.Prelude.{
  ℕ, zero, suc, ℤ, pos, negsuc, add64, inc64, leb_ℤ, Bool, true, false, Option, none, some, String,
  List, [], ◌∷◌, ◌++◌, get_elem?, if◌then◌else◌,
}
use botbtc.Float.{Float64}
use botbtc.Model.{Signal}
use botbtc.Bridge.{Json, ParseError, err_heartbeat, Parsed, parsed, failed, parse_signal, build_ack}

-- One connection: whether its handler still runs, what it gave to `conn.Write`, and the signals it put
-- in the channel, both oldest first.
pub record Connection (F : Type 0) : Type 0 where
  pub is_open : Bool
  pub written : List String
  pub forwarded : List (Signal F)

-- One round of the handler's loop as its surroundings decide it: the context was cancelled, the read
-- timed out, the scanner stopped for good, or it has a line; then whether writing the reply succeeds,
-- and whether the channel takes the signal before the context is cancelled.
pub data Read (Bytes : Type 0) : Type 0 where
  cancelled : Read Bytes
  timed_out : Read Bytes
  ended : Read Bytes
  scanned : (line : Bytes) (reply_written delivered : Bool) → Read Bytes

pub record Server (F : Type 0) : Type 0 where
  pub max_connections : ℤ
  pub active_conns : ℤ
  pub conns : List (Connection F)

abbrev pub text_or_empty : Option String → String
text_or_empty none = ""
text_or_empty (some text) = text

module _ {F : Type 0} where
  abbrev pub new_connection : Connection F
  new_connection = record { is_open = true; written = []; forwarded = [] }

  -- `NewServer`
  unfoldable pub new_server : ℤ → Server F
  new_server max_connections = record {
    max_connections = max_connections;
    active_conns = pos 0;
    conns = [];
  }

  -- `acceptLoop`, one connection
  unfoldable pub accept : Server F → Server F
  accept s = if leb_ℤ s.max_connections s.active_conns then s else record s {
    active_conns = inc64 s.active_conns;
    conns = s.conns ++ (new_connection ∷ []);
  }

module _ {F Bytes : Type 0} ⦃fl : Float64 F⦄ (json : Json F Bytes) where
  -- The handler from "Send ACK immediately" on.
  unfoldable pub acknowledge :
      Signal F → (reply_written delivered : Bool) → Connection F → Connection F
  unfolding build_ack
  acknowledge sig reply_written delivered c = elim (build_ack json sig.signal_id "OK") [
    | none ↦ c
    | some ack ↦
        let c' = record c { written = c.written ++ (ack ∷ []) } in
        if reply_written
        then (if delivered
            then record c' { forwarded = c.forwarded ++ (sig ∷ []) }
            else record c' { is_open = false })
        else record c' { is_open = false }
  ]

  -- The reply to a line that is no signal.
  unfoldable pub refuse : ParseError → Connection F → Connection F
  unfolding build_ack
  refuse err_heartbeat c = c
  refuse _ c = record c { written = c.written ++ (text_or_empty (build_ack json "" "ERROR") ∷ []) }

  module _ (is_empty : Bytes → Bool) where
    -- One round of the loop of `handleConnection`.
    unfoldable pub serve : Read Bytes → Connection F → Connection F
    unfolding acknowledge refuse
    serve cancelled c = record c { is_open = false }
    serve timed_out c = c
    serve ended c = record c { is_open = false }
    serve (scanned line reply_written delivered) c =
        if is_empty line then c else elim (parse_signal json line) [
          | failed e ↦ refuse e c
          | parsed sig ↦ acknowledge sig reply_written delivered c
        ]

    -- `handleConnection`, for the rounds of a list
    unfoldable pub handle_connection : List (Read Bytes) → Connection F → Connection F
    unfolding serve
    handle_connection [] c = c
    handle_connection (r ∷ later) c =
        let c' = serve r c in
        let rest = handle_connection later c' in if c'.is_open then rest else c'

    -- A round of the handler of one connection; when it returns, the server counts one less.
    unfoldable pub serve_one : ℕ → Read Bytes → List (Connection F) → List (Connection F) × Bool
    unfolding serve
    serve_one i r [] = ([], false)
    serve_one zero r (c ∷ conns) =
        if c.is_open
        then (let c' = serve r c in (c' ∷ conns, if c'.is_open then false else true))
        else (c ∷ conns, false)
    serve_one (suc i) r (c ∷ conns) =
        let (conns', closed) = serve_one i r conns in (c ∷ conns', closed)

    unfoldable pub serve_at : ℕ → Read Bytes → Server F → Server F
    unfolding serve_one
    serve_at i r s =
        let (conns, closed) = serve_one i r s.conns in
        record s {
          conns = conns;
          active_conns = if closed then add64 s.active_conns (negsuc 0) else s.active_conns;
        }
