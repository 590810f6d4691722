-- ===== src/Bingx/Feeds.antt =====
-- server/internal/bingx/ws.go and ws_realtime.go: the two sources of book tickers, a poller of the REST
-- interface and a client of the exchange's WebSocket.
pub mod Newest
pub mod Stream
pub mod Freshness
use botbtc.Prelude.{
  ℕ, ℤ, pos, ltb_ℤ, eq_ℤ, Bool, true, false, not, ◌||◌, Option, none, some, String, str_eq, concat,
  List, [], ◌∷◌, ◌++◌, if◌then◌else◌,
}
use botbtc.Channel.{send_newest, drop_oldest}
use botbtc.Bingx.{BookTicker}

-- The part of MarketDataPoller and WSMarketClient that they share: the channel and the latest book.
pub record Feed (F : Type 0) : Type 0 where
  pub book_ch : List (BookTicker F)
  pub latest_book : Option (BookTicker F)

-- The capacities of the poller's channel and the WebSocket client's.
abbrev pub poller_capacity : ℕ
poller_capacity = 64

abbrev pub ws_capacity : ℕ
ws_capacity = 256

-- What is sent over the WebSocket: the subscription to a data type, or a text.
pub data Outgoing : Type 0 where
  subscription : (data_type : String) → Outgoing
  text_message : String → Outgoing

-- compress/gzip and encoding/json for the messages of the WebSocket; `none` is an error. `wrapper` gives
-- `dataType` and `data`, which may be missing; `ping` the field of that name, or 0; `pong` is the reply.
pub record Wire (F Bytes : Type 0) : Type 0 where
  pub gunzip : Bytes → Option Bytes
  pub text : Bytes → String
  pub ping : Bytes → Option ℤ
  pub pong : ℤ → String
  pub wrapper : Bytes → Option (String × Option Bytes)
  pub ticker : Bytes → Option (BookTicker F)
  pub tickers : Bytes → Option (List (BookTicker F))

-- A session of the WebSocket client: whether dialling and subscribing succeed, and its messages with their
-- times, before a read error or the end of the context.
pub record Session (Bytes : Type 0) : Type 0 where
  pub dialled : Bool
  pub subscribed : Bool
  pub messages : List (ℤ × Bytes)

module _ {F : Type 0} where
  -- `NewMarketDataPoller` and `NewWSMarketClient`
  abbrev pub new_feed : Feed F
  new_feed = record { book_ch = []; latest_book = none }

  -- A new book: it becomes the latest, and is sent without waiting.
  unfoldable pub publish : ℕ → BookTicker F → Feed F → Feed F
  unfolding send_newest
  publish capacity bt p = record {
    book_ch = send_newest capacity bt p.book_ch;
    latest_book = some bt;
  }

  -- `poll`, with the answer of `client.GetBookTicker`
  unfoldable pub poll : Option (BookTicker F) → Feed F → Feed F
  unfolding publish
  poll none p = p
  poll (some bt) p = publish poller_capacity bt p

  -- `MarketDataPoller.Start`, with the answers of its polls: one at once and one for each tick, until the
  -- context ends.
  unfoldable pub poller_start :
      (first : Option (BookTicker F)) → List (Option (BookTicker F)) → Feed F → Feed F
  unfolding poll
  poller_start first [] p = poll first p
  poller_start first (answer ∷ answers) p = poller_start answer answers (poll first p)

  -- `MarketDataPoller.LatestBook` and `WSMarketClient.LatestBook`, which gives the time of the call
  abbrev pub poller_book : Feed F → Option (BookTicker F)
  poller_book p = p.latest_book

  unfoldable pub ws_book : (now_ms : ℤ) → Feed F → Option (BookTicker F)
  ws_book now_ms w = elim w.latest_book [
    | none ↦ none
    | some bt ↦ some (record bt { timestamp = now_ms })
  ]

  -- `<-BookChan()`, when a book waits
  unfoldable pub take_book : Feed F → Feed F
  take_book p = record p { book_ch = drop_oldest p.book_ch }

module _ {F Bytes : Type 0} (wire : Wire F Bytes) where
  -- `decompressGzip`, or the message as it came
  abbrev pub decompressed : Bytes → Bytes
  decompressed raw = elim (wire.gunzip raw) [ none ↦ raw | some msg ↦ msg ]

  -- `handlePingPong`: the reply, when the message is a ping
  unfoldable pub handle_ping_pong : Bytes → Option String
  handle_ping_pong msg =
      if str_eq (wire.text msg) "Ping" then some "Pong" else elim (wire.ping msg) [
        | none ↦ none
        | some n ↦ if ltb_ℤ (pos 0) n then some (wire.pong n) else none
      ]

  -- The `data` of a message, as one ticker or as the first of an array.
  unfoldable pub one_ticker : Bytes → Option (BookTicker F)
  one_ticker inner = elim (wire.ticker inner) [
    | some bt ↦ some bt
    | none ↦ elim (wire.tickers inner) [
      | none ↦ none
      | some [] ↦ none
      | some (bt ∷ later) ↦ some bt
    ]
  ]

  -- `parseBookTickerWS`; `none` is an error.
  unfoldable pub parse_book_ticker_ws : (now_ms : ℤ) → Bytes → Option (BookTicker F)
  unfolding one_ticker
  parse_book_ticker_ws now_ms msg = elim (wire.wrapper msg) [
    | none ↦ none
    | some (data_type, none) ↦ none
    | some (data_type, some inner) ↦ if str_eq data_type "" then none else elim (one_ticker inner) [
      | none ↦ none
      | some bt ↦ some (record bt {
        symbol = if str_eq bt.symbol "" then "BTC-USDT" else bt.symbol;
        timestamp = if eq_ℤ bt.timestamp (pos 0) then now_ms else bt.timestamp;
      })
    ]
  ]

  -- A message of the read loop: the feed and what was sent. The time is that of every time.Now() here.
  unfoldable pub handle_message : (now_ms : ℤ) → Bytes → Feed F → Feed F × List Outgoing
  unfolding handle_ping_pong parse_book_ticker_ws publish
  handle_message now_ms raw w =
      let msg = decompressed raw in
      elim (handle_ping_pong msg) [
        | some reply ↦ (w, text_message reply ∷ [])
        | none ↦ elim (parse_book_ticker_ws now_ms msg) [
          | none ↦ (w, [])
          | some bt ↦ (publish ws_capacity (record bt { timestamp = now_ms }) w, [])
        ]
      ]

  -- The read loop over the messages that come before a read error or the end of the context.
  unfoldable pub read_messages : List (ℤ × Bytes) → Feed F → Feed F × List Outgoing
  unfolding handle_message
  read_messages [] w = (w, [])
  read_messages ((now_ms, raw) ∷ later) w =
      let (w', sent) = handle_message now_ms raw w in
      let (w'', sent') = read_messages later w' in (w'', sent ++ sent')

  -- `connectAndStream`: whether dialling and subscribing succeed, and the messages of the session.
  unfoldable pub connect_and_stream :
      (symbol : String) (dialled subscribed : Bool)
      → List (ℤ × Bytes)
      → Feed F
      → Feed F × List Outgoing
  unfolding read_messages
  connect_and_stream symbol dialled subscribed messages w =
      let (w', sent) = read_messages messages w in
      let sub = subscription (concat symbol "@bookTicker") in
      if dialled then (if subscribed then (w', sub ∷ sent) else (w, sub ∷ [])) else (w, [])

  -- `WSMarketClient.Start`: one session after another, until the context ends.
  unfoldable pub ws_start :
      (symbol : String) → List (Session Bytes) → Feed F → Feed F × List Outgoing
  unfolding connect_and_stream
  ws_start symbol [] w = (w, [])
  ws_start symbol (session ∷ later) w =
      let (w', sent) =
        connect_and_stream symbol session.dialled session.subscribed session.messages w in
      let (w'', sent') = ws_start symbol later w' in (w'', sent ++ sent')
