-- ===== src/Tests/Feeds.antt =====
-- The theorems about the market feeds and the price feed.
use botbtc.Prelude.{
  ℤ, pos, ◌-ℤ◌, ◌≡◌, ◌≢◌, refl, arith, Bool, true, false, none, some, String, str_eq, [], ◌∷◌,
  if◌then◌else◌,
}
use botbtc.Float.Fixed.{micros_float64}
use botbtc.Bingx.{BookTicker}
use botbtc.Bingx.Feeds.{Feed, Wire, new_feed, ws_capacity, handle_message, take_book, ws_book}
use botbtc.Bingx.Feeds.Newest.{IsNewest}
use botbtc.Bingx.Feeds.Stream.{Streams, stream-IsNewest}
use botbtc.Bingx.Feeds.Stream
use botbtc.Bingx.Feeds.Freshness.{ws_book-not-stale}
use botbtc.Gate.{validate, stale_book}
use botbtc.Bridge.PriceFeed.{PriceFeedServer, accept_client, broadcast, broadcast_tick}
use botbtc.Bridge.PriceFeed.Broadcasts.{IsSame, Owed}
use botbtc.Bridge.PriceFeed.Broadcasts.Runs.{
  Run, started, accepted, broadcasted, IsServed, Run-IsServed,
}
use botbtc.Tests.Data.{book, signal, latency_cfg, orders_cfg}

-- Messages that are not compressed; "tick" is a book.
abbrev wire : Wire ℤ String
wire = record {
  gunzip = λ raw. none;
  text = λ raw. raw;
  ping = λ raw. if str_eq raw "7" then some (pos 7) else none;
  pong = λ n. "7";
  wrapper = λ raw. if str_eq raw "tick" then some ("BTC-USDT@bookTicker", some raw) else none;
  ticker = λ raw. some book;
  tickers = λ raw. none;
}

abbrev stamped : ℤ → BookTicker ℤ
stamped now = record book { timestamp = now }

abbrev after_first : Feed ℤ
after_first =
    (handle_message wire (pos 10) "tick" (handle_message wire (pos 9) "Ping" new_feed).0).0

abbrev stream : Feed ℤ
stream = (handle_message wire (pos 11) "tick" (take_book after_first)).0

stream-Streams :
    Streams wire (stamped (pos 10) ∷ stamped (pos 11) ∷ []) (stamped (pos 10) ∷ []) stream
unfolding handle_message Stream.book_of
stream-Streams = Stream.received (pos 11) "tick" (
    Stream.took (stamped (pos 10)) []
      (Stream.received (pos 10) "tick" (Stream.received (pos 9) "Ping" Stream.start)) refl)

stream-IsNewest_example :
    IsNewest ws_capacity (stamped (pos 10) ∷ stamped (pos 11) ∷ []) (stamped (pos 10) ∷ []) stream
stream-IsNewest_example = stream-IsNewest wire stream-Streams

abbrev quiet : Feed ℤ
quiet = record { book_ch = []; latest_book = some (stamped (pos 10)) }

asked-found : ws_book (pos 1_000_000) quiet ≡ some (stamped (pos 1_000_000))
unfolding ws_book
asked-found = refl

-- The last tick came at 10, and the book is asked for at 1,000,000.
ws_book-not-stale_example :
    (validate latency_cfg orders_cfg signal (stamped (pos 1_000_000)) (pos 1_000_200)).reject_reason
    ≢ some (stale_book (pos 999_990) (pos 250))
unfolding ◌-ℤ◌
ws_book-not-stale_example =
    ws_book-not-stale latency_cfg orders_cfg signal quiet (stamped (pos 1_000_000)) (pos 1_000_000)
      (pos 1_000_200) (pos 999_990) (pos 250) asked-found (omega arith, omega arith) (omega arith)

-- The first client is `true`, the second `false`.
abbrev same_client : Bool → Bool → Bool
same_client true d = d
same_client false d = if d then false else true

same_client_self : (c : Bool) → same_client c c ≡ true
same_client_self true = refl
same_client_self false = refl

same_client_swap : (c d : Bool) → same_client c d ≡ false → same_client d c ≡ false
same_client_swap true true e = e
same_client_swap true false e = refl
same_client_swap false true e = refl
same_client_swap false false e = e

same_client-IsSame : IsSame same_client
same_client-IsSame = record { self = same_client_self; symmetric = same_client_swap }

abbrev price_line : String → String → String
price_line bid ask = bid

-- The second client connects after the first broadcast; the first client's write fails in the second.
abbrev fed : PriceFeedServer Bool
fed = record {
  clients = false ∷ [];
  written = (true, "100.0") ∷ (false, "101.0") ∷ [];
  closed = true ∷ [];
}

abbrev owed : Owed same_client
owed = (false, "101.0" ∷ []) ∷ []

fed-Run : Run same_client price_line fed owed
unfolding accept_client broadcast_tick broadcast
fed-Run =
    broadcasted (λ c. same_client c false) "101.0" "101.1" _ _
      (accepted false _ _
        (broadcasted (λ c. true) "100.0" "100.1" _ _ (accepted true _ _ started tt refl)) (refl, tt)
        refl)

Run-IsServed_example : IsServed same_client price_line fed owed
Run-IsServed_example = Run-IsServed same_client price_line same_client-IsSame fed owed fed-Run
