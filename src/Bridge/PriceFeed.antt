-- ===== src/Bridge/PriceFeed.antt =====
-- server/internal/bridge/pricefeed.go: the prices that are pushed to the MT5 clients.
pub mod Broadcasts
pub mod Stopping
use botbtc.Prelude.{ℕ, Bool, String, List, [], ◌∷◌, ◌++◌, length, if◌then◌else◌}

-- The clients of the map, in some order without repetition; what was written to which of them; the
-- connections that the server has closed. The listener and the cancel function are in Stopping.
pub record PriceFeedServer (Client : Type 0) : Type 0 where
  pub clients : List Client
  pub written : List (Client × String)
  pub closed : List Client

module _ {Client : Type 0} where
  -- `NewPriceFeedServer`
  abbrev pub new_price_feed_server : PriceFeedServer Client
  new_price_feed_server = record { clients = []; written = []; closed = [] }

  -- `acceptLoop`, one connection
  unfoldable pub accept_client : Client → PriceFeedServer Client → PriceFeedServer Client
  accept_client conn s = record s { clients = s.clients ++ (conn ∷ []) }

  -- The loop of `BroadcastTick`: the clients that stay, what was written, and the connections that are
  -- closed; `writes` tells for which client `conn.Write` succeeds.
  unfoldable pub broadcast :
      (writes : Client → Bool)
      → String
      → List Client
      → List Client × List (Client × String) × List Client
  broadcast writes msg [] = ([], [], [])
  broadcast writes msg (conn ∷ clients) =
      let (left, written, closed) = broadcast writes msg clients in
      if writes conn
      then (conn ∷ left, (conn, msg) ∷ written, closed)
      else (left, written, conn ∷ closed)

  -- `BroadcastTick`; `price_line` is fmt.Sprintf("%.1f %.1f\n", bid, ask).
  unfoldable pub broadcast_tick :
      {F : Type 0} (price_line : F → F → String) (writes : Client → Bool) (bid ask : F)
      → PriceFeedServer Client
      → PriceFeedServer Client
  unfolding broadcast
  broadcast_tick price_line writes bid ask s =
      let (left, written, closed) = broadcast writes (price_line bid ask) s.clients in
      record s { clients = left; written = s.written ++ written; closed = s.closed ++ closed }

  abbrev pub client_count : PriceFeedServer Client → ℕ
  client_count s = length s.clients
