-- ===== src/Bridge/PriceFeed/Stopping.antt =====
-- server/internal/bridge/pricefeed.go: Start and Stop of the price feed.
use botbtc.Prelude.{
  ◌≡◌, ◌≢◌, refl, Bool, true, false, Option, none, some, String, List, [], ◌∷◌, ◌++◌, All, arith,
}
use botbtc.Bridge.PriceFeed.{
  PriceFeedServer, new_price_feed_server, broadcast, broadcast_tick, client_count,
}

-- The field `listener`: nil, or a listener that is open or has been closed.
pub data Listener : Type 0 where
  absent listening shut : Listener

-- The field `cancel`: nil, or a function that has been called or not.
pub data Cancel : Type 0 where
  unset pending called : Cancel

-- The server with these two fields.
pub record Feeding (Client : Type 0) : Type 0 where
  pub feed : PriceFeedServer Client
  pub listener : Listener
  pub cancel : Cancel

unfoldable pub call_cancel : Cancel → Cancel
call_cancel unset = unset
call_cancel pending = called
call_cancel called = called

unfoldable pub close_listener : Listener → Listener
close_listener absent = absent
close_listener listening = shut
close_listener shut = shut

close_listener_closes : (l : Listener) → close_listener l ≢ listening
unfolding close_listener
close_listener_closes absent = ground arith
close_listener_closes listening = ground arith
close_listener_closes shut = ground arith

-- `acceptLoop`, one turn in which Accept fails: whether the loop goes on. `cancel` is that of the
-- context which the loop was given.
unfoldable pub accepts_again : Cancel → Bool
accepts_again unset = true
accepts_again pending = true
accepts_again called = false

module _ {Client : Type 0} where
  abbrev pub new_feeding : Feeding Client
  new_feeding = record { feed = new_price_feed_server; listener = absent; cancel = unset }

  -- `Start`, up to the goroutine that it starts: net.Listen fails with an error or gives a listener.
  unfoldable pub start : {E : Type 0} → Option E → Feeding Client → Option E × Feeding Client
  start (some err) s = (some err, record s { cancel = pending })
  start none s = (none, record s { cancel = pending; listener = listening })

  -- `Stop`, up to the wait for the goroutine. The connections are closed and stay in the map.
  unfoldable pub stop : Feeding Client → Feeding Client
  unfolding call_cancel close_listener
  stop s = record {
    feed = record s.feed { closed = s.feed.closed ++ s.feed.clients };
    listener = close_listener s.listener;
    cancel = call_cancel s.cancel;
  }

  -- Whether or not Start fails, after Stop the loop that accepts connections ends at the next Accept
  -- that fails, and the listener is not open, so that every later Accept does fail.
  start-stop :
      {E : Type 0} (outcome : Option E) (s : Feeding Client)
      → (accepts_again (stop (start outcome s).1).cancel ≡ false)
        × ((stop (start outcome s).1).listener ≢ listening)
  unfolding start stop accepts_again call_cancel
  start-stop none s = (refl, close_listener_closes listening)
  start-stop (some err) s = (refl, close_listener_closes s.listener)

  -- A broadcast in which every write fails drops and closes every client.
  broadcast-fails :
      (writes : Client → Bool) (line : String) (clients : List Client)
      → All (λ c. writes c ≡ false) clients
      → broadcast writes line clients ≡ ([], [], clients)
  unfolding broadcast
  broadcast-fails writes line [] f = refl
  broadcast-fails writes line (c ∷ clients) f =
      rw (f.0, broadcast-fails writes line clients f.1) refl

  -- Stop leaves the clients in the map; a broadcast after it, whose writes fail as the connections are
  -- closed, drops them all and writes nothing.
  broadcast_tick-stop :
      {F : Type 0} (price_line : F → F → String) (writes : Client → Bool) (bid ask : F)
      (s : Feeding Client)
      → All (λ c. writes c ≡ false) s.feed.clients
      → (client_count (stop s).feed ≡ client_count s.feed)
        × ((broadcast_tick price_line writes bid ask (stop s).feed).clients ≡ [])
        × ((broadcast_tick price_line writes bid ask (stop s).feed).written ≡ s.feed.written ++ [])
  unfolding broadcast_tick stop
  broadcast_tick-stop price_line writes bid ask s f =
      rw (broadcast-fails writes (price_line bid ask) s.feed.clients f) (refl, refl, refl)
