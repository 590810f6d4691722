-- ===== src/Bridge/PriceFeed/Broadcasts/Runs.antt =====
-- server/internal/bridge/pricefeed.go: the price feed over any sequence of connections and broadcasts.
use mathlib.Core.Path.{subst}
use botbtc.Prelude.{◌≡◌, refl, sym, ap, ◌∙◌, Bool, false, String, List, [], ◌∷◌, ◌++◌, All}
use botbtc.Bridge.PriceFeed.{
  PriceFeedServer, new_price_feed_server, accept_client, broadcast, broadcast_tick,
}
use botbtc.Bridge.PriceFeed.Broadcasts.{
  IsSame, lines_to, IsOther, IsDistinct, Owed, clients_of, owe, HasReceived, left-owed,
  left-IsDistinct, broadcast-GotLine, HasReceived-owe,
}

module _ {Client F : Type 0} (same : Client → Client → Bool) (price_line : F → F → String) where
  -- The states that connections and broadcasts lead to. A connection that is accepted is a new one:
  -- not one of the connected clients, and nothing has been written to it. Each broadcast has its own
  -- outcome of the writes.
  pub data Run : PriceFeedServer Client → Owed same → Type 0 where
    started : Run new_price_feed_server []
    accepted :
        (conn : Client) (s : PriceFeedServer Client) (owed : Owed same)
        → Run s owed
        → All (λ c. same c conn ≡ false) s.clients
        → lines_to same conn s.written ≡ []
        → Run (accept_client conn s) (owed ++ ((conn, []) ∷ []))
    broadcasted :
        (writes : Client → Bool) (bid ask : F) (s : PriceFeedServer Client) (owed : Owed same)
        → Run s owed
        → Run
            (broadcast_tick price_line writes bid ask s)
            (owe same writes (price_line bid ask) owed)

  abbrev pub IsServed : PriceFeedServer Client → Owed same → Type 0
  IsServed s owed =
      (s.clients ≡ clients_of same owed)
      × IsDistinct same (clients_of same owed)
      × All (HasReceived same s.written) owed

  clients_of-append :
      (conn : Client) (owed : Owed same)
      → clients_of same (owed ++ ((conn, []) ∷ [])) ≡ clients_of same owed ++ (conn ∷ [])
  clients_of-append conn [] = refl
  clients_of-append conn ((c, lines) ∷ owed) = ap (◌∷◌ c) (clients_of-append conn owed)

  IsOther-append :
      (c conn : Client) (clients : List Client)
      → IsOther same c clients
      → same c conn ≡ false
      → IsOther same c (clients ++ (conn ∷ []))
  IsOther-append c conn [] o e = (e, tt)
  IsOther-append c conn (d ∷ clients) o e = (o.0, IsOther-append c conn clients o.1 e)

  IsDistinct-append :
      (conn : Client) (clients : List Client)
      → IsDistinct same clients
      → All (λ c. same c conn ≡ false) clients
      → IsDistinct same (clients ++ (conn ∷ []))
  IsDistinct-append conn [] d o = (tt, tt)
  IsDistinct-append conn (c ∷ clients) d o =
      (IsOther-append c conn clients d.0 o.0, IsDistinct-append conn clients d.1 o.1)

  HasReceived-append :
      (conn : Client) (written : List (Client × String)) (owed : Owed same)
      → All (HasReceived same written) owed
      → lines_to same conn written ≡ []
      → All (HasReceived same written) (owed ++ ((conn, []) ∷ []))
  HasReceived-append conn written [] r none = (none, tt)
  HasReceived-append conn written ((c, lines) ∷ owed) r none =
      (r.0, HasReceived-append conn written owed r.1 none)

  accept_client-IsServed :
      (conn : Client) (s : PriceFeedServer Client) (owed : Owed same)
      → IsServed s owed
      → All (λ c. same c conn ≡ false) s.clients
      → lines_to same conn s.written ≡ []
      → IsServed (accept_client conn s) (owed ++ ((conn, []) ∷ []))
  unfolding accept_client
  accept_client-IsServed conn s owed served others none =
      let appended = clients_of-append conn owed in
      (
        ap (λ l. l ++ (conn ∷ [])) served.0 ∙ sym appended,
        subst (IsDistinct same) (sym appended) (
            IsDistinct-append conn (clients_of same owed) served.1
              (subst (All (λ c. same c conn ≡ false)) served.0 others)),
        HasReceived-append conn s.written owed served.2 none,
      )

  broadcast_tick-IsServed :
      (is_same : IsSame same) (writes : Client → Bool) (bid ask : F) (s : PriceFeedServer Client)
      (owed : Owed same)
      → IsServed s owed
      → IsServed
          (broadcast_tick price_line writes bid ask s)
          (owe same writes (price_line bid ask) owed)
  unfolding broadcast_tick
  broadcast_tick-IsServed is_same writes bid ask s owed served =
      let line = price_line bid ask in
      let left = left-owed same is_same writes line owed in
      rw served.0 (
        left,
        subst (IsDistinct same) left
            (left-IsDistinct same is_same writes line (clients_of same owed) served.1),
        HasReceived-owe same is_same writes line s.written
            (broadcast writes line (clients_of same owed)).1 owed served.2
            (broadcast-GotLine same is_same writes line owed served.1),
      )

  -- When telling connections apart is a sound test and every accepted connection is a new one, then
  -- after any sequence of connections and broadcasts, whatever writes fail in it, the clients of the
  -- server are the accepted connections to which no write has failed, each once, and what has been written
  -- to each of them is exactly the price lines broadcast since it connected, in their order and each once.
  pub Run-IsServed :
      (is_same : IsSame same) (s : PriceFeedServer Client) (owed : Owed same)
      → Run s owed
      → IsServed s owed
  Run-IsServed is_same _ _ started = (refl, tt, tt)
  Run-IsServed is_same _ _ (accepted conn s owed run others none) =
      accept_client-IsServed conn s owed (Run-IsServed is_same s owed run) others none
  Run-IsServed is_same _ _ (broadcasted writes bid ask s owed run) =
      broadcast_tick-IsServed is_same writes bid ask s owed (Run-IsServed is_same s owed run)
