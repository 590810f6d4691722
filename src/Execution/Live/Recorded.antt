-- ===== src/Execution/Live/Recorded.antt =====
-- The requests that the exchange receives while the pipeline runs over the live client.
use botbtc.Prelude.{ℕ, ℤ, ◌≡◌, refl, Bool-cases, inl, inr, some, String, Dict, List, [], ◌∷◌, ◌++◌}
use botbtc.Float.{Float64}
use botbtc.Config.{Config}
use botbtc.Model.{Signal}
use botbtc.Bingx.{PlaceOrderRequest}
use botbtc.Bingx.Live.{
  LiveClient, HttpRequest, Network, execute_request, do_signed, signed_params, signed_request,
}
use botbtc.Bingx.Live.Calls.{
  Bodies, order_params, get_balance, place_order, cancel_order, get_order,
}
use botbtc.Bingx.Live.Orders.{IsAsked, order-IsAsked}
use botbtc.Execution.State.{ActivePosition, Host, World}
use botbtc.Execution.Frames.{Call, Calls, idle, later}
use botbtc.Execution.Exit.{ExitReason, execute_exit}
use botbtc.Execution.Exit.Closing.{IsExitRequest, execute_exit-Exited}
use botbtc.Execution.Process.{process_signal}
use botbtc.Execution.Process.Opening.{IsOrderOf, process_signal-Opening}
use botbtc.Execution.Live.{Outside, live_host, Log, recorded, recorded_outside}

-- `log'` is `log` and then requests that all satisfy `P`.
pub data Sent (P : HttpRequest → Type 0) (log : List HttpRequest) : List HttpRequest → Type 0 where
  none_more : Sent P log log
  one_more :
      {log' : List HttpRequest} {req : HttpRequest}
      → Sent P log log'
      → P req
      → Sent P log (log' ++ (req ∷ []))

module _ {P : HttpRequest → Type 0} where
  Sent-trans : {l m n : List HttpRequest} → Sent P l m → Sent P m n → Sent P l n
  Sent-trans s none_more = s
  Sent-trans s (one_more t p) = one_more (Sent-trans s t) p

-- A question, a cancellation, or an order that `Safe` allows, signed with the client's key.
pub data IsPermitted {F E Bytes : Type 0} ⦃fl : Float64 F⦄ (net : Network E Bytes) (c : LiveClient)
    (Safe : PlaceOrderRequest F → Type 0) (req : HttpRequest) : Type 0 where
  question : req.verb ≡ "GET" → IsPermitted net c Safe req
  cancellation : req.verb ≡ "DELETE" → IsPermitted net c Safe req
  order :
      (asked : PlaceOrderRequest F) (signed : Dict String)
      → Safe asked
      → IsAsked asked signed
      → req ≡ signed_request net c "POST" "/openApi/swap/v2/trade/order" signed
      → IsPermitted net c Safe req

module _ {E Bytes : Type 0} (net : Network E Bytes) {P : HttpRequest → Type 0} where
  execute-Sent :
      (req : HttpRequest) (s : Log E)
      → P req
      → Sent P s.0 (execute_request (recorded net) req s).1.0
  unfolding execute_request recorded
  execute-Sent req s p = elim (Bool-cases (net.builds req)) [
    | inl e ↦ rw (execute_request, recorded, e) (one_more none_more p)
    | inr e ↦ rw (execute_request, recorded, e) none_more
  ]

  do_signed-Sent :
      (c : LiveClient) (verb path : String) (params : Dict String) (s : Log E)
      → ((local_ms : ℤ)
          → P (
              signed_request
                (recorded net)
                c
                verb
                path
                (signed_params (recorded net) c local_ms params)))
      → Sent P s.0 (do_signed (recorded net) c verb path params s).1.0
  unfolding do_signed recorded
  do_signed-Sent c verb path params s p = execute-Sent _ _ (p _)

module _ {F E Bytes : Type 0} ⦃fl : Float64 F⦄ (out : Outside F E) (net : Network E Bytes)
    (json : Bodies F Bytes) (c : LiveClient) where
  -- The pipeline's outside with its requests recorded.
  abbrev pub live : Host F (Log E)
  live = live_host (recorded_outside out) (recorded net) json c

  module _ (Safe : PlaceOrderRequest F → Type 0) where
    abbrev P : HttpRequest → Type 0
    P = IsPermitted net c Safe

    place_order-Sent :
        (req : PlaceOrderRequest F) (s : Log E)
        → Safe req
        → Sent P s.0 (place_order (recorded net) json c req s).1.0
    unfolding place_order signed_request recorded
    place_order-Sent req s safe =
        do_signed-Sent net c "POST" "/openApi/swap/v2/trade/order" (order_params req) s
          λ local_ms. order req _ safe (order-IsAsked (recorded net) c local_ms req) refl

    Call-Sent : {s s' : Log E} → Call live Safe s s' → Sent P s.0 s'.0
    unfolding live_host recorded_outside get_balance get_order cancel_order signed_request
    Call-Sent Call.now = none_more
    Call-Sent (Call.sleep d) = none_more
    Call-Sent Call.is_done = none_more
    Call-Sent Call.latest_book = none_more
    Call-Sent {s} Call.get_balance = do_signed-Sent net c _ _ _ s λ ms. question refl
    Call-Sent {s} (Call.get_order symbol id) = do_signed-Sent net c _ _ _ s λ ms. question refl
    Call-Sent {s} (Call.cancel_order symbol id) =
        do_signed-Sent net c _ _ _ s λ ms. cancellation refl
    Call-Sent {s} (Call.place_order req safe) = place_order-Sent req s safe

    Calls-Sent : {s s' : Log E} → Calls live Safe s s' → Sent P s.0 s'.0
    Calls-Sent idle = none_more
    Calls-Sent (later d call) = Sent-trans (Calls-Sent d) (Call-Sent call)

  -- While a position is left over the live client, whatever the exchange answers, every request that is
  -- sent is a question, a cancellation, or a signed order whose parameters ask for a reduce-only
  -- immediate-or-cancel limit order of the whole position on its other side.
  pub execute_exit-Sent :
      (cfg : Config F) (fuel : ℕ) (reason : ExitReason F) (w : World F (Log E))
      (p : ActivePosition F)
      → w.active_pos ≡ some p
      → Sent
          (IsPermitted net c (IsExitRequest cfg p))
          w.env.0
          (execute_exit live cfg fuel reason w).1.env.0
  execute_exit-Sent cfg fuel reason w p held =
      Calls-Sent (IsExitRequest cfg p) (execute_exit-Exited live cfg fuel p reason w held).0

  -- While a signal is processed over the live client, whatever the exchange answers, every request that
  -- is sent is a question, a cancellation, or a signed order whose parameters ask for a limit order of
  -- the signal's symbol and side that is not reduce-only and is post-only or immediate-or-cancel.
  pub process_signal-Sent :
      (cfg : Config F) (fuel : ℕ) (signal : Signal F) (w : World F (Log E))
      → Sent
          (IsPermitted net c (IsOrderOf signal))
          w.env.0
          (process_signal live cfg fuel signal w).1.env.0
  process_signal-Sent cfg fuel signal w =
      Calls-Sent (IsOrderOf signal) (process_signal-Opening live cfg fuel signal w).0
