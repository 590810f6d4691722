-- ===== src/Bingx/Live/Orders.antt =====
-- The order that the exchange is asked for by the live client's `PlaceOrder`.
use botbtc.Prelude.{
  ℤ, ◌≡◌, refl, ◌∙◌, arith, Bool-cases, inl, inr, false, not, none, some, String, str_eq, Dict,
  lookup, if◌then◌else◌,
}
use botbtc.Float.{Float64}
use botbtc.Bingx.{PlaceOrderRequest}
use botbtc.Bingx.Live.{
  LiveClient, Network, do_signed, signed_params, signed_request, execute_request,
}
use botbtc.Bingx.Live.Requests.{signed_params-IsSigned}
use botbtc.Bingx.Live.Calls.{Bodies, decoded, or_else, order_params, place_order}

module _ {E Bytes : Type 0} (net : Network E Bytes) (c : LiveClient) where
  given :
      (local_ms : ℤ) (params : Dict String) (key : String)
      → str_eq "timestamp" key ≡ false
      → str_eq "recvWindow" key ≡ false
      → lookup key (signed_params net c local_ms params) ≡ lookup key params
  given local_ms params key not_time not_window =
      elim ((signed_params-IsSigned net c local_ms params).others key) [
        | inl is_time ↦ absurd (grind (arith, not_time, is_time))
        | inr (inl is_window) ↦ absurd (grind (arith, not_window, is_window))
        | inr (inr same) ↦ same
      ]

-- What the signed parameters say of an order.
pub record IsAsked {F : Type 0} ⦃fl : Float64 F⦄ (req : PlaceOrderRequest F) (signed : Dict String)
    : Type 0 where
  pub symbol : lookup "symbol" signed ≡ some req.symbol
  pub side : lookup "side" signed ≡ some req.side
  pub position_side : lookup "positionSide" signed ≡ some req.position_side
  pub kind : lookup "type" signed ≡ some "LIMIT"
  pub time_in_force : lookup "timeInForce" signed ≡ some req.time_in_force
  pub price : lookup "price" signed ≡ some (fl.format req.price)
  pub quantity : lookup "quantity" signed ≡ some (fl.format req.quantity)
  pub client_order_id : lookup "clientOrderID" signed ≡ some req.client_order_id
  pub reduce_only : lookup "reduceOnly" signed ≡ (if req.reduce_only then some "true" else none)

reduce_only_param :
    {F : Type 0} ⦃fl : Float64 F⦄ (req : PlaceOrderRequest F)
    → lookup "reduceOnly" (order_params req) ≡ (if req.reduce_only then some "true" else none)
unfolding order_params lookup
reduce_only_param req = elim (Bool-cases req.reduce_only) [ inl e ↦ rw e refl | inr e ↦ rw e refl ]

module _ {F E Bytes : Type 0} ⦃fl : Float64 F⦄ (net : Network E Bytes) (c : LiveClient) where
  pub order-IsAsked :
      (local_ms : ℤ) (req : PlaceOrderRequest F)
      → IsAsked req (signed_params net c local_ms (order_params req))
  unfolding order_params lookup
  order-IsAsked local_ms req =
      let params = order_params req in
      record {
        symbol = given net c local_ms params "symbol" refl refl;
        side = given net c local_ms params "side" refl refl;
        position_side = given net c local_ms params "positionSide" refl refl;
        kind = given net c local_ms params "type" refl refl;
        time_in_force = given net c local_ms params "timeInForce" refl refl;
        price = given net c local_ms params "price" refl refl;
        quantity = given net c local_ms params "quantity" refl refl;
        client_order_id = given net c local_ms params "clientOrderID" refl refl;
        reduce_only = given net c local_ms params "reduceOnly" refl refl ∙ reduce_only_param req;
      }

  -- PlaceOrder makes one request, signed at the time of the clock, whose parameters ask for a limit order
  -- of the symbol, sides, price, quantity, time in force and id that it was given, reduce-only exactly when
  -- it was told so; and its answer is what the exchange's body says of the order.
  pub place_order_lem :
      (json : Bodies F Bytes) (req : PlaceOrderRequest F) (e : E)
      → let (local_ms, e') = net.now_ms e in
        let signed = signed_params net c local_ms (order_params req) in
        let asked = signed_request net c "POST" "/openApi/swap/v2/trade/order" signed in
        let (answer, e'') = execute_request net asked e' in
        IsAsked req signed
        × (place_order net json c req e ≡ (
          decoded
              (or_else json.wrapped_placed (λ r. not (str_eq r.order_id "")) json.placed)
              answer,
          e'',
        ))
  unfolding place_order do_signed
  place_order_lem json req e = (order-IsAsked (net.now_ms e).0 req, refl)
