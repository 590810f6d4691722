-- ===== src/Bingx/Live/Calls.antt =====
-- The methods of server/internal/bingx/live.go that ask the exchange, with the JSON of their bodies.
use botbtc.Prelude.{
  pos, eq_ℤ, Bool, true, not, Option, none, some, String, str_eq, List, [], ◌∷◌, Dict,
  if◌then◌else◌,
}
use botbtc.Float.{Float64}
use botbtc.Bingx.{
  ContractInfo, BookTicker, AccountBalance, PositionInfo, PlaceOrderRequest, PlaceOrderResponse,
  OrderInfo,
}
use botbtc.Bingx.Live.{
  LiveClient, LiveError, bad_body, contract_not_found, Reply, replied, failed, Network, do_public,
  do_signed,
}

-- json.Unmarshal of a body into the structs of the methods; `none` is its error. A field that a body
-- does not have is empty.
pub record Bodies (F Bytes : Type 0) : Type 0 where
  pub contracts : Bytes → Option (List (ContractInfo F))
  pub contract : Bytes → Option (ContractInfo F)
  pub wrapped_ticker : Bytes → Option (BookTicker F)
  pub wrapped_balance : Bytes → Option (AccountBalance F)
  pub balance : Bytes → Option (AccountBalance F)
  pub balances : Bytes → Option (List (AccountBalance F))
  pub positions : Bytes → Option (List (PositionInfo F))
  pub rates : Bytes → Option (String × String)
  pub wrapped_placed : Bytes → Option PlaceOrderResponse
  pub placed : Bytes → Option PlaceOrderResponse
  pub wrapped_order : Bytes → Option (OrderInfo F)
  pub order : Bytes → Option (OrderInfo F)
  pub wrapped_orders : Bytes → Option (List (OrderInfo F))
  pub orders : Bytes → Option (List (OrderInfo F))

-- A decoded body, or the error of a body that is not understood; a reply that failed stays as it is.
unfoldable pub decoded : {A Bytes : Type 0} → (Bytes → Option A) → Reply Bytes → Reply A
decoded decode (failed why) = failed why
decoded decode (replied body) = elim (decode body) [ none ↦ failed bad_body | some a ↦ replied a ]

abbrev pub or_else :
    {A Bytes : Type 0} → (Bytes → Option A) → (A → Bool) → (Bytes → Option A) → Bytes → Option A
or_else first good second body = elim (first body) [
  | none ↦ second body
  | some a ↦ if good a then some a else second body
]

module _ {F : Type 0} ⦃fl : Float64 F⦄ where
  -- The contract of that symbol, or else the first of the list.
  unfoldable pub find_contract :
      (symbol : String)
      → List (ContractInfo F)
      → (first : Option (ContractInfo F)) → Reply (ContractInfo F)
  find_contract symbol [] none = failed (contract_not_found symbol)
  find_contract symbol [] (some first) = replied first
  find_contract symbol (info ∷ later) first =
      if str_eq info.symbol symbol then replied info else find_contract symbol later first

  -- The parameters of `PlaceOrder`.
  unfoldable pub order_params : PlaceOrderRequest F → Dict String
  order_params req =
      ("symbol", req.symbol)
      ∷ ("side", req.side)
      ∷ ("positionSide", req.position_side)
      ∷ ("type", "LIMIT")
      ∷ ("timeInForce", req.time_in_force)
      ∷ ("price", fl.format req.price)
      ∷ ("quantity", fl.format req.quantity)
      ∷ ("clientOrderID", req.client_order_id)
      ∷ (if req.reduce_only then ("reduceOnly", "true") ∷ [] else [])

module _ {F E Bytes : Type 0} ⦃fl : Float64 F⦄ (net : Network E Bytes) (json : Bodies F Bytes)
    (c : LiveClient) where
  unfoldable pub get_contract_info : (symbol : String) → E → Reply (ContractInfo F) × E
  unfolding do_public decoded find_contract
  get_contract_info symbol e =
      let (answer, e1) =
        do_public net c "GET" "/openApi/swap/v2/quote/contracts" (("symbol", symbol) ∷ []) e in
      (
        elim answer [
          | failed why ↦ failed why
          | replied body ↦ elim (json.contracts body) [
            | none ↦ decoded json.contract (replied body)
            | some [] ↦ find_contract symbol [] none
            | some (info ∷ later) ↦ find_contract symbol (info ∷ later) (some info)
          ]
        ],
        e1,
      )

  unfoldable pub get_book_ticker : (symbol : String) → E → Reply (BookTicker F) × E
  unfolding do_public decoded
  get_book_ticker symbol e =
      let (answer, e1) =
        do_public net c "GET" "/openApi/swap/v2/quote/bookTicker" (("symbol", symbol) ∷ []) e in
      elim (decoded json.wrapped_ticker answer) [
        | failed why ↦ (failed why, e1)
        | replied bt ↦
            if eq_ℤ bt.timestamp (pos 0)
            then (let (now, e2) = net.now_ms e1 in (replied (record bt { timestamp = now }), e2))
            else (replied bt, e1)
      ]

  -- The body as `{"balance": …}`, as one balance, or as a list of them.
  unfoldable pub balances_of : Bytes → Option (List (AccountBalance F))
  balances_of body =
      let named : AccountBalance F → Bool = λ b. not (str_eq b.asset "") in
      let listed : Option (AccountBalance F) → Option (List (AccountBalance F)) =
        λ o. elim o [ none ↦ none | some b ↦ if named b then some (b ∷ []) else none ] in
      elim (listed (json.wrapped_balance body)) [
        | some found ↦ some found
        | none ↦ elim (listed (json.balance body)) [
          | some found ↦ some found
          | none ↦ json.balances body
        ]
      ]

  unfoldable pub get_balance : E → Reply (List (AccountBalance F)) × E
  unfolding do_signed decoded balances_of
  get_balance e =
      let (answer, e1) = do_signed net c "GET" "/openApi/swap/v2/user/balance" [] e in
      (decoded balances_of answer, e1)

  unfoldable pub get_positions : (symbol : String) → E → Reply (List (PositionInfo F)) × E
  unfolding do_signed decoded
  get_positions symbol e =
      let (answer, e1) =
        do_signed net c "GET" "/openApi/swap/v2/user/positions" (("symbol", symbol) ∷ []) e in
      (decoded json.positions answer, e1)

  -- `parse` is strconv.ParseFloat, without its error.
  unfoldable pub get_commission_rate :
      (parse : String → F) → (symbol : String) → E → Reply (F × F) × E
  unfolding do_signed decoded
  get_commission_rate parse symbol e =
      let (answer, e1) =
        do_signed net c "GET" "/openApi/swap/v2/user/commissionRate" (("symbol", symbol) ∷ []) e in
      (
        elim (decoded json.rates answer) [
          | failed why ↦ failed why
          | replied (maker, taker) ↦ replied (parse maker, parse taker)
        ],
        e1,
      )

  unfoldable pub place_order : PlaceOrderRequest F → E → Reply PlaceOrderResponse × E
  unfolding order_params do_signed decoded
  place_order req e =
      let (answer, e1) =
        do_signed net c "POST" "/openApi/swap/v2/trade/order" (order_params req) e in
      (
        decoded (or_else json.wrapped_placed (λ r. not (str_eq r.order_id "")) json.placed) answer,
        e1,
      )

  abbrev pub one_order : (symbol client_order_id : String) → Dict String
  one_order symbol client_order_id = ("symbol", symbol) ∷ ("clientOrderID", client_order_id) ∷ []

  unfoldable pub cancel_order : (symbol client_order_id : String) → E → Option LiveError × E
  unfolding do_signed
  cancel_order symbol client_order_id e =
      let (answer, e1) =
        do_signed net c "DELETE" "/openApi/swap/v2/trade/order" (one_order symbol client_order_id)
          e in
      (elim answer [ failed why ↦ some why | replied body ↦ none ], e1)

  unfoldable pub get_order : (symbol client_order_id : String) → E → Reply (OrderInfo F) × E
  unfolding do_signed decoded
  get_order symbol client_order_id e =
      let (answer, e1) =
        do_signed net c "GET" "/openApi/swap/v2/trade/order" (one_order symbol client_order_id) e in
      (decoded (or_else json.wrapped_order (λ o. not (str_eq o.order_id "")) json.order) answer, e1)

  unfoldable pub get_open_orders : (symbol : String) → E → Reply (List (OrderInfo F)) × E
  unfolding do_signed decoded
  get_open_orders symbol e =
      let (answer, e1) =
        do_signed net c "GET" "/openApi/swap/v2/trade/openOrders" (("symbol", symbol) ∷ []) e in
      (decoded (or_else json.wrapped_orders (λ l. true) json.orders) answer, e1)
