-- ===== src/Tests/Exchange.antt =====
-- The theorems about the live client and its signed requests.
use mathlib.Core.Path.{subst}
use botbtc.Prelude.{
  ℤ, ℕ, ◌+◌, ◌-◌, ◌<◌, pos, ◌-ℤ◌, ltb, ◌≡◌, ◌↔◌, ◌⊎◌, inl, inr, refl, arith, Bool-cases, true, none,
  some, String, str_eq, concat, List, [], ◌∷◌, Dict, lookup, if◌then◌else◌,
}
use botbtc.Bridge.Words.{same_text}
use mathlib.Core.Quot
use botbtc.Bingx.Signing.{build_query_string, sign_request}
use botbtc.Bingx.Signing.Maps.{
  IsSorting, Listed, value_at, value_at-mk, query_of, signature_of, query_of-Params,
}
use botbtc.Bingx.Signing.Determinism.{IsIn}
use botbtc.Float.Fixed.{micros_float64}
use botbtc.Tests.Data.{dollars}
use botbtc.Bingx.{PlaceOrderRequest, PlaceOrderResponse}
use botbtc.Bingx.Live.Calls.{Bodies}
use botbtc.Bingx.Live.{
  LiveClient, HttpRequest, replied, Network, get_server_time, sync_server_time, signed_params,
  do_signed,
}
use botbtc.Bingx.Live.Clock.{IsWithin, sync_server_time_lem}
use botbtc.Bingx.Live.Requests.{IsAccepted, IsSigned, do_signed-replied}

-- "price" before "symbol" before the rest.
abbrev rank : String → ℕ
rank s = if str_eq s "price" then 0 else if str_eq s "symbol" then 1 else 2

abbrev put : String → List String → List String
put k [] = k ∷ []
put k (x ∷ xs) = let rest = put k xs in if ltb (rank x) (rank k) then x ∷ rest else k ∷ x ∷ xs

abbrev sorted : List String → List String
sorted [] = []
sorted (k ∷ ks) = put k (sorted ks)

IsIn-put : (key k : String) (xs : List String) → IsIn key (put k xs) → (key ≡ k) ⊎ IsIn key xs
IsIn-put key k [] m = m
IsIn-put key k (x ∷ xs) m = elim (Bool-cases (ltb (rank x) (rank k))) [
  | inr e ↦ rw e at m
  | inl e ↦ elim (rw e at m) [
    | inl same ↦ inr (inl same)
    | inr m' ↦ elim (IsIn-put key k xs m') [ inl same ↦ inl same | inr later ↦ inr (inr later) ]
  ]
]

put-IsIn : (key k : String) (xs : List String) → (key ≡ k) ⊎ IsIn key xs → IsIn key (put k xs)
put-IsIn key k [] m = m
put-IsIn key k (x ∷ xs) m = elim (Bool-cases (ltb (rank x) (rank k))) [
  | inr e ↦ rw e m
  | inl e ↦ rw e (elim m [
    | inl same ↦ inr (put-IsIn key k xs (inl same))
    | inr (inl first) ↦ inl first
    | inr (inr later) ↦ inr (put-IsIn key k xs (inr later))
  ])
]

sorted-IsIn : (ks : List String) (key : String) → IsIn key (sorted ks) ↔ IsIn key ks
sorted-IsIn [] key = (λ m. m, λ m. m)
sorted-IsIn (k ∷ ks) key = (
  λ m. elim (IsIn-put key k (sorted ks) m) [
    | inl same ↦ inl same
    | inr later ↦ inr ((sorted-IsIn ks key).0 later)
  ],
  λ m.
      put-IsIn key k (sorted ks)
        (elim m [ inl same ↦ inl same | inr later ↦ inr ((sorted-IsIn ks key).1 later) ]),
)

abbrev params : Dict String
params = ("symbol", "BTC-USDT") ∷ ("price", "50000") ∷ []

abbrev other_order : Dict String
other_order = ("price", "50000") ∷ ("symbol", "BTC-USDT") ∷ []

same_lookups : (key : String) → lookup key params ≡ lookup key other_order
unfolding lookup
same_lookups key = elim (Bool-cases (str_eq "symbol" key)) [
  | inl e ↦ subst (λ k. lookup k params ≡ lookup k other_order) (same_text "symbol" key e) refl
  | inr e ↦ rw e refl
]

abbrev Ranked : String → String → Type 0
Ranked s t = rank s < rank t

sorted-IsSorting : IsSorting sorted Ranked
sorted-IsSorting = record {
  irreflexive = λ s h. omega (arith, h);
  transitive = λ s t u h k. omega (arith, h, k);
  kept = sorted-IsIn;
}

abbrev keyed : String → String → String
keyed secret text = concat secret text

abbrev listed : Listed sorted keyed Ranked sorted-IsSorting
listed = (params, ((omega arith, tt), (tt, tt)))

abbrev listed_otherwise : Listed sorted keyed Ranked sorted-IsSorting
listed_otherwise = (other_order, ((omega arith, tt), (tt, tt)))

same_values :
    (key : String)
    → value_at sorted keyed Ranked sorted-IsSorting key (Quot.mk listed)
      ≡ value_at sorted keyed Ranked sorted-IsSorting key (Quot.mk listed_otherwise)
same_values key =
    value_at-mk sorted keyed Ranked sorted-IsSorting key listed listed_otherwise (same_lookups key)

query_of-Params_example :
    let query = query_of sorted keyed Ranked sorted-IsSorting in
    let signature = signature_of sorted keyed Ranked sorted-IsSorting "secret" in
    (query (Quot.mk listed) ≡ build_query_string sorted params)
    × (signature (Quot.mk listed) ≡ sign_request sorted keyed "secret" params)
    × (query (Quot.mk listed) ≡ query (Quot.mk listed_otherwise))
    × (signature (Quot.mk listed) ≡ signature (Quot.mk listed_otherwise))
query_of-Params_example =
    query_of-Params sorted keyed Ranked sorted-IsSorting "secret" listed (Quot.mk listed)
      (Quot.mk listed_otherwise) same_values

abbrev pub client : LiveClient
client = record {
  base_url = "https://open-api.bingx.com";
  api_key = "key";
  api_secret = "secret";
  recv_window = pos 5_000;
  server_time_delta = pos 30;
}

-- A network whose clock is its state; a response takes 40 ms.
abbrev pub net : Network ℕ String
net = record {
  now_ms = λ e. (pos e, e);
  builds = λ req. true;
  send = λ req e. (some (record { status_code = pos 200; body = some "970" }), e + 40);
  sort = sorted;
  hmac = λ secret text. concat secret text;
  decimal = λ n. "7";
  envelope = λ bytes. some (record { code = pos 0; msg = ""; content = bytes });
}

-- The server read 970 at 1,000, so the clocks differ by 30.
sync_server_time_lem_example :
    let (error, c', e') = sync_server_time net (λ body. some (pos 970)) client 990 in
    (error ≡ none) × IsWithin (c'.server_time_delta -ℤ (pos 1_000 -ℤ pos 970)) (1_030 - 990)
unfolding get_server_time
sync_server_time_lem_example =
    sync_server_time_lem net (λ body. some (pos 970)) client 990 990 1_030 1_030 990 1_000 1_030 970
      refl refl refl (omega arith) (omega arith) (omega arith) (omega arith)

do_signed-replied_example :
    let signed = signed_params net client (pos 990) params in
    let query = build_query_string sorted signed in
    let req : HttpRequest = record {
      verb = "GET";
      url =
          concat "https://open-api.bingx.com/openApi/swap/v2/trade/order"
            (concat "?" (concat query (concat "&signature=" (concat "secret" query))));
      key_header = some "key";
    } in
    IsSigned net client (pos 990) params signed
    × (((do_signed net client "GET" "/openApi/swap/v2/trade/order" params 990).0 ≡ replied "970")
        ↔ ((net.builds req ≡ true) × IsAccepted net (net.send req 990).0 "970"))
do_signed-replied_example =
    do_signed-replied net client "GET" "/openApi/swap/v2/trade/order" params 990 "970"

-- An order that leaves a position, and bodies that tell nothing but an order id.
abbrev leaving : PlaceOrderRequest ℤ
leaving = record {
  symbol = "BTC-USDT";
  side = "SELL";
  position_side = "BOTH";
  order_type = "LIMIT";
  time_in_force = "IOC";
  price = dollars 50_000;
  quantity = pos 100;
  reduce_only = true;
  client_order_id = "exit-1";
}

abbrev placed_as : String → PlaceOrderResponse
placed_as id = record {
  order_id = id;
  client_order_id = "";
  status = "NEW";
  price = "";
  quantity = "";
}

abbrev bodies : Bodies ℤ String
bodies = record {
  contracts = λ b. none;
  contract = λ b. none;
  wrapped_ticker = λ b. none;
  wrapped_balance = λ b. none;
  balance = λ b. none;
  balances = λ b. none;
  positions = λ b. none;
  rates = λ b. none;
  wrapped_placed = λ b. some (placed_as b);
  placed = λ b. none;
  wrapped_order = λ b. none;
  order = λ b. none;
  wrapped_orders = λ b. none;
  orders = λ b. none;
}
