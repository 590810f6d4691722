-- ===== src/Bingx/Live.antt =====
-- server/internal/bingx/live.go: the client of the exchange's REST interface.
pub mod Requests
pub mod Clock
pub mod Calls
pub mod Orders
use botbtc.Prelude.{
  ℕ, ◌+◌, ◌/◌, ℤ, pos, negsuc, ltb_ℤ, leb_ℤ, eq_ℤ, add64, sub64, Bool, true, false, not, ◌||◌, ◌&&◌,
  Option, none, some, String, str_eq, concat, List, [], ◌∷◌, Dict, insert, if◌then◌else◌,
}
use botbtc.Float.{Float64}
use botbtc.Bingx.{
  BookTicker, AccountBalance, PositionInfo, PlaceOrderRequest, PlaceOrderResponse, OrderInfo,
}
use botbtc.Bingx.Signing.{build_query_string, sign_request, add_timestamp}

pub record LiveClient : Type 0 where
  pub base_url : String
  pub api_key : String
  pub api_secret : String
  pub recv_window : ℤ
  pub server_time_delta : ℤ

-- `key_header` is the header X-BX-APIKEY, when it is set.
pub record HttpRequest : Type 0 where
  pub verb : String
  pub url : String
  pub key_header : Option String

-- A response: its status, and its body unless reading it fails.
pub record HttpResponse (Bytes : Type 0) : Type 0 where
  pub status_code : ℤ
  pub body : Option Bytes

-- `apiResponse`
pub record ApiResponse (Bytes : Type 0) : Type 0 where
  pub code : ℤ
  pub msg : String
  pub content : Bytes

pub data LiveError : Type 0 where
  not_built : LiveError
  http_failed : LiveError
  read_failed : LiveError
  bad_status : ℤ → LiveError
  bad_envelope : LiveError
  api_error : (code : ℤ) (msg : String) → LiveError
  bad_body : LiveError
  contract_not_found : (symbol : String) → LiveError

pub data Reply (A : Type 0) : Type 0 where
  replied : A → Reply A
  failed : LiveError → Reply A

-- What the client calls: net/http over a state of the network, the clock in milliseconds, sort.Strings,
-- HMAC-SHA256 in hexadecimal, strconv, and the JSON of an envelope. `builds` tells whether
-- http.NewRequest takes a request.
pub record Network (E Bytes : Type 0) : Type 0 where
  pub now_ms : E → ℤ × E
  pub builds : HttpRequest → Bool
  pub send : HttpRequest → E → Option (HttpResponse Bytes) × E
  pub sort : List String → List String
  pub hmac : String → String → String
  pub decimal : ℤ → String
  pub envelope : Bytes → Option (ApiResponse Bytes)

-- `x / 2` of an int64, which rounds to zero
abbrev pub half : ℤ → ℤ
half (pos n) = pos (n / 2)
half (negsuc n) = sub64 (pos 0) (pos ((n + 1) / 2))

-- The difference that `SyncServerTime` computes.
unfoldable pub time_delta : (before_ms server_ms after_ms : ℤ) → ℤ
time_delta before_ms server_ms after_ms =
    sub64 after_ms (add64 server_ms (half (sub64 after_ms before_ms)))

module _ {E Bytes : Type 0} (net : Network E Bytes) where
  -- `executeRequest`, from the response on
  unfoldable pub read_response : Option (HttpResponse Bytes) → Reply Bytes
  read_response none = failed http_failed
  read_response (some resp) = elim resp.body [
    | none ↦ failed read_failed
    | some bytes ↦
        if ltb_ℤ resp.status_code (pos 200) || leb_ℤ (pos 300) resp.status_code
        then failed (bad_status resp.status_code)
        else elim (net.envelope bytes) [
          | none ↦ failed bad_envelope
          | some api ↦
              if eq_ℤ api.code (pos 0)
              then replied api.content
              else failed (api_error api.code api.msg)
        ]
  ]

  -- http.NewRequestWithContext and `executeRequest`
  unfoldable pub execute_request : HttpRequest → E → Reply Bytes × E
  unfolding read_response
  execute_request req e =
      if net.builds req
      then (let (resp, e') = net.send req e in (read_response resp, e'))
      else (failed not_built, e)

  -- `doPublic`
  unfoldable pub public_url : LiveClient → (path : String) → Dict String → String
  public_url c path [] = concat c.base_url path
  public_url c path (param ∷ params) =
      concat (concat c.base_url path) (concat "?" (build_query_string net.sort (param ∷ params)))

  unfoldable pub do_public : LiveClient → (verb path : String) → Dict String → E → Reply Bytes × E
  unfolding public_url execute_request
  do_public c verb path params =
      execute_request (record { verb = verb; url = public_url c path params; key_header = none })

  -- Steps 1 and 2 of `doSigned`
  unfoldable pub signed_params : LiveClient → (local_ms : ℤ) → Dict String → Dict String
  signed_params c local_ms params =
      let stamped = add_timestamp net.decimal local_ms c.server_time_delta params in
      if ltb_ℤ (pos 0) c.recv_window
      then insert "recvWindow" (net.decimal c.recv_window) stamped
      else stamped

  -- Steps 3 to 5 of `doSigned`
  unfoldable pub signed_request : LiveClient → (verb path : String) → Dict String → HttpRequest
  signed_request c verb path params =
      let signature = sign_request net.sort net.hmac c.api_secret params in
      let query = concat (build_query_string net.sort params) (concat "&signature=" signature) in
      record {
        verb = verb;
        url = concat (concat c.base_url path) (concat "?" query);
        key_header = some c.api_key;
      }

  -- `doSigned`
  unfoldable pub do_signed : LiveClient → (verb path : String) → Dict String → E → Reply Bytes × E
  unfolding signed_params signed_request execute_request
  do_signed c verb path params e =
      let (local_ms, e') = net.now_ms e in
      execute_request (signed_request c verb path (signed_params c local_ms params)) e'

  -- `GetServerTime`; `server_time` is the JSON of its body.
  unfoldable pub get_server_time : (server_time : Bytes → Option ℤ) → LiveClient → E → Reply ℤ × E
  unfolding do_public
  get_server_time server_time c e =
      let (answer, e') = do_public c "GET" "/openApi/swap/v2/server/time" [] e in
      (
        elim answer [
          | failed why ↦ failed why
          | replied body ↦ elim (server_time body) [ none ↦ failed bad_body | some t ↦ replied t ]
        ],
        e',
      )

  -- `SyncServerTime` from the server's answer on: an error leaves the client as it was.
  unfoldable pub store_delta :
      (before_ms : ℤ) → Reply ℤ → LiveClient → E → Option LiveError × LiveClient × E
  unfolding time_delta
  store_delta before_ms (failed why) c e = (some why, c, e)
  store_delta before_ms (replied server_ms) c e =
      let (after_ms, e') = net.now_ms e in
      (none, record c { server_time_delta = time_delta before_ms server_ms after_ms }, e')

  unfoldable pub sync_server_time :
      (server_time : Bytes → Option ℤ) → LiveClient → E → Option LiveError × LiveClient × E
  unfolding get_server_time store_delta
  sync_server_time server_time c e =
      let (before_ms, e1) = net.now_ms e in
      let (answer, e2) = get_server_time server_time c e1 in store_delta before_ms answer c e2
