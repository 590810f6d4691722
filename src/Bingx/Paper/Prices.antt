-- ===== src/Bingx/Paper/Prices.antt =====
-- server/internal/bingx/paper.go: what the paper client asks of the public API, and its constants.
use botbtc.Prelude.{ℤ, pos, eq_ℤ, Option, none, some, String, concat, if◌then◌else◌}
use botbtc.Float.{Float64}
use botbtc.Bingx.{BookTicker, ContractInfo}
use botbtc.Bingx.Live.{HttpRequest, HttpResponse, Network}
use botbtc.Bingx.Paper.{PaperClient, get_book_ticker}

-- `GetContractInfo`
unfoldable pub get_contract_info : {F : Type 0} → ⦃fl : Float64 F⦄ → String → ContractInfo F
get_contract_info ⦃fl = fl⦄ symbol = record {
  symbol = symbol;
  price_precision = pos 2;
  quantity_precision = pos 3;
  min_qty = fl.literal 1 3;
  max_qty = fl.literal 100 0;
  qty_step = fl.literal 1 3;
  tick_size = fl.literal 1 2;
  max_leverage = pos 125;
}

-- The JSON of an envelope, as its code and data, and of {"book_ticker": …}.
pub record Tickers (F Bytes : Type 0) : Type 0 where
  pub code_data : Bytes → Option (ℤ × Bytes)
  pub wrapped : Bytes → Option (BookTicker F)

module _ {F E Bytes : Type 0} (net : Network E Bytes) (json : Tickers F Bytes) where
  -- `GetServerTime`
  abbrev pub get_server_time : E → ℤ × E
  get_server_time = net.now_ms

  abbrev pub ticker_request : (symbol : String) → HttpRequest
  ticker_request symbol = record {
    verb = "GET";
    url =
        concat "https://open-api.bingx.com"
          (concat "/openApi/swap/v2/quote/bookTicker?symbol=" symbol);
    key_header = none;
  }

  -- The ticker in a response, whatever its status.
  unfoldable pub ticker_of : Option (HttpResponse Bytes) → Option (BookTicker F)
  ticker_of none = none
  ticker_of (some resp) = elim resp.body [
    | none ↦ none
    | some body ↦ elim (json.code_data body) [
      | none ↦ none
      | some (code, content) ↦ if eq_ℤ code (pos 0) then json.wrapped content else none
    ]
  ]

  -- `GetBookTicker`; the clock is read once, also where the code does not use it.
  unfoldable pub fetch_book_ticker :
      ⦃fl : Float64 F⦄ (symbol : String)
      → PaperClient F
      → E
      → (PaperClient F × Option (BookTicker F)) × E
  unfolding ticker_of get_book_ticker
  fetch_book_ticker symbol p e =
      let (resp, e1) = net.send (ticker_request symbol) e in
      let builds = net.builds (ticker_request symbol) in
      let fetched = if builds then ticker_of resp else none in
      let (now, e2) = net.now_ms (if builds then e1 else e) in (get_book_ticker fetched now p, e2)
