-- ===== src/Execution/Live.antt =====
-- server/cmd/scalper/main.go in live mode: the pipeline whose exchange is the client of
-- server/internal/bingx/live.go, and a network that keeps the requests it is asked.
pub mod Recorded
use botbtc.Prelude.{ℤ, Bool, Option, none, some, String, List, [], ◌∷◌, ◌++◌}
use botbtc.Float.{Float64}
use botbtc.Bingx.{PlaceOrderRequest, PlaceOrderResponse, OrderInfo, AccountBalance, BookTicker}
use botbtc.Bingx.Live.{LiveClient, HttpRequest, LiveError, Reply, replied, failed, Network}
use botbtc.Bingx.Live.Calls.{Bodies, get_balance, place_order, cancel_order, get_order}
use botbtc.Execution.State
use botbtc.Execution.State.{Host, Answer, answered}

-- What the pipeline calls besides the exchange, and the text of a live client's error.
pub record Outside (F E : Type 0) : Type 0 where
  pub now : E → ℤ × E
  pub sleep : ℤ → E → E
  pub is_done : E → Bool × E
  pub latest_book : E → Option (BookTicker F) × E
  pub today : ℤ → String
  pub compact_date : ℤ → String
  pub two_digits : ℤ → String
  pub error_text : LiveError → String

abbrev pub answer_of : {A : Type 0} → (LiveError → String) → Reply A → Answer A
answer_of text (replied a) = answered a
answer_of text (failed why) = State.failed (text why)

abbrev pub error_of : (LiveError → String) → Option LiveError → Option String
error_of text none = none
error_of text (some why) = some (text why)

-- The pipeline's outside, with the live client for its exchange.
unfoldable pub live_host :
    {F E Bytes : Type 0}
    → ⦃fl : Float64 F⦄ → Outside F E
    → Network E Bytes
    → Bodies F Bytes
    → LiveClient
    → Host F E
live_host out net json c = record {
  now = out.now;
  sleep = out.sleep;
  is_done = out.is_done;
  latest_book = out.latest_book;
  get_balance =
      λ e. let (answer, e') = get_balance net json c e in (answer_of out.error_text answer, e');
  place_order = λ req e.
      let (answer, e') = place_order net json c req e in (answer_of out.error_text answer, e');
  cancel_order = λ symbol id e.
      let (why, e') = cancel_order net json c symbol id e in (error_of out.error_text why, e');
  get_order = λ symbol id e.
      let (answer, e') = get_order net json c symbol id e in (answer_of out.error_text answer, e');
  today = out.today;
  compact_date = out.compact_date;
  two_digits = out.two_digits;
}

-- The requests sent so far, the oldest first, beside the state of the outside.
abbrev pub Log : Type 0 → Type 0
Log E = List HttpRequest × E

unlogged : {A E : Type 0} → (E → A × E) → Log E → A × Log E
unlogged f s = ((f s.1).0, (s.0, (f s.1).1))

unfoldable pub recorded : {E Bytes : Type 0} → Network E Bytes → Network (Log E) Bytes
unfolding unlogged
recorded net = record {
  now_ms = unlogged net.now_ms;
  builds = net.builds;
  send = λ req s. ((net.send req s.1).0, (s.0 ++ (req ∷ []), (net.send req s.1).1));
  sort = net.sort;
  hmac = net.hmac;
  decimal = net.decimal;
  envelope = net.envelope;
}

unfoldable pub recorded_outside : {F E : Type 0} → Outside F E → Outside F (Log E)
unfolding unlogged
recorded_outside out = record {
  now = unlogged out.now;
  sleep = λ d s. (s.0, out.sleep d s.1);
  is_done = unlogged out.is_done;
  latest_book = unlogged out.latest_book;
  today = out.today;
  compact_date = out.compact_date;
  two_digits = out.two_digits;
  error_text = out.error_text;
}
