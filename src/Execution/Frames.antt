-- ===== src/Execution/Frames.antt =====
-- What a method may do to the world: a relation that every call outside respects is respected by the
-- method. The rules follow the shape of a `do` block.
use botbtc.Prelude.{ℤ, ◌≡◌, refl, ◌∙◌, Bool, true, false, String, if◌then◌else◌}
use botbtc.Bingx.{PlaceOrderRequest}
use botbtc.Orders.{Manager}
use botbtc.Latency.{LatencyTracker}
use botbtc.Risk.{Engine}
use botbtc.Execution.State.{
  Host, World, Error, Result, ok, err, Action, pure, raise, ◌>>=◌, ask, tell, on_latency, on_orders,
  get_risk,
}

-- A call of the host, by which its state goes from `e` to the next; orders are placed only as `Safe`
-- permits.
pub data Call {F E : Type 0} (h : Host F E) (Safe : PlaceOrderRequest F → Type 0) (e : E)
    : E → Type 0 where
  now : Call h Safe e (h.now e).1
  sleep : (d : ℤ) → Call h Safe e (h.sleep d e)
  is_done : Call h Safe e (h.is_done e).1
  latest_book : Call h Safe e (h.latest_book e).1
  get_balance : Call h Safe e (h.get_balance e).1
  get_order : (symbol id : String) → Call h Safe e (h.get_order symbol id e).1
  cancel_order : (symbol id : String) → Call h Safe e (h.cancel_order symbol id e).1
  place_order : (req : PlaceOrderRequest F) → Safe req → Call h Safe e (h.place_order req e).1

pub data Calls {F E : Type 0} (h : Host F E) (Safe : PlaceOrderRequest F → Type 0) (e : E)
    : E → Type 0 where
  idle : Calls h Safe e e
  later : {e' e'' : E} → Calls h Safe e e' → Call h Safe e' e'' → Calls h Safe e e''

module _ {F E : Type 0} (h : Host F E) (Safe : PlaceOrderRequest F → Type 0) where
  pub Calls-trans : {e e' e'' : E} → Calls h Safe e e' → Calls h Safe e' e'' → Calls h Safe e e''
  Calls-trans c idle = c
  Calls-trans c (later d s) = later (Calls-trans c d) s

  -- The outside is reached by permitted calls; risk engine, position and monitor are untouched.
  pub record IsQuiet (w w' : World F E) : Type 0 where
    pub calls : Calls h Safe w.env w'.env
    pub same_risk : w'.risk ≡ w.risk
    pub same_pos : w'.active_pos ≡ w.active_pos
    pub same_cancel : w'.monitor_cancel ≡ w.monitor_cancel
    pub same_monitors : w'.monitors ≡ w.monitors

  pub IsQuiet-same : (w : World F E) → IsQuiet w w
  IsQuiet-same w = record {
    calls = idle;
    same_risk = refl;
    same_pos = refl;
    same_cancel = refl;
    same_monitors = refl;
  }

  pub IsQuiet-trans : {u v w : World F E} → IsQuiet u v → IsQuiet v w → IsQuiet u w
  IsQuiet-trans p q = record {
    calls = Calls-trans p.calls q.calls;
    same_risk = q.same_risk ∙ p.same_risk;
    same_pos = q.same_pos ∙ p.same_pos;
    same_cancel = q.same_cancel ∙ p.same_cancel;
    same_monitors = q.same_monitors ∙ p.same_monitors;
  }

-- Such a method.
pub record Keeps {F E A : Type 0} (h : Host F E) (Safe : PlaceOrderRequest F → Type 0)
    (m : Action F E A) : Type 0 where
  pub at : (w : World F E) → IsQuiet h Safe w (m w).1

module _ {F E : Type 0} {h : Host F E} {Safe : PlaceOrderRequest F → Type 0} where
  untouched :
      {w w' : World F E}
      → Calls h Safe w.env w'.env
      → w'.risk ≡ w.risk
      → w'.active_pos ≡ w.active_pos
      → w'.monitor_cancel ≡ w.monitor_cancel
      → w'.monitors ≡ w.monitors
      → IsQuiet h Safe w w'
  untouched c r p q n = record {
    calls = c;
    same_risk = r;
    same_pos = p;
    same_cancel = q;
    same_monitors = n;
  }

  pub Keeps-pure : {A : Type 0} (a : A) → Keeps h Safe (pure a)
  Keeps-pure a = record { at = λ w. IsQuiet-same h Safe w }

  pub Keeps-raise : {A : Type 0} (e : Error F) → Keeps {A = A} h Safe (raise e)
  Keeps-raise e = record { at = λ w. IsQuiet-same h Safe w }

  bind_run :
      {A B : Type 0} {w : World F E} (f : A → Action F E B) (r : Result F A) (w' : World F E)
      → IsQuiet h Safe w w'
      → ((a : A) → Keeps h Safe (f a))
      → IsQuiet h Safe w
          (elim r as (λ _. Result F B × World F E) [ ok a ↦ f a w' | err e ↦ (err e, w') ]).1
  bind_run f (ok a) w' p hf = IsQuiet-trans h Safe p ((hf a).at w')
  bind_run f (err e) w' p hf = p

  pub Keeps-bind :
      {A B : Type 0} {m : Action F E A} {f : A → Action F E B}
      → Keeps h Safe m
      → ((a : A) → Keeps h Safe (f a))
      → Keeps h Safe (m >>= f)
  Keeps-bind {m = m} {f = f} hm hf = record { at = λ w. bind_run f (m w).0 (m w).1 (hm.at w) hf }

  pub Keeps-if :
      {A : Type 0} (b : Bool) {m n : Action F E A}
      → Keeps h Safe m
      → Keeps h Safe n
      → Keeps h Safe (if b then m else n)
  Keeps-if true hm hn = hm
  Keeps-if false hm hn = hn

  pub Keeps-ask :
      {A : Type 0} (f : E → A × E) → ((e : E) → Call h Safe e (f e).1) → Keeps h Safe (ask f)
  Keeps-ask f c = record { at = λ w. untouched (later idle (c w.env)) refl refl refl refl }

  pub Keeps-now : Keeps h Safe (ask h.now)
  Keeps-now = Keeps-ask h.now (λ e. Call.now)

  pub Keeps-is_done : Keeps h Safe (ask h.is_done)
  Keeps-is_done = Keeps-ask h.is_done (λ e. Call.is_done)

  pub Keeps-latest_book : Keeps h Safe (ask h.latest_book)
  Keeps-latest_book = Keeps-ask h.latest_book (λ e. Call.latest_book)

  pub Keeps-get_balance : Keeps h Safe (ask h.get_balance)
  Keeps-get_balance = Keeps-ask h.get_balance (λ e. Call.get_balance)

  pub Keeps-get_order : (symbol id : String) → Keeps h Safe (ask (h.get_order symbol id))
  Keeps-get_order symbol id = Keeps-ask (h.get_order symbol id) (λ e. Call.get_order symbol id)

  pub Keeps-cancel_order : (symbol id : String) → Keeps h Safe (ask (h.cancel_order symbol id))
  Keeps-cancel_order symbol id =
      Keeps-ask (h.cancel_order symbol id) (λ e. Call.cancel_order symbol id)

  pub Keeps-place_order :
      (req : PlaceOrderRequest F) → Safe req → Keeps h Safe (ask (h.place_order req))
  Keeps-place_order req s = Keeps-ask (h.place_order req) (λ e. Call.place_order req s)

  pub Keeps-sleep : (d : ℤ) → Keeps h Safe (tell (h.sleep d))
  Keeps-sleep d = record { at = λ w. untouched (later idle (sleep d)) refl refl refl refl }

  pub Keeps-latency : (f : LatencyTracker → LatencyTracker) → Keeps h Safe (on_latency f)
  Keeps-latency f = record { at = λ w. untouched idle refl refl refl refl }

  pub Keeps-orders : {A : Type 0} (f : Manager F → Manager F × A) → Keeps h Safe (on_orders f)
  Keeps-orders f = record { at = λ w. untouched idle refl refl refl refl }

  pub Keeps-get_risk : {A : Type 0} (f : Engine F → A) → Keeps h Safe (get_risk f)
  Keeps-get_risk f = record { at = λ w. IsQuiet-same h Safe w }

pub ruleset keeps_rules = (
  Keeps-pure, Keeps-raise, Keeps-bind, Keeps-if, Keeps-now, Keeps-is_done, Keeps-latest_book,
  Keeps-get_balance, Keeps-get_order, Keeps-cancel_order, Keeps-place_order, Keeps-sleep,
  Keeps-latency, Keeps-orders,
)
