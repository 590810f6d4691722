-- ===== src/Execution/Outcomes.antt =====
-- What a method of the pipeline leads to: a relation between the world before it, its result and the
-- world after it, proved along the method's `do` blocks.
use botbtc.Prelude.{Bool, true, false, if◌then◌else◌}
use botbtc.Bingx.{PlaceOrderRequest}
use botbtc.Execution.State.{Host, World, Error, Result, ok, err, Action, raise, ◌>>=◌}
use botbtc.Execution.Frames.{
  Call, now, sleep, is_done, latest_book, get_balance, get_order, cancel_order, place_order, Calls,
  idle, later, IsQuiet, IsQuiet-same, Keeps,
}

module _ {F E : Type 0} {h : Host F E} {S T : PlaceOrderRequest F → Type 0}
    (weaken : (req : PlaceOrderRequest F) → S req → T req) where
  Call-map : {e e' : E} → Call h S e e' → Call h T e e'
  Call-map now = Call.now
  Call-map (sleep d) = Call.sleep d
  Call-map is_done = Call.is_done
  Call-map latest_book = Call.latest_book
  Call-map get_balance = Call.get_balance
  Call-map (get_order symbol id) = Call.get_order symbol id
  Call-map (cancel_order symbol id) = Call.cancel_order symbol id
  Call-map (place_order req s) = Call.place_order req (weaken req s)

  Calls-map : {e e' : E} → Calls h S e e' → Calls h T e e'
  Calls-map idle = Calls.idle
  Calls-map (later c d) = Calls.later (Calls-map c) (Call-map d)

  -- A method that keeps to safe orders keeps to a weaker notion of them.
  pub Keeps-weaken : {A : Type 0} {m : Action F E A} → Keeps h S m → Keeps h T m
  Keeps-weaken k = record {
    at = λ w. record {
      calls = Calls-map (k.at w).calls;
      same_risk = (k.at w).same_risk;
      same_pos = (k.at w).same_pos;
      same_cancel = (k.at w).same_cancel;
      same_monitors = (k.at w).same_monitors;
    };
  }

-- A relation between the world before, the result and the world after.
abbrev pub Post : (F E A : Type 0) → Type 1
Post F E A = World F E → Result F A → World F E → Type 0

-- Such a relation that quiet steps at the beginning do not disturb, and that allows to give up after
-- quiet steps.
pub record IsFramed {F E A : Type 0} (h : Host F E) (Safe : PlaceOrderRequest F → Type 0)
    (Q : Post F E A) : Type 0 where
  pub before : {u v w : World F E} {r : Result F A} → IsQuiet h Safe u v → Q v r w → Q u r w
  pub quit : {u v : World F E} (e : Error F) → IsQuiet h Safe u v → Q u (err e) v

-- A method that leads to it.
pub record Leads {F E A : Type 0} (Q : Post F E A) (m : Action F E A) : Type 0 where
  pub at : (w : World F E) → Q w (m w).0 (m w).1

module _ {F E : Type 0} {h : Host F E} {Safe : PlaceOrderRequest F → Type 0} {B : Type 0}
    {Q : Post F E B} (framed : IsFramed h Safe Q) where
  bind_leads :
      {A : Type 0} {w : World F E} (f : A → Action F E B) (r : Result F A) (w' : World F E)
      → IsQuiet h Safe w w'
      → ((a : A) → Leads Q (f a))
      → let done = elim r as (λ _. Result F B × World F E) [
        | ok a ↦ f a w'
        | err e ↦ (err e, w')
      ] in
        Q w done.0 done.1
  bind_leads f (ok a) w' p hf = framed.before p ((hf a).at w')
  bind_leads f (err e) w' p hf = framed.quit e p

  pub Leads-bind :
      {A : Type 0} {m : Action F E A} {f : A → Action F E B}
      → Keeps h Safe m
      → ((a : A) → Leads Q (f a))
      → Leads Q (m >>= f)
  Leads-bind {m = m} {f = f} hm hf = record { at = λ w. bind_leads f (m w).0 (m w).1 (hm.at w) hf }

  pub Leads-raise : (e : Error F) → Leads Q (raise e)
  Leads-raise e = record { at = λ w. framed.quit e (IsQuiet-same h Safe w) }

  pub Leads-if :
      (b : Bool) {m n : Action F E B} → Leads Q m → Leads Q n → Leads Q (if b then m else n)
  Leads-if true hm hn = hm
  Leads-if false hm hn = hn
