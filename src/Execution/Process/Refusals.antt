-- ===== src/Execution/Process/Refusals.antt =====
-- A signal that the risk engine refuses.
use botbtc.Prelude.{ℕ, ◌≡◌, ◌≢◌, refl, arith, true, String}
use botbtc.Float.{Float64}
use botbtc.Config.{Config}
use botbtc.Model.{Signal}
use botbtc.Risk
use botbtc.Risk.{Engine, Verdict, evaluate_signal, maybe_reset_daily, reset_daily}
use botbtc.Execution.State.{Host, World, Result, err, rejected_by_risk}
use botbtc.Execution.Process.{judge, with_verdict, process_signal}

module _ {F E : Type 0} ⦃fl : Float64 F⦄ (h : Host F E) (cfg : Config F) (fuel : ℕ)
    (signal : Signal F) where
  open-refused :
      (today : String) (e : Engine F)
      → e.has_open_position ≡ true
      → (evaluate_signal today e).1 ≢ Verdict.allowed
  unfolding evaluate_signal maybe_reset_daily reset_daily
  open-refused today e held = ground arith

  -- A signal that was not taken up: the clock was read twice, and no order and no position was touched.
  pub record IsUntouched (w w' : World F E) (r : Result F (Unit {0})) : Type 0 where
    pub why : Risk.Reason
    pub refusal : r ≡ err (rejected_by_risk why)
    pub only_clock : w'.env ≡ (h.now (h.now w.env).1).1
    pub same_orders : w'.orders ≡ w.orders
    pub same_pos : w'.active_pos ≡ w.active_pos

  IsUntouched-at :
      (w w' : World F E) (v : Verdict)
      → v ≢ Verdict.allowed
      → w'.env ≡ (h.now (h.now w.env).1).1
      → w'.orders ≡ w.orders
      → w'.active_pos ≡ w.active_pos
      → let done = with_verdict h cfg fuel signal v w' in IsUntouched w done.1 done.0
  unfolding with_verdict
  IsUntouched-at w w' Verdict.allowed not_allowed e o p = absurd (not_allowed refl)
  IsUntouched-at w w' (Verdict.refused why) not_allowed e o p = record {
    why = why;
    refusal = refl;
    only_clock = e;
    same_orders = o;
    same_pos = p;
  }

  -- While the risk engine counts a position as open, every signal is refused by it: nothing is asked of
  -- the exchange, and orders and position stay as they are.
  pub process_signal-IsUntouched :
      (w : World F E)
      → w.risk.has_open_position ≡ true
      → let done = process_signal h cfg fuel signal w in IsUntouched w done.1 done.0
  unfolding process_signal judge
  process_signal-IsUntouched w held =
      IsUntouched-at w _ _ (open-refused _ w.risk held) refl refl refl
