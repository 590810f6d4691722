-- ===== src/Execution/Poll/Quiet.antt =====
-- Polling and cancelling place no orders and leave the pipeline's own state alone.
use botbtc.Prelude.{ℕ, zero, suc, ℤ, Option, String}
use botbtc.Bingx.{PlaceOrderRequest, OrderInfo}
use botbtc.Execution.State.{Host, Answer, answered, failed, Action, exhausted}
use botbtc.Execution.Frames.{
  Keeps, Keeps-bind, Keeps-raise, Keeps-sleep, Keeps-cancel_order, keeps_rules,
}
use botbtc.Execution.Poll.{
  poll_interval, after_answer, poll_round, poll_until, poll_order_fill, cancel_order_safe,
}

module _ {F E : Type 0} (h : Host F E) (Safe : PlaceOrderRequest F → Type 0) where
  after_answer-Keeps :
      (rest : Action F E (Option (OrderInfo F))) (answer : Answer (OrderInfo F))
      → Keeps h Safe rest
      → Keeps h Safe (after_answer h rest answer)
  unfolding after_answer
  after_answer-Keeps rest (failed why) k = Keeps-bind (Keeps-sleep poll_interval) (λ _. k)
  after_answer-Keeps rest (answered info) k = search keeps_rules

  poll_round-Keeps :
      (symbol id : String) (rest : Action F E (Option (OrderInfo F)))
      → Keeps h Safe rest
      → Keeps h Safe (poll_round h symbol id rest)
  unfolding poll_round
  poll_round-Keeps symbol id rest k = search (keeps_rules, after_answer-Keeps)

  poll_until-Keeps :
      (fuel : ℕ) (deadline : ℤ) (symbol id : String)
      → Keeps h Safe (poll_until h fuel deadline symbol id)
  unfolding poll_until
  poll_until-Keeps zero deadline symbol id = Keeps-raise exhausted
  poll_until-Keeps (suc fuel) deadline symbol id =
      let ih = poll_until-Keeps fuel deadline symbol id in search (keeps_rules, poll_round-Keeps)

  pub poll_order_fill-Keeps :
      (fuel : ℕ) (symbol id : String) (timeout : ℤ)
      → Keeps h Safe (poll_order_fill h fuel symbol id timeout)
  unfolding poll_order_fill
  poll_order_fill-Keeps fuel symbol id timeout = search (keeps_rules, poll_until-Keeps)

  pub cancel_order_safe-Keeps : (symbol id : String) → Keeps h Safe (cancel_order_safe h symbol id)
  unfolding cancel_order_safe
  cancel_order_safe-Keeps symbol id = Keeps-cancel_order symbol id
