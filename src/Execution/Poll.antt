-- ===== src/Execution/Poll.antt =====
-- server/internal/execution/entry.go: `pollOrderFill` and `cancelOrderSafe`.
pub mod Termination
pub mod Quiet
use botbtc.Prelude.{
  ℕ, zero, suc, ℤ, pos, ◌+ℤ◌, ltb_ℤ, Bool, true, false, ◌||◌, Option, none, some, String, str_eq,
  if◌then◌else◌,
}
use botbtc.Bingx.{OrderInfo}
use botbtc.Execution.State.{
  Host, World, Answer, answered, failed, Result, ok, err, context_done, exhausted, Action, pure,
  raise, ◌>>=◌, ◌>>◌, ask, tell,
}

-- 20 * time.Millisecond
abbrev pub poll_interval : ℤ
poll_interval = pos 20_000_000

module _ {F E : Type 0} (h : Host F E) where
  -- What follows an answer of GetOrder; `rest` is the loop after it.
  unfoldable pub after_answer :
      Action F E (Option (OrderInfo F)) → Answer (OrderInfo F) → Action F E (Option (OrderInfo F))
  after_answer rest (failed why) = tell (h.sleep poll_interval) >> rest
  after_answer rest (answered info) =
      if str_eq info.status "FILLED"
      then pure (some info)
      else if str_eq info.status "CANCELLED"
          || str_eq info.status "EXPIRED"
          || str_eq info.status "REJECTED"
      then pure none
      else tell (h.sleep poll_interval) >> rest

  -- The body of the loop, while the deadline is ahead.
  unfoldable pub poll_round :
      (symbol client_order_id : String)
      → Action F E (Option (OrderInfo F))
      → Action F E (Option (OrderInfo F))
  poll_round symbol id rest = do
    done ← ask h.is_done
    if done then raise context_done else (ask (h.get_order symbol id) >>= after_answer rest)

  unfoldable pub poll_until :
      ℕ → (deadline : ℤ) → (symbol client_order_id : String) → Action F E (Option (OrderInfo F))
  poll_until zero deadline symbol id = raise exhausted
  poll_until (suc fuel) deadline symbol id =
      let rest = poll_round symbol id (poll_until fuel deadline symbol id) in
      ask h.now >>= λ t. if ltb_ℤ t deadline then rest else pure none

  -- `some info` is a fill, `none` is "not filled".
  unfoldable pub poll_order_fill :
      ℕ → (symbol client_order_id : String) → (timeout : ℤ) → Action F E (Option (OrderInfo F))
  poll_order_fill fuel symbol id timeout = do
    start ← ask h.now
    poll_until fuel (start +ℤ timeout) symbol id

  -- `_ = p.cancelOrderSafe(...)`: the error is ignored.
  unfoldable pub cancel_order_safe : (symbol client_order_id : String) → Action F E (Option String)
  cancel_order_safe symbol id = ask (h.cancel_order symbol id)
