-- ===== src/Execution/Poll/Termination.antt =====
-- `pollOrderFill` ends: the clock never runs back, and every round that goes on sleeps.
use botbtc.Prelude.{
  ℕ, ◌≤◌, zero, suc, ◌*◌, ℤ, pos, ◌+ℤ◌, int_laws, not-ltb_ℤ_of_le, ltb_ℤ, ◌≤ℤ◌, ◌≡◌, ◌≢◌,
  Bool-cases, inl, inr, false, Option, String, arith,
}
use botbtc.Bingx.{OrderInfo}
use botbtc.Execution.State.{Host, World, Answer, answered, failed, err, exhausted, Action}
use botbtc.Execution.Poll.{poll_interval, after_answer, poll_round, poll_until, poll_order_fill}

-- The clock of the outside world, which time.Now reads: no call turns it back, and time.Sleep pauses
-- for at least its duration.
pub record IsClocked {F E : Type 0} (h : Host F E) (time : E → ℤ) : Type 0 where
  pub now_reads : (e : E) → (h.now e).0 ≡ time e
  pub now_later : (e : E) → time e ≤ℤ time (h.now e).1
  pub is_done_later : (e : E) → time e ≤ℤ time (h.is_done e).1
  pub get_order_later : (symbol id : String) (e : E) → time e ≤ℤ time (h.get_order symbol id e).1
  pub sleep_waits : (n : ℕ) (e : E) → time e +ℤ pos n ≤ℤ time (h.sleep (pos n) e)

module _ {F E : Type 0} (h : Host F E) (time : E → ℤ) (clock : IsClocked h time) where
  -- A continuation that ends whenever it starts an interval or more after `since`.
  abbrev EndsAfter : ℤ → Action F E (Option (OrderInfo F)) → Type 0
  EndsAfter since rest =
      (w : World F E) → since +ℤ poll_interval ≤ℤ time w.env → (rest w).0 ≢ err exhausted

  after_answer-ends :
      (since : ℤ) (rest : Action F E (Option (OrderInfo F))) (answer : Answer (OrderInfo F))
      (w : World F E)
      → EndsAfter since rest
      → since ≤ℤ time w.env
      → (after_answer h rest answer w).0 ≢ err exhausted
  unfolding after_answer
  after_answer-ends since rest (failed why) w ends later =
      ends (record w { env = h.sleep poll_interval w.env })
        (omega (int_laws, clock.sleep_waits 20_000_000 w.env))
  after_answer-ends since rest (answered info) w ends later =
      let slept =
        ends (record w { env = h.sleep poll_interval w.env })
          (omega (int_laws, clock.sleep_waits 20_000_000 w.env)) in
      ground (arith, slept)

  poll_round-ends :
      (since : ℤ) (symbol id : String) (rest : Action F E (Option (OrderInfo F))) (w : World F E)
      → EndsAfter since rest
      → since ≤ℤ time w.env
      → (poll_round h symbol id rest w).0 ≢ err exhausted
  unfolding poll_round
  poll_round-ends since symbol id rest w ends later =
      let e = (h.is_done w.env).1 in
      let e' = (h.get_order symbol id e).1 in
      let answer = (h.get_order symbol id e).0 in
      let go =
        after_answer-ends since rest answer (record w { env = e' }) ends
          (omega (arith, clock.is_done_later w.env, clock.get_order_later symbol id e)) in
      ground (arith, go)

  poll_until-ends :
      (fuel : ℕ) (deadline : ℤ) (symbol id : String) (w : World F E)
      → deadline ≤ℤ time w.env +ℤ pos (20_000_000 * fuel)
      → (poll_until h (suc fuel) deadline symbol id w).0 ≢ err exhausted
  unfolding poll_until
  poll_until-ends zero deadline symbol id w near =
      let past : ltb_ℤ (h.now w.env).0 deadline ≡ false =
        rw clock.now_reads (not-ltb_ℤ_of_le (time w.env) deadline (omega int_laws)) in
      rw past (λ q. cc)
  poll_until-ends (suc fuel) deadline symbol id w near =
      let since = time w.env in
      let rest = poll_until h (suc fuel) deadline symbol id in
      let ends : EndsAfter since rest =
        λ v later. poll_until-ends fuel deadline symbol id v (omega int_laws) in
      let go =
        poll_round-ends since symbol id rest (record w { env = (h.now w.env).1 }) ends
          (clock.now_later w.env) in
      elim (Bool-cases (ltb_ℤ (h.now w.env).0 deadline)) [
        | inl ahead ↦ rw ahead go
        | inr past ↦ rw past (λ q. cc)
      ]

  -- Polling ends with a fill, without one, or with the context's end, but never for want of fuel, if
  -- the fuel is more rounds than the timeout holds intervals.
  pub poll_order_fill-ends :
      (fuel timeout : ℕ) (symbol id : String) (w : World F E)
      → timeout ≤ 20_000_000 * fuel
      → (poll_order_fill h (suc fuel) symbol id (pos timeout) w).0 ≢ err exhausted
  unfolding poll_order_fill
  poll_order_fill-ends fuel timeout symbol id w enough =
      poll_until-ends fuel ((h.now w.env).0 +ℤ pos timeout) symbol id
        (record w { env = (h.now w.env).1 })
        (rw clock.now_reads (omega (int_laws, clock.now_later w.env)))
