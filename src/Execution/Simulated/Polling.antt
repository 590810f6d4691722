-- ===== src/Execution/Simulated/Polling.antt =====
-- Polling for an order that the paper client has filled.
use botbtc.Prelude.{ℕ, suc, ℤ, ◌+ℤ◌, ltb_ℤ, ◌≡◌, refl, true, false, some, String, str_eq}
use botbtc.Float.{Float64}
use botbtc.Bingx.{OrderInfo}
use botbtc.Bingx.Paper.{PaperClient, get_order}
use botbtc.Execution.State.{World, ok}
use botbtc.Execution.Poll.{poll_order_fill, poll_until, poll_round, after_answer}
use botbtc.Execution.Live.{Outside}
use botbtc.Execution.Simulated.{paper_host}

-- The context is never done, and two readings of the clock in a row are closer than the timeout.
pub record IsCalm {F E : Type 0} (out : Outside F E) (timeout : ℤ) : Type 0 where
  pub goes_on : (e : E) → (out.is_done e).0 ≡ false
  pub soon : (e : E) → ltb_ℤ (out.now (out.now e).1).0 ((out.now e).0 +ℤ timeout) ≡ true

pub poll-fills :
    {F E : Type 0} ⦃fl : Float64 F⦄ (out : Outside F E) (decimal : ℤ → String) (timeout : ℤ)
    → IsCalm out timeout
    → (fuel : ℕ) (symbol id : String) (info : OrderInfo F) (w : World F (PaperClient F × E))
    → get_order id w.env.0 ≡ some info
    → str_eq info.status "FILLED" ≡ true
    → let e = (out.is_done (out.now (out.now w.env.1).1).1).1 in
      poll_order_fill (paper_host out decimal) (suc fuel) symbol id timeout w
      ≡ (ok (some info), record w { env = (w.env.0, e) })
unfolding poll_order_fill poll_until poll_round after_answer paper_host
poll-fills out decimal timeout calm fuel symbol id info w found filled =
    rw (poll_order_fill, poll_until, calm.soon w.env.1, calm.goes_on _, found, filled) refl
