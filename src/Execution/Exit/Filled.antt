-- ===== src/Execution/Exit/Filled.antt =====
-- An exit whose first order is filled.
use mathlib.Core.Path.{subst}
use botbtc.Prelude.{ℕ, pos, ◌≡◌, refl, sym, false, Option, none, some}
use botbtc.Float.{Float64}
use botbtc.Config.{Config}
use botbtc.Risk.{set_position_open}
use botbtc.Bingx.{PlaceOrderResponse, OrderInfo, BookTicker}
use botbtc.Execution.State.{ActivePosition, Host, World, Answer, answered, Result, ok, err}
use botbtc.Execution.Poll.{poll_order_fill}
use botbtc.Execution.Exit.{
  ExitReason, exit_request, exit_price_of, exit_id_of, settle, finish, exit_answer, exit_book,
  close_position, execute_exit,
}

module _ {F E : Type 0} ⦃fl : Float64 F⦄ (h : Host F E) (cfg : Config F) (fuel : ℕ)
    (p : ActivePosition F) (book : BookTicker F) (response : PlaceOrderResponse)
    (info : OrderInfo F) where
  -- The end of such an exit, after what the polling left.
  abbrev pub IsSettled : World F E → Result F (Unit {0}) × World F E → Type 0
  IsSettled polled done =
      (done.0 ≡ ok tt)
      × (done.1.active_pos ≡ none)
      × (done.1.risk.has_open_position ≡ false)
      × (done.1.env ≡ (h.now (h.now polled.env).1).1)

  settled : (w : World F E) → IsSettled w (finish h cfg fuel p book (some info) w)
  unfolding finish settle set_position_open
  settled w = (refl, refl, refl, refl)

  polled-settled :
      (polled : World F E) (result : Result F (Option (OrderInfo F)) × World F E)
      → result ≡ (ok (some info), polled)
      → IsSettled polled (elim result.0 as (λ _. Result F (Unit {0}) × World F E) [
        | ok fill ↦ finish h cfg fuel p book fill result.1
        | err e ↦ (err e, result.1)
      ])
  polled-settled polled result e =
      subst
        (λ (r : Result F (Option (OrderInfo F)) × World F E).
          IsSettled polled (elim r.0 as (λ _. Result F (Unit {0}) × World F E) [
            | ok fill ↦ finish h cfg fuel p book fill r.1
            | err e ↦ (err e, r.1)
          ]))
        (sym e) (settled polled)

  answered-settled :
      (w polled : World F E) (answer : Answer PlaceOrderResponse)
      → answer ≡ answered response
      → poll_order_fill h fuel cfg.bingx.symbol (exit_id_of h cfg fuel p) (pos 5_000_000_000) w
        ≡ (ok (some info), polled)
      → IsSettled polled (exit_answer h cfg fuel p book answer w)
  unfolding exit_answer
  answered-settled w polled answer e polling =
      subst (λ a. IsSettled polled (exit_answer h cfg fuel p book a w)) (sym e)
        (polled-settled polled _ polling)

  seen-settled :
      (w polled : World F E) (found : Option (BookTicker F))
      → found ≡ some book
      → let asked =
          h.place_order
            (exit_request h cfg fuel p (exit_price_of h cfg fuel p book) (exit_id_of h cfg fuel p))
            w.env in
        (asked.0 ≡ answered response)
        → (poll_order_fill h fuel cfg.bingx.symbol
              (exit_id_of h cfg fuel p)
              (pos 5_000_000_000)
              (record w { env = asked.1 })
            ≡ (ok (some info), polled))
        → IsSettled polled (exit_book h cfg fuel p found w)
  unfolding exit_book
  seen-settled w polled found e placed polling =
      subst (λ b. IsSettled polled (exit_book h cfg fuel p b w)) (sym e)
        (answered-settled _ polled _ placed polling)

  -- An exit whose order is answered and then found filled ends well, with nothing held, after the two
  -- readings of the clock that follow the polling.
  pub execute_exit-filled :
      (reason : ExitReason F) (w polled : World F E)
      → w.active_pos ≡ some p
      → let seen = h.latest_book w.env in
        let asked =
          h.place_order
            (exit_request h cfg fuel p (exit_price_of h cfg fuel p book) (exit_id_of h cfg fuel p))
            seen.1 in
        (seen.0 ≡ some book)
        → (asked.0 ≡ answered response)
        → (poll_order_fill h fuel cfg.bingx.symbol
              (exit_id_of h cfg fuel p)
              (pos 5_000_000_000)
              (record w { env = asked.1 })
            ≡ (ok (some info), polled))
        → IsSettled polled (execute_exit h cfg fuel reason w)
  unfolding execute_exit close_position
  execute_exit-filled reason w polled held found placed polling =
      subst (λ o. IsSettled polled (close_position h cfg fuel o w)) (sym held)
        (seen-settled (record w { env = (h.latest_book w.env).1 }) polled _ found placed polling)
