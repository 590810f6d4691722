-- ===== src/Execution/Entry/Filled.antt =====
-- An entry whose first order is filled.
use mathlib.Core.Path.{subst}
use botbtc.Prelude.{ℕ, ℤ, ◌≡◌, refl, sym, ap, Option, some, String}
use botbtc.Float.{Float64, zero_f}
use botbtc.Config.{Config}
use botbtc.Model.{Signal}
use botbtc.Orders.{Creation, created, create_order}
use botbtc.Gate.{ValidationResult}
use botbtc.Bingx.{PlaceOrderRequest, PlaceOrderResponse, OrderInfo, tif_post_only}
use botbtc.Execution.State.{Host, World, Answer, answered, Result, ok, err, ◌>>=◌, duration_of_ms}
use botbtc.Execution.Poll.{poll_order_fill}
use botbtc.Execution.Entry.{
  Entry, entry_request, creation_outcome, create, probe_outcome, probe_answer, after_create,
  execute_entry,
}

module _ {F E : Type 0} ⦃fl : Float64 F⦄ (h : Host F E) (cfg : Config F) (fuel : ℕ)
    (signal : Signal F) (price qty : F) (key : String) (response : PlaceOrderResponse)
    (info : OrderInfo F) where
  -- The end of such an entry, after polling that left the outside in a state: the clock is read once more.
  abbrev pub IsEntered : E → Result F (Entry F) × World F E → Type 0
  IsEntered env done =
      (done.0
        ≡ ok (record { response = response; order_key = key; avg_fill_price = info.avg_price }))
      × (done.1.env ≡ (h.now env).1)

  -- Polling for the probe finds it filled.
  abbrev pub IsPolled : E → E → Type 0
  IsPolled env env' =
      (w : World F E)
      → w.env ≡ env
      → let polled =
          poll_order_fill h fuel signal.symbol key
            (duration_of_ms cfg.orders.maker_probe_timeout_ms) w in
        (polled.0 ≡ ok (some info)) × (polled.1.env ≡ env')

  polled-IsEntered :
      (entry_start : ℤ) (env : E) (result : Result F (Option (OrderInfo F))) (w : World F E)
      → result ≡ ok (some info)
      → w.env ≡ env
      → IsEntered env (elim result as (λ _. Result F (Entry F) × World F E) [
        | ok fill ↦ probe_outcome h cfg fuel entry_start signal qty key response fill w
        | err e ↦ (err e, w)
      ])
  unfolding probe_outcome
  polled-IsEntered entry_start env result w e same =
      subst
        (λ (r : Result F (Option (OrderInfo F))).
          IsEntered env (elim r as (λ _. Result F (Entry F) × World F E) [
            | ok fill ↦ probe_outcome h cfg fuel entry_start signal qty key response fill w
            | err why ↦ (err why, w)
          ]))
        (sym e) (refl, ap (λ e. (h.now e).1) same)

  placed-IsEntered :
      (entry_start : ℤ) (env : E) (answer : Answer PlaceOrderResponse) (w : World F E)
      → answer ≡ answered response
      → IsPolled (h.now w.env).1 env
      → IsEntered env (probe_answer h cfg fuel entry_start signal qty key answer w)
  unfolding probe_answer
  placed-IsEntered entry_start env answer w e polls =
      subst (λ a. IsEntered env (probe_answer h cfg fuel entry_start signal qty key a w)) (sym e)
        (let polled = polls _ refl in polled-IsEntered entry_start env _ _ polled.0 polled.1)

  -- The probe.
  abbrev pub probe : PlaceOrderRequest F
  probe = entry_request h cfg fuel signal tif_post_only price qty key

  created-IsEntered :
      (entry_start : ℤ) (env : E) (creation : Creation) (w : World F E)
      → creation ≡ created key
      → let asked = h.place_order probe (h.now w.env).1 in
        (asked.0 ≡ answered response)
        → IsPolled (h.now asked.1).1 env
        → IsEntered env (
            (creation_outcome h cfg fuel creation
                >>= after_create h cfg fuel entry_start signal price qty)
              w)
  unfolding after_create creation_outcome
  created-IsEntered entry_start env creation w e placed polls =
      subst
        (λ c. IsEntered env (
          (creation_outcome h cfg fuel c >>= after_create h cfg fuel entry_start signal price qty)
            w))
        (sym e) (placed-IsEntered entry_start env _ _ placed polls)

-- An entry whose id is new, and whose probe is answered and then found filled, ends with that fill.
pub execute_entry-filled :
    {F E : Type 0} ⦃fl : Float64 F⦄ (h : Host F E) (cfg : Config F) (fuel : ℕ) (signal : Signal F)
    (validation : ValidationResult F) (qty : F) (key : String) (response : PlaceOrderResponse)
    (info : OrderInfo F) (env : E) (w : World F E)
    → let price = validation.suggested_entry in
      let started = h.now w.env in
      let dated = h.now started.1 in
      let timed = h.now dated.1 in
      let asked =
        h.place_order (probe h cfg fuel signal price qty key response info) (h.now timed.1).1 in
      ((create_order h.two_digits
          (h.compact_date dated.0)
          zero_f
          timed.0
          signal
          "entry"
          price
          qty
          w.orders).1
        ≡ created key)
      → (asked.0 ≡ answered response)
      → IsPolled h cfg fuel signal price qty key response info (h.now asked.1).1 env
      → IsEntered h cfg fuel signal price qty key response info env
          (execute_entry h cfg fuel signal validation qty w)
unfolding execute_entry create
execute_entry-filled h cfg fuel signal validation qty key response info env w new_id placed polls =
    created-IsEntered h cfg fuel signal validation.suggested_entry qty key response info
      (h.now w.env).0 env _ _ new_id placed polls
