-- ===== src/Bingx/Feeds/Freshness.antt =====
-- The gate's check of the book's age, on books of the WebSocket client.
use botbtc.Prelude.{
  ℤ, ◌-ℤ◌, sub64, sub64_exact, ltb_ℤ, IsInt64, ◌≤ℤ◌, ◌≡◌, ◌≢◌, sym, ap, arith, Option, none, some,
  false,
}
use botbtc.Float.{Float64}
use botbtc.Config.{LatencyConfig, OrdersConfig}
use botbtc.Model.{Signal}
use botbtc.Bingx.{BookTicker}
use botbtc.Gate.{stale_book, validate}
use botbtc.Bingx.Feeds.{Feed, ws_book}

module _ {F : Type 0} ⦃fl : Float64 F⦄ (cfg : LatencyConfig) (orders_cfg : OrdersConfig F) where
  fresh_enough :
      (signal : Signal F) (book : BookTicker F) (now_ms age max_age : ℤ)
      → ltb_ℤ cfg.max_signal_age_ms (sub64 now_ms book.timestamp) ≡ false
      → (validate cfg orders_cfg signal book now_ms).reject_reason ≢ some (stale_book age max_age)
  unfolding validate
  fresh_enough signal book now_ms age max_age h = grind (arith, h)

  ws_book-now :
      (w : Feed F) (book : BookTicker F) (asked : ℤ)
      → ws_book asked w ≡ some book
      → book.timestamp ≡ asked
  unfolding ws_book
  ws_book-now w book asked h = go w.latest_book h
    where
      go :
          (latest : Option (BookTicker F))
          → elim latest [ none ↦ none | some bt ↦ some (record bt { timestamp = asked }) ]
            ≡ some book
          → book.timestamp ≡ asked
      go none e = grind (arith, e)
      go (some bt) e = sym (ap (λ o. elim o [ none ↦ asked | some b ↦ b.timestamp ]) e)

  -- A book of the WebSocket client is never refused as stale if it was asked for at most the limit ago,
  -- however long ago the last tick came.
  pub ws_book-not-stale :
      (signal : Signal F) (w : Feed F) (book : BookTicker F) (asked now_ms age max_age : ℤ)
      → ws_book asked w ≡ some book
      → IsInt64 (now_ms -ℤ asked)
      → now_ms -ℤ asked ≤ℤ cfg.max_signal_age_ms
      → (validate cfg orders_cfg signal book now_ms).reject_reason ≢ some (stale_book age max_age)
  ws_book-not-stale signal w book asked now_ms age max_age is_book small recent =
      fresh_enough signal book now_ms age max_age (
        rw (ws_book-now w book asked is_book, sub64_exact now_ms asked small)
          (ground (arith, recent)))
