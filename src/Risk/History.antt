-- ===== src/Risk/History.antt =====
-- The risk engine's counters against the day's history of results.
use botbtc.Prelude.{
  ℕ, suc, ◌+◌, ◌<◌, ◌^◌, pos, inc64_exact, leb_ℤ, ltb, ◌≡◌, not, ◌&&◌, List, [], ◌∷◌, length,
  String, arith, eq_iff, if◌then◌else◌,
}
use botbtc.Config.{RiskConfig}
use botbtc.Risk.{Engine, reset_daily, maybe_reset_daily, record_stop_loss, record_win}

pub data Outcome : Type 0 where
  loss win : Outcome

-- Losses since the last win; the newest result stands first.
abbrev pub streak : List Outcome → ℕ
streak [] = 0
streak (loss ∷ os) = suc (streak os)
streak (win ∷ os) = 0

abbrev pub losses : List Outcome → ℕ
losses [] = 0
losses (loss ∷ os) = suc (losses os)
losses (win ∷ os) = losses os

streak-le-losses : (os : List Outcome) → streak os < suc (losses os)
streak-le-losses [] = omega arith
streak-le-losses (loss ∷ os) = omega (arith, streak-le-losses os)
streak-le-losses (win ∷ os) = omega arith

losses-le-length : (os : List Outcome) → losses os < suc (length os)
losses-le-length [] = omega arith
losses-le-length (loss ∷ os) = omega (arith, losses-le-length os)
losses-le-length (win ∷ os) = omega (arith, losses-le-length os)

module _ {F : Type 0} (today : String) where
  unfoldable pub replay : Engine F → List Outcome → Engine F
  replay e [] = reset_daily today e
  replay e (loss ∷ os) = record_stop_loss today (replay e os)
  replay e (win ∷ os) = record_win (replay e os)

  -- What the engine should say, from the history alone.
  pub record Summary (cfg : RiskConfig F) (os : List Outcome) (e : Engine F) : Type 0 where
    pub cfg_kept : e.cfg ≡ cfg
    pub dated : e.last_trade_date ≡ today
    pub counted : e.daily_stop_loss_count ≡ pos (losses os)
    pub in_row : e.consecutive_losses ≡ pos (streak os)
    pub risk : e.current_risk_percent ≡ (
        if ltb 0 (streak os) && leb_ℤ cfg.escalate_after_consecutive_losses (pos (streak os))
        then cfg.escalated_risk_percent
        else cfg.base_risk_percent)
    pub enabled :
        e.trading_enabled
        ≡ not (ltb 0 (losses os) && leb_ℤ cfg.max_daily_stop_losses (pos (losses os)))

  loss-Summary :
      (cfg : RiskConfig F) (os : List Outcome) (e : Engine F)
      → length os + 2 < 2 ^ 63
      → Summary cfg os e
      → Summary cfg (loss ∷ os) (record_stop_loss today e)
  unfolding record_stop_loss maybe_reset_daily
  loss-Summary cfg os e b s = ground (
    arith,
    eq_iff e.last_trade_date today,
    inc64_exact (losses os),
    inc64_exact (streak os),
    streak-le-losses os,
    losses-le-length os,
  )

  -- On one day, after any results (fewer than 2^63 - 2), the engine's counters are the number of
  -- losses and the losses since the last win; the risk is the escalated one exactly when there is
  -- such a loss and their number has reached the threshold; and trading is disabled exactly when
  -- there was a loss and their number has reached the limit.
  pub replay-Summary :
      (e : Engine F) (os : List Outcome) → length os + 2 < 2 ^ 63 → Summary e.cfg os (replay e os)
  unfolding replay reset_daily record_win
  replay-Summary e [] b = ground arith
  replay-Summary e (loss ∷ os) b =
      loss-Summary e.cfg os (replay e os) (omega arith) (replay-Summary e os (omega arith))
  replay-Summary e (win ∷ os) b = let s = replay-Summary e os (omega arith) in ground arith
