-- ===== src/Execution/Monitor/Watching.antt =====
-- What the monitor does to the records of the position.
use botbtc.Prelude.{
  ℕ, zero, suc, ◌-◌, ℤ, ◌≡◌, refl, sym, ◌∙◌, ap, Bool, true, false, Option, none, some,
  if◌then◌else◌,
}
use botbtc.Float.{Float64}
use botbtc.Config.{Config}
use botbtc.Bingx.{PlaceOrderRequest, BookTicker}
use botbtc.Risk.{is_kill_switch_active}
use botbtc.Execution.State.{
  ActivePosition, Host, World, Result, ok, err, Action, pure, ◌>>=◌, ◌>>◌, set_active, get_active,
  time_sub,
}
use botbtc.Execution.Frames.{IsQuiet, keeps_rules, Keeps-now, Keeps-latest_book, Keeps-get_risk}
use botbtc.Execution.Outcomes.{IsFramed, Leads, Leads-bind, Leads-if}
use botbtc.Execution.Exit.{ExitReason, pnl_at}
use botbtc.Execution.Coherence.{
  IsCoherent, has_active-some, has_active-same, execute_exit-IsCoherent,
}
use botbtc.Execution.Process.{has_active_position}
use botbtc.Execution.Monitor.{
  Progress, Round, continue, return, exit_side_price, track_best, first_checks, leave, trail,
  check_progress, check_times, trailing_outcome, check_trailing, first_outcome, tracked, watch,
  with_position, monitor_round, monitor_from, monitor_position,
}

module _ {F E : Type 0} ⦃fl : Float64 F⦄ (h : Host F E) (cfg : Config F) (fuel : ℕ) where
  abbrev Safe : PlaceOrderRequest F → Type 0
  Safe _ = Unit

  -- A position is open, and recorded in both places.
  record IsOpen (w : World F E) : Type 0 where
    held : has_active_position w ≡ true
    counted : w.risk.has_open_position ≡ true

  IsOpen-IsCoherent : {w : World F E} → IsOpen w → IsCoherent w
  IsOpen-IsCoherent o = o.held ∙ sym o.counted

  IsOpen-quiet : {u v : World F E} → IsQuiet h Safe u v → IsOpen u → IsOpen v
  IsOpen-quiet {u} {v} q o = record {
    held = has_active-same u v q.same_pos ∙ o.held;
    counted = ap (λ e. e.has_open_position) q.same_risk ∙ o.counted;
  }

  abbrev Done : World F E → Result F (Round F) → World F E → Type 0
  Done u r v = IsOpen u → IsCoherent v

  Done-IsFramed : IsFramed h Safe Done
  Done-IsFramed = record {
    before = λ q d o. d (IsOpen-quiet q o);
    quit = λ e q o. IsOpen-IsCoherent (IsOpen-quiet q o);
  }

  Leads-set :
      (p : ActivePosition F) {m : Action F E (Round F)}
      → Leads Done m
      → Leads Done (set_active (some p) >> m)
  unfolding has_active_position
  Leads-set p k = record { at = λ w o. k.at _ (record { held = refl; counted = o.counted }) }

  Leads-pure : (r : Round F) → Leads Done (pure r)
  Leads-pure r = record { at = λ w o. IsOpen-IsCoherent o }

  leave-Leads : (reason : ExitReason F) → Leads Done (leave h cfg fuel reason)
  unfolding leave
  leave-Leads reason = record {
    at = λ w o. execute_exit-IsCoherent h cfg fuel reason w (IsOpen-IsCoherent o);
  }

  ruleset leads_rules = (Done-IsFramed, Leads-bind, Leads-if, Leads-pure, leave-Leads)

  check_progress-Leads :
      (pnl : F) (p : ActivePosition F) (progress : Progress F)
      → Leads Done (check_progress h cfg fuel pnl p progress)
  unfolding check_progress
  check_progress-Leads pnl p progress = search (leads_rules, keeps_rules) depth 12

  check_times-Leads :
      (elapsed : ℤ) (pnl : F) (p : ActivePosition F) (progress : Progress F)
      → Leads Done (check_times h cfg fuel elapsed pnl p progress)
  unfolding check_times
  check_times-Leads elapsed pnl p progress = search (leads_rules, check_progress-Leads)

  trailing_outcome-Leads :
      (elapsed : ℤ) (pnl : F) (p : ActivePosition F) (progress : Progress F)
      (reason : Option (ExitReason F))
      → Leads Done (trailing_outcome h cfg fuel elapsed pnl p progress reason)
  unfolding trailing_outcome
  trailing_outcome-Leads elapsed pnl p progress (some why) = leave-Leads why
  trailing_outcome-Leads elapsed pnl p progress none = check_times-Leads elapsed pnl p progress

  check_trailing-Leads :
      (elapsed : ℤ) (price pnl : F) (p : ActivePosition F) (progress : Progress F)
      → Leads Done (check_trailing h cfg fuel elapsed price pnl p progress)
  unfolding check_trailing
  check_trailing-Leads elapsed price pnl p progress =
      let (p', reason) = trail h cfg fuel price p in
      Leads-set p' (trailing_outcome-Leads elapsed pnl p' progress reason)

  first_outcome-Leads :
      (elapsed : ℤ) (price pnl : F) (p : ActivePosition F) (progress : Progress F)
      (reason : Option (ExitReason F))
      → Leads Done (first_outcome h cfg fuel elapsed price pnl p progress reason)
  unfolding first_outcome
  first_outcome-Leads elapsed price pnl p progress (some reason) = leave-Leads reason
  first_outcome-Leads elapsed price pnl p progress none =
      check_trailing-Leads elapsed price pnl p progress

  tracked-Leads :
      (price pnl : F) (p : ActivePosition F) (progress : Progress F)
      → Leads Done (tracked h cfg fuel price pnl p progress)
  unfolding tracked
  tracked-Leads price pnl p progress = Leads-bind Done-IsFramed Keeps-now λ t.
      Leads-bind Done-IsFramed (Keeps-get_risk is_kill_switch_active) λ killed.
        first_outcome-Leads (time_sub t p.entry_time) price pnl p progress
          (first_checks killed price p)

  watch-Leads :
      (p : ActivePosition F) (progress : Progress F) (book : Option (BookTicker F))
      → Leads Done (watch h cfg fuel p progress book)
  unfolding watch
  watch-Leads p progress none = Leads-pure (continue progress)
  watch-Leads p progress (some book) =
      let price = exit_side_price p book in
      let pnl = pnl_at p price in
      let p' = track_best pnl p in Leads-set p' (tracked-Leads price pnl p' progress)

  with_some-Leads :
      (p : ActivePosition F) (progress : Progress F)
      → Leads Done (with_position h cfg fuel progress (some p))
  unfolding with_position
  with_some-Leads p progress = Leads-bind Done-IsFramed Keeps-latest_book (watch-Leads p progress)

  position-IsCoherent :
      (progress : Progress F) (w : World F E) (position : Option (ActivePosition F))
      → w.active_pos ≡ position
      → IsCoherent w
      → IsCoherent (with_position h cfg fuel progress position w).1
  unfolding with_position
  position-IsCoherent progress w none e coherent = coherent
  position-IsCoherent progress w (some p) e coherent =
      let held = has_active-some w p e in
      (with_some-Leads p progress).at w (record { held = held; counted = sym coherent ∙ held })

  -- One round of the monitor.
  pub monitor_round-IsCoherent :
      (progress : Progress F) (w : World F E)
      → IsCoherent w
      → IsCoherent (monitor_round h cfg fuel progress w).1
  unfolding monitor_round has_active_position
  monitor_round-IsCoherent progress w coherent = of (h.is_done w.env)
    where
      of :
          (answer : Bool × E)
          → IsCoherent
              ((if answer.0
                  then pure return
                  else (get_active >>= with_position h cfg fuel progress))
                (record w { env = answer.1 })).1
      of (true, e) = coherent
      of (false, e) = position-IsCoherent progress (record w { env = e }) w.active_pos refl coherent

  rounds-IsCoherent :
      (rounds : ℕ) (progress : Progress F) (w : World F E)
      → IsCoherent w
      → IsCoherent (monitor_from h cfg fuel rounds progress w).1
  unfolding monitor_from has_active_position
  rounds-IsCoherent zero progress w coherent = coherent
  rounds-IsCoherent (suc rounds) progress w coherent =
      of (monitor_round h cfg fuel progress w) (monitor_round-IsCoherent progress w coherent)
        (λ progress' w'. rounds-IsCoherent rounds progress' w')
    where
      of :
          (done : Result F (Round F) × World F E)
          → IsCoherent done.1
          → ((progress' : Progress F) (w' : World F E)
              → IsCoherent w'
              → IsCoherent (monitor_from h cfg fuel rounds progress' w').1)
          → IsCoherent
              (((λ _. done) >>= λ round. elim round as (λ _. Action F E (Round F)) [
                | return ↦ (λ w. (ok return, record w { monitors = w.monitors - 1 }))
                | continue progress' ↦ monitor_from h cfg fuel rounds progress'
              ])
                w).1
      of (ok return, w') c go_on = c
      of (ok (continue progress'), w') c go_on = go_on progress' w' c
      of (err e, w') c go_on = c

  -- The monitor, however long it runs, keeps pipeline and risk engine in agreement.
  monitor_position-IsCoherent :
      (rounds : ℕ) (w : World F E)
      → IsCoherent w
      → IsCoherent (monitor_position h cfg fuel rounds w).1
  unfolding monitor_position has_active_position
  monitor_position-IsCoherent rounds w coherent = rounds-IsCoherent rounds _ _ coherent
