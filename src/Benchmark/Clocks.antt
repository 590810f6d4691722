-- ===== src/Benchmark/Clocks.antt =====
-- The measured difference of the clocks and the real one.
use botbtc.Prelude.{
  ℕ, zero, suc, ◌+◌, ◌/◌, ◌≤◌, ◌<◌, ◌^◌, ℤ, pos, negsuc, ◌-ℤ◌, add64, sub64, ltb_ℤ, ◌≡◌, ◌⊎◌, true,
  false, refl, ap, sym, arith, inl, inr, not, Option, none, some, List, [], ◌∷◌, length, All, Bool,
  if◌then◌else◌,
}
use botbtc.Bingx.Live.{half, time_delta}
use botbtc.Bingx.Live.Clock.{time_delta_exact, IsWithin}
use botbtc.Benchmark.{
  abs64, Probe, ping_server_time, measure_rounds, average, report_delta, measure_clock_delta,
}
use botbtc.Benchmark.Average.{IsSmall, IsBetween, average-IsBetween}

-- The local clock never runs back and stays below 2^59 ms, a request takes at most `trip` ms from the
-- reading before it, and the time that the server gives is its clock's at a moment of the request, at which
-- the local clock is ahead of it by `offset`.
pub record IsOffset {E Bytes : Type 0} (probe : Probe E Bytes) (offset : ℤ) (trip : ℕ)
    : Type 0 where
  pub clock : E → ℕ
  pub below : (e : E) → clock e < 2 ^ 59
  pub reads : (e : E) → (probe.now_ms e).0 ≡ pos (clock e)
  pub forward : (e : E) → clock e ≤ clock (probe.now_ms e).1
  pub lasts : (e : E) → clock (ping_server_time probe (probe.now_ms e).1).1 ≤ clock e + trip
  pub moment : E → ℕ
  pub since : (e : E) → clock e ≤ moment e
  pub until : (e : E) → moment e ≤ clock (ping_server_time probe e).1
  pub answers :
      (e : E) (t : ℕ)
      → (ping_server_time probe e).0 ≡ pos t
      → 0 < t
      → (t < 2 ^ 59) × (pos (moment e) -ℤ pos t ≡ offset)

reported-none : report_delta [] ≡ none
unfolding report_delta
reported-none = refl

reported :
    (deltas : List ℤ) (avg : ℤ)
    → average deltas ≡ some avg
    → report_delta deltas ≡ some (avg, not (ltb_ℤ (abs64 avg) (pos 50)))
unfolding report_delta
reported deltas avg e =
    let judge : Option ℤ → Option (ℤ × Bool) =
      λ o. elim o [ none ↦ none | some a ↦ some (a, not (ltb_ℤ (abs64 a) (pos 50))) ] in
    ap judge e

module _ {E Bytes : Type 0} (probe : Probe E Bytes) (offset : ℤ) (trip : ℕ)
    (o : IsOffset probe offset trip) where
  abbrev lo : ℤ
  lo = offset -ℤ pos (trip / 2)

  abbrev hi : ℤ
  hi = offset -ℤ (pos 0 -ℤ pos ((trip + 1) / 2))

  -- One difference, with the readings of the local clock and the server's.
  sampled :
      (before at after server : ℕ)
      → before ≤ at
      → at ≤ after
      → after ≤ before + trip
      → after < 2 ^ 59
      → server < 2 ^ 59
      → pos at -ℤ pos server ≡ offset
      → IsBetween lo hi (time_delta (pos before) (pos server) (pos after))
  unfolding ◌-ℤ◌
  sampled before at after server h1 h2 h3 h4 h5 h6 =
      let exact =
        time_delta_exact before server after (omega (arith, h1, h2)) (omega (arith, h4))
          (omega (arith, h5)) in
      rw exact (rw (sym h6) (ground arith, ground arith))

  -- The difference of one round, as the code computes it.
  abbrev delta_of : (before server after : ℤ) → ℤ
  delta_of before server after = sub64 after (add64 server (half (sub64 after before)))

  add_sample :
      (b : Bool) (delta : ℤ) (deltas : List ℤ) (n : ℕ)
      → (b ≡ true → IsBetween lo hi delta)
      → All (IsBetween lo hi) deltas × (length deltas ≤ n)
      → let all = if b then delta ∷ deltas else deltas in
        All (IsBetween lo hi) all × (length all ≤ suc n)
  add_sample true delta deltas n h (all, few) = ((h refl, all), omega (arith, few))
  add_sample false delta deltas n h (all, few) = (all, omega (arith, few))

  round :
      (e : E) (server : ℤ)
      → (ping_server_time probe (probe.now_ms e).1).0 ≡ server
      → ltb_ℤ (pos 0) server ≡ true
      → let e2 = (ping_server_time probe (probe.now_ms e).1).1 in
        IsBetween lo hi (delta_of (probe.now_ms e).0 server (probe.now_ms e2).0)
  unfolding time_delta
  round e (negsuc t) same positive = absurd (grind (arith, positive))
  round e (pos t) same positive =
      let e1 = (probe.now_ms e).1 in
      let e2 = (ping_server_time probe e1).1 in
      let (server_small, ahead) = o.answers e1 t same (grind (arith, positive)) in
      let forward = o.forward e in
      let since = o.since e1 in
      rw (o.reads e, o.reads e2)
        (sampled (o.clock e) (o.moment e1) (o.clock e2) t (omega (arith, forward, since))
          (o.until e1) (o.lasts e) (o.below e2) server_small ahead)

  rounds :
      (n : ℕ) (e : E)
      → All (IsBetween lo hi) (measure_rounds probe n e).0
        × (length (measure_rounds probe n e).0 ≤ n)
  unfolding measure_rounds
  rounds zero e = (tt, omega arith)
  rounds (suc n) e = add_sample _ _ _ n (round e _ refl) (rounds n _)

  near : (avg : ℤ) → IsBetween lo hi avg → IsWithin (avg -ℤ offset) trip
  unfolding ◌-ℤ◌
  near avg (above, under) = (ground arith, ground arith)

  report-near :
      (deltas : List ℤ)
      → IsSmall lo
      → IsSmall hi
      → length deltas ≤ 10
      → All (IsBetween lo hi) deltas
      → ((deltas ≡ []) × (report_delta deltas ≡ none))
        ⊎ ((avg : ℤ) × (report_delta deltas ≡ some (avg, not (ltb_ℤ (abs64 avg) (pos 50))))
            × IsWithin (avg -ℤ offset) trip)
  report-near [] s s' few all = inl (refl, reported-none)
  report-near (d ∷ deltas) s s' few all =
      let (avg, (e, between)) = average-IsBetween lo hi s s' d deltas few all in
      inr (avg, reported (d ∷ deltas) avg e, near avg between)

  -- If the local clock is ahead of the server's by `offset` whenever the server reads its own, does not run
  -- back, stays below 2^59 ms, and no request lasts longer than `trip` ms, then the average that
  -- measureClockDelta prints is at most half of `trip`, rounded up, off the offset, and is called a drift
  -- from 50 ms on; a failure is reported only when none of its rounds gave a difference.
  pub measure_clock_delta_lem :
      (e : E)
      → IsSmall (offset -ℤ pos (trip / 2))
      → IsSmall (offset -ℤ (pos 0 -ℤ pos ((trip + 1) / 2)))
      → let (measured, e') = measure_clock_delta probe e in
        (((measure_rounds probe 10 e).0 ≡ []) × (measured ≡ none))
        ⊎ ((avg : ℤ) × (measured ≡ some (avg, not (ltb_ℤ (abs64 avg) (pos 50))))
            × IsWithin (avg -ℤ offset) trip)
  unfolding measure_clock_delta
  measure_clock_delta_lem e lo_small hi_small =
      let (all, few) = rounds 10 e in
      report-near (measure_rounds probe 10 e).0 lo_small hi_small few all
