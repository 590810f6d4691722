-- ===== src/Benchmark/Report.antt =====
-- The tests of tools/latency_benchmark/main.go and what it prints of them. A number whose computing could
-- index out of range is an Option; `none` is the panic.
use botbtc.Prelude.{
  ℕ, zero, suc, ◌+◌, ℤ, pos, Bool, Option, none, some, List, [], ◌∷◌, length, ltb, String,
  if◌then◌else◌,
}
use botbtc.Float.{Float64}
use botbtc.Execution.State.{time_sub}
use botbtc.Benchmark.{
  total_requests, warmup_rounds, pause_between, server_time_url, book_ticker_url, Probe, Maths,
  quot, at_index, mean, stddev, jitters, percentile, assessment, ping_server_time,
  measure_clock_delta,
}

pub record Stats (F : Type 0) : Type 0 where
  pub minimum : Option F
  pub maximum : Option F
  pub avg : F
  pub p50 : Option F
  pub p75 : Option F
  pub p90 : Option F
  pub p95 : Option F
  pub p99 : Option F
  pub deviation : F

pub record Jitter (F : Type 0) : Type 0 where
  pub avg : F
  pub p50 : Option F
  pub p95 : Option F
  pub maximum : Option F

-- What `main` prints: of each test, the summary, and the assessment. `none` of the statistics, the clock's
-- difference and the jitter stands for too few data.
pub record Report (F : Type 0) : Type 0 where
  pub server_time_stats : Option (Stats F)
  pub book_ticker_stats : Option (Stats F)
  pub clock_delta : Option (ℤ × Bool)
  pub jitter : Option (Jitter F)
  pub server_time_summary : List (Option F)
  pub book_ticker_summary : List (Option F)
  pub conclusion : Option String

-- `s[len(s)-1]`
abbrev last_of : {A : Type 0} → List A → Option A
last_of [] = none
last_of (x ∷ []) = some x
last_of (x ∷ y ∷ xs) = last_of (y ∷ xs)

module _ {F : Type 0} ⦃fl : Float64 F⦄ (maths : Maths F) where
  -- `printStats`
  unfoldable pub print_stats : List F → Option (Stats F)
  unfolding mean percentile stddev
  print_stats [] = none
  print_stats (v ∷ latencies) =
      let sorted = maths.sort (v ∷ latencies) in
      some (record {
        minimum = at_index sorted (pos 0);
        maximum = last_of sorted;
        avg = mean sorted;
        p50 = percentile maths sorted (fl.literal 50 0);
        p75 = percentile maths sorted (fl.literal 75 0);
        p90 = percentile maths sorted (fl.literal 90 0);
        p95 = percentile maths sorted (fl.literal 95 0);
        p99 = percentile maths sorted (fl.literal 99 0);
        deviation = stddev maths sorted;
      })

  -- `printJitter`
  unfoldable pub print_jitter : List F → Option (Jitter F)
  unfolding jitters mean percentile
  print_jitter latencies =
      let sorted = maths.sort (jitters latencies) in
      if ltb (length latencies) 2
      then none
      else some (record {
        avg = mean sorted;
        p50 = percentile maths sorted (fl.literal 50 0);
        p95 = percentile maths sorted (fl.literal 95 0);
        maximum = last_of sorted;
      })

  -- The three percentiles that the summary has of a test.
  summary : List F → List (Option F)
  unfolding percentile
  summary latencies =
      percentile maths latencies (fl.literal 50 0)
      ∷ percentile maths latencies (fl.literal 95 0)
      ∷ percentile maths latencies (fl.literal 99 0)
      ∷ []

  -- `Assessment`
  assess : List F → Option String
  unfolding percentile assessment
  assess latencies = elim (percentile maths latencies (fl.literal 50 0)) [
    | none ↦ none
    | some p50 ↦ elim (percentile maths latencies (fl.literal 99 0)) [
      | none ↦ none
      | some p99 ↦ some (assessment p50 p99)
    ]
  ]

module _ {E Bytes : Type 0} (probe : Probe E Bytes) where
  -- The warm-up.
  warm_up : ℕ → E → E
  unfolding ping_server_time
  warm_up zero e = e
  warm_up (suc n) e = warm_up n (probe.sleep pause_between (ping_server_time probe e).1)

  module _ {F : Type 0} ⦃fl : Float64 F⦄ where
    -- `benchmark`: the latencies in milliseconds, and the number of errors
    unfoldable pub benchmark : (url : String) → ℕ → E → List F × ℕ × E
    benchmark url zero e = ([], 0, e)
    benchmark url (suc n) e =
        let (started, e1) = probe.now e in
        let (answered, e2) = probe.get url e1 in
        let (ended, e3) = probe.now e2 in
        let micros = quot (time_sub ended started) 1_000 in
        let ms = fl.div (fl.of_int micros) (fl.literal 1_000 0) in
        let e4 = if answered then (probe.read_all e3).1 else e3 in
        let (latencies, errors, e5) = benchmark url n (probe.sleep pause_between e4) in
        if answered then (ms ∷ latencies, errors, e5) else (latencies, errors + 1, e5)

    -- `main`
    unfoldable pub run : Maths F → E → Report F × E
    unfolding benchmark print_stats print_jitter measure_clock_delta warm_up summary assess
    run maths e =
        let e1 = warm_up warmup_rounds e in
        let (server_times, errors, e2) = benchmark server_time_url total_requests e1 in
        let (book_tickers, errors', e3) = benchmark book_ticker_url total_requests e2 in
        let (clock_delta, e4) = measure_clock_delta probe e3 in
        (
          record {
            server_time_stats = print_stats maths server_times;
            book_ticker_stats = print_stats maths book_tickers;
            clock_delta = clock_delta;
            jitter = print_jitter maths server_times;
            server_time_summary = summary maths server_times;
            book_ticker_summary = summary maths book_tickers;
            conclusion = assess maths server_times;
          },
          e4,
        )
