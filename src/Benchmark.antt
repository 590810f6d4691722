-- ===== src/Benchmark.antt =====
-- tools/latency_benchmark/main.go: the measuring of the exchange's latency and of the clocks' difference.
pub mod Report
pub mod Average
pub mod Clocks
use botbtc.Prelude.{
  ℕ, zero, suc, ◌+◌, ◌-◌, ◌/◌, ℤ, pos, negsuc, add64, sub64, ltb_ℤ, leb_ℤ, eq_ℤ, Bool, true, false,
  not, ◌||◌, ◌&&◌, Option, none, some, String, List, [], ◌∷◌, ◌++◌, length, get_elem?, ltb,
  if◌then◌else◌,
}
use botbtc.Float.{Float64, zero_f}
use botbtc.Bingx.Live.{half}

-- `totalRequests`, `warmupRounds` and `pauseBetween`
abbrev pub total_requests : ℕ
total_requests = 100

abbrev pub warmup_rounds : ℕ
warmup_rounds = 5

abbrev pub pause_between : ℤ
pause_between = pos 50_000_000

abbrev pub server_time_url : String
server_time_url = "https://open-api.bingx.com/openApi/swap/v2/server/time"

abbrev pub book_ticker_url : String
book_ticker_url = "https://open-api.bingx.com/openApi/swap/v2/quote/bookTicker?symbol=BTC-USDT"

-- What the tool calls: the clock in nanoseconds and in milliseconds, time.Sleep, whether a GET is answered,
-- what io.ReadAll gives of the answer's body, and the JSON of an envelope and of the server's time.
pub record Probe (E Bytes : Type 0) : Type 0 where
  pub now : E → ℤ × E
  pub now_ms : E → ℤ × E
  pub sleep : ℤ → E → E
  pub get : String → E → Bool × E
  pub read_all : E → Bytes × E
  pub envelope : Bytes → Option Bytes
  pub server_time : Bytes → Option ℤ

-- sort.Float64s, the conversion to `int`, math.Ceil and math.Sqrt
pub record Maths (F : Type 0) : Type 0 where
  pub sort : List F → List F
  pub to_int : F → ℤ
  pub ceil : F → F
  pub sqrt : F → F

-- `x / n` of int64s for a positive n, which rounds to zero
abbrev pub quot : ℤ → ℕ → ℤ
quot (pos m) n = pos (m / n)
quot (negsuc m) n = sub64 (pos 0) (pos ((m + 1) / n))

abbrev pub abs64 : ℤ → ℤ
abs64 v = if ltb_ℤ v (pos 0) then sub64 (pos 0) v else v

-- The sum of int64s in their order.
unfoldable pub sum_from : ℤ → List ℤ → ℤ
sum_from total [] = total
sum_from total (d ∷ deltas) = sum_from (add64 total d) deltas

-- `avgDelta`; `none` is "Failed to measure clock delta."
unfoldable pub average : List ℤ → Option ℤ
unfolding sum_from
average [] = none
average (d ∷ deltas) = some (quot (sum_from (pos 0) (d ∷ deltas)) (length (d ∷ deltas)))

-- The average, and whether it is reported as a drift.
unfoldable pub report_delta : List ℤ → Option (ℤ × Bool)
unfolding average
report_delta deltas = elim (average deltas) [
  | none ↦ none
  | some avg_delta ↦ some (avg_delta, not (ltb_ℤ (abs64 avg_delta) (pos 50)))
]

-- `s[i]`; `none` is the panic of an index out of range.
abbrev pub at_index : {A : Type 0} → List A → ℤ → Option A
at_index s (pos i) = get_elem? s i
at_index s (negsuc i) = none

module _ {F : Type 0} ⦃fl : Float64 F⦄ where
  unfoldable pub sum_floats : F → List F → F
  sum_floats sum [] = sum
  sum_floats sum (v ∷ values) = sum_floats (fl.add sum v) values

  unfoldable pub mean : List F → F
  unfolding sum_floats
  mean [] = zero_f
  mean (v ∷ values) =
      fl.div (sum_floats zero_f (v ∷ values)) (fl.of_int (pos (length (v ∷ values))))

  -- The sum of the squares in `stddev`.
  unfoldable pub sum_squares : (m sum : F) → List F → F
  sum_squares m sum [] = sum
  sum_squares m sum (v ∷ values) =
      sum_squares m (fl.add sum (fl.mul (fl.sub v m) (fl.sub v m))) values

  -- The differences in `printJitter`, oldest first.
  unfoldable pub jitters : List F → List F
  jitters [] = []
  jitters (v ∷ []) = []
  jitters (v ∷ w ∷ values) = fl.abs (fl.sub w v) ∷ jitters (w ∷ values)

  -- The choice of the last message.
  unfoldable pub assessment : (p50 p99 : F) → String
  assessment p50 p99 =
      if fl.lt p50 (fl.literal 15 0) && fl.lt p99 (fl.literal 50 0)
      then "EXCELLENT"
      else if fl.lt p50 (fl.literal 30 0) && fl.lt p99 (fl.literal 80 0)
      then "ACCEPTABLE"
      else "TOO SLOW"

module _ {F : Type 0} ⦃fl : Float64 F⦄ (maths : Maths F) where
  unfoldable pub stddev : List F → F
  unfolding mean sum_squares
  stddev values =
      if ltb (length values) 2
      then zero_f
      else maths.sqrt
          (fl.div (sum_squares (mean values) zero_f values) (fl.of_int (pos (length values - 1))))

  -- The place of a percentile in a sorted list of that length.
  abbrev pub place : ℕ → F → F
  place size p = fl.mul (fl.div p (fl.literal 100 0)) (fl.of_int (pos (size - 1)))

  unfoldable pub interpolate : List F → F → Option F
  interpolate s idx =
      let lower = maths.to_int (fl.floor idx) in
      let upper = maths.to_int (maths.ceil idx) in
      let frac = fl.sub idx (fl.of_int lower) in
      if eq_ℤ lower upper || leb_ℤ (pos (length s)) upper
      then at_index s lower
      else elim (at_index s lower) [
        | none ↦ none
        | some below ↦ elim (at_index s upper) [
          | none ↦ none
          | some above ↦
              some (fl.add (fl.mul below (fl.sub (fl.literal 1 0) frac)) (fl.mul above frac))
        ]
      ]

  -- `percentile`
  unfoldable pub percentile : List F → F → Option F
  unfolding interpolate
  percentile [] p = some zero_f
  percentile (v ∷ values) p = let s = maths.sort (v ∷ values) in interpolate s (place (length s) p)

module _ {E Bytes : Type 0} (probe : Probe E Bytes) where
  -- `pingServerTime`: every error gives 0.
  unfoldable pub time_of : Bytes → ℤ
  time_of body = elim (probe.envelope body) [
    | none ↦ pos 0
    | some content ↦ elim (probe.server_time content) [ none ↦ pos 0 | some t ↦ t ]
  ]

  unfoldable pub ping_server_time : E → ℤ × E
  unfolding time_of
  ping_server_time e =
      let (answered, e1) = probe.get server_time_url e in
      let (body, e2) = probe.read_all e1 in if answered then (time_of body, e2) else (pos 0, e1)

  -- The rounds of `measureClockDelta`: the differences of those that the server answered.
  unfoldable pub measure_rounds : ℕ → E → List ℤ × E
  unfolding ping_server_time
  measure_rounds zero e = ([], e)
  measure_rounds (suc n) e =
      let (before_ms, e1) = probe.now_ms e in
      let (server_ms, e2) = ping_server_time e1 in
      let (after_ms, e3) = probe.now_ms e2 in
      let round_trip = sub64 after_ms before_ms in
      let estimated = add64 server_ms (half round_trip) in
      let (deltas, e4) = measure_rounds n (probe.sleep (pos 100_000_000) e3) in
      (if ltb_ℤ (pos 0) server_ms then sub64 after_ms estimated ∷ deltas else deltas, e4)

  -- `measureClockDelta`
  unfoldable pub measure_clock_delta : E → Option (ℤ × Bool) × E
  unfolding measure_rounds report_delta
  measure_clock_delta e = let (deltas, e') = measure_rounds 10 e in (report_delta deltas, e')
