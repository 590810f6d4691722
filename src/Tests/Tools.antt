-- ===== src/Tests/Tools.antt =====
-- The theorems about the alerts and the latency benchmark.
use mathlib.Core.Path.{subst}
use botbtc.Prelude.{
  ap, pos_part, ◌^◌, ℕ, ◌+◌, ◌<◌, ℤ, pos, ◌-ℤ◌, ltb_ℤ, ◌≡◌, ◌⊎◌, refl, arith, true, not, none, some,
  String, [],
}
use botbtc.Bingx.Live.Clock.{IsWithin}
use botbtc.Alerts.{AlertSender, Telegram, new_alert_sender, kill_switch_text, send}
use botbtc.Alerts.Sending.{Sending, posting, send-Sending}
use botbtc.Benchmark.{abs64, Probe, time_of, ping_server_time, measure_rounds, measure_clock_delta}
use botbtc.Benchmark.Clocks.{IsOffset, measure_clock_delta_lem}

abbrev sender : AlertSender
sender = new_alert_sender "token" "chat" true

abbrev telegram : Telegram ℕ String
telegram = record {
  marshal = λ payload. some payload.text;
  builds = λ url. true;
  post = λ url body e. (some (pos 429), e + 1);
}

send-Sending_example :
    let (result, s) = send (posting telegram) sender (kill_switch_text "manual") ([], 3) in
    Sending telegram sender (kill_switch_text "manual") [] 3 result s.0
send-Sending_example = send-Sending telegram sender (kill_switch_text "manual") [] 3

-- The local clock stands at 1,000 ms, 30 ms ahead of the server's, and a request takes no time.
abbrev probe : Probe Unit String
probe = record {
  now = λ e. (pos 1_000_000_000, e);
  now_ms = λ e. (pos 1_000, e);
  sleep = λ d e. e;
  get = λ url e. (true, e);
  read_all = λ e. ("970", e);
  envelope = λ body. some body;
  server_time = λ content. some (pos 970);
}

answered-970 : (e : Unit {0}) → (ping_server_time probe e).0 ≡ pos 970
unfolding ping_server_time time_of
answered-970 e = refl

from_970 : (t : ℕ) → pos 970 ≡ pos t → (t < 2 ^ 59) × (pos 1_000 -ℤ pos t ≡ pos 30)
unfolding ◌-ℤ◌
from_970 t h =
    let same : 970 ≡ t = ap pos_part h in
    subst (λ n. (n < 2 ^ 59) × (pos 1_000 -ℤ pos n ≡ pos 30)) same (omega arith, refl)

probe-IsOffset : IsOffset probe (pos 30) 0
unfolding ping_server_time time_of
probe-IsOffset = record {
  clock = λ e. 1_000;
  below = λ e. omega arith;
  reads = λ e. refl;
  forward = λ e. omega arith;
  lasts = λ e. omega arith;
  moment = λ e. 1_000;
  since = λ e. omega arith;
  until = λ e. omega arith;
  answers = λ e t same positive. from_970 t same;
}

measure_clock_delta_lem_example :
    let (measured, e) = measure_clock_delta probe tt in
    (((measure_rounds probe 10 tt).0 ≡ []) × (measured ≡ none))
    ⊎ ((avg : ℤ) × (measured ≡ some (avg, not (ltb_ℤ (abs64 avg) (pos 50))))
        × IsWithin (avg -ℤ pos 30) 0)
unfolding ◌-ℤ◌
measure_clock_delta_lem_example =
    measure_clock_delta_lem probe (pos 30) 0 probe-IsOffset tt (omega arith, omega arith)
      (omega arith, omega arith)
