-- ===== src/Tests/Wiring.antt =====
-- The theorems about start-up, the shutdown of the bridge, and the pipeline over each of the exchange's
-- clients.
use botbtc.Prelude.{
  ◌++◌, inl, mul64, lookup, ℕ, ℤ, pos, ◌+ℤ◌, ◌≡◌, refl, arith, true, false, Option, none, some,
  String, [], ◌∷◌,
}
use botbtc.Float.Fixed.{micros_float64}
use botbtc.Bingx.Live.Calls.{Bodies}
use botbtc.Execution.State.{World, ok, duration_of_ms, new_pipeline}
use botbtc.Execution.Exit.{kill_switch, execute_exit}
use botbtc.Execution.Exit.Closing.{IsExitRequest}
use botbtc.Execution.Process.{process_signal, opened}
use botbtc.Execution.Process.Opening.{IsOrderOf}
use botbtc.Execution.Live.{Outside, Log}
use botbtc.Execution.Live.Recorded.{Sent, IsPermitted, live, execute_exit-Sent, process_signal-Sent}
use botbtc.Risk.{new_engine}
use botbtc.Orders.{new_manager, create_order, generate_client_order_id}
use botbtc.Gate.{ValidationResult, validate}
use botbtc.Execution.Entry.{Entry, execute_entry}
use botbtc.Execution.Simulated.Entering.{asking, execute_entry-simulated}
use botbtc.Bridge.Server.Stopping.{
  Listening, start, let_in, stop, Steps, none_yet, then_one, letting_in, stopping,
}
use botbtc.Bridge.Server.Stopping.Returns.{CanStop, handling-open, stop-ends}
use botbtc.Storage.Events.{Event}
use botbtc.Bingx.{PositionInfo}
use botbtc.Bingx.Paper.{PaperClient, set_book_ticker, fill_price_of, opened_position}
use botbtc.Bingx.Paper.Trades.{IsLeft}
use botbtc.Bingx.Paper.Closing.{fee_of}
use botbtc.Execution.Simulated.{paper_host}
use botbtc.Execution.Simulated.Polling.{IsCalm}
use botbtc.Execution.Simulated.Exiting.{execute_exit-simulated}
use botbtc.Program.Startup.{System}
use botbtc.Program.Startup.Launch.{start_up}
use botbtc.Program.Startup.Endings.{Ended}
use botbtc.Program.Startup.Ready.{start_up-Ended}
use botbtc.Tests.Data
use botbtc.Tests.Data.{decimal, book, config, signal, risk_cfg, latency_cfg, orders_cfg, dollars}
use botbtc.Tests.Trading.{position}
use botbtc.Tests.Exchange.{client, net}

-- What is beside the exchange: a clock in nanoseconds that stands still, and the book.
abbrev beside : Outside ℤ ℕ
beside = record {
  now = λ e. (pos 1_000_100_000_000, e);
  sleep = λ d e. e;
  is_done = λ e. (false, e);
  latest_book = λ e. (some book, e);
  today = λ t. "2026-01-02";
  compact_date = λ t. "20260102";
  two_digits = λ n. "01";
  error_text = λ why. "error";
}

-- Bodies that the exchange's answers are not understood by, but for an order's.
abbrev json : Bodies ℤ String
json = record {
  contracts = λ b. none;
  contract = λ b. none;
  wrapped_ticker = λ b. none;
  wrapped_balance = λ b. some (record {
    asset = "USDT";
    balance = dollars 10_000;
    available_balance = dollars 10_000;
    cross_un_pnl = pos 0;
  });
  balance = λ b. none;
  balances = λ b. none;
  positions = λ b. none;
  rates = λ b. none;
  wrapped_placed = λ b.
      some (record {
        order_id = "77";
        client_order_id = "";
        status = "NEW";
        price = "";
        quantity = "";
      });
  placed = λ b. none;
  wrapped_order = λ b. none;
  order = λ b. none;
  wrapped_orders = λ b. none;
  orders = λ b. none;
}

abbrev fresh : World ℤ (Log ℕ)
fresh = new_pipeline ([], 0) (new_engine risk_cfg) (new_manager "scalper") []

process_signal-Sent_example :
    Sent
      (IsPermitted net client (IsOrderOf signal))
      fresh.env.0
      (process_signal (live beside net json client) config 100 signal fresh).1.env.0
process_signal-Sent_example = process_signal-Sent beside net json client config 100 signal fresh

abbrev holding : World ℤ (Log ℕ)
holding = record fresh { active_pos = some position; monitor_cancel = true }

execute_exit-Sent_example :
    Sent
      (IsPermitted net client (IsExitRequest config position))
      holding.env.0
      (execute_exit (live beside net json client) config 100 kill_switch holding).1.env.0
execute_exit-Sent_example =
    execute_exit-Sent beside net json client config 100 kill_switch holding position refl

-- A handler runs while `Stop` has been called.
abbrev busy : Listening
busy = stop (let_in start)

busy-Steps : Steps start busy
unfolding start
busy-Steps = then_one (then_one none_yet (letting_in refl)) stopping

handling-open_example : busy.channel_open ≡ true
unfolding stop let_in start
handling-open_example = handling-open busy-Steps (omega arith)

stop-ends_example : CanStop busy
stop-ends_example = stop-ends busy-Steps

-- A machine on which everything works.
abbrev system : System ℤ ℕ String
system = record {
  read_file = λ e path. some "yaml";
  unmarshal = λ bytes. some config;
  open_log = λ file e. (true, e);
  listen = λ addr e. (true, e);
  address = λ host port. host;
  server_time = λ body. some (pos 970);
  panics_first = λ e. false;
}

abbrev line : Event ℤ → Option String
line event = some "line"

start_up-Ended_example :
    Ended {Client = ℕ} system net line "configs/dev.yaml" 990
      (start_up system net line "configs/dev.yaml" 990).0
start_up-Ended_example = start_up-Ended system net line "configs/dev.yaml" 990

beside-IsCalm : IsCalm beside (pos 5_000_000_000)
unfolding ◌+ℤ◌
beside-IsCalm = record { goes_on = λ e. refl; soon = λ e. refl }

-- The paper client holds what the pipeline does.
abbrev owned : PositionInfo ℤ
owned = record {
  symbol = "BTC-USDT";
  side = "BUY";
  quantity = dollars 1;
  entry_price = dollars 50_000;
  mark_price = dollars 50_000;
  unrealized_pnl = pos 0;
  leverage = pos 10;
  margin_type = "CROSSED";
  liquidation_price = pos 0;
}

abbrev simulated : World ℤ (PaperClient ℤ × ℕ)
simulated =
    record (new_pipeline (record Data.client { positions = owned ∷ [] }, 0) (new_engine risk_cfg)
      (new_manager "scalper") []) { active_pos = some position; monitor_cancel = true }

execute_exit-simulated_example :
    let done = execute_exit (paper_host beside decimal) config 11 kill_switch simulated in
    (done.0 ≡ ok tt)
    × (done.1.active_pos ≡ none)
    × (done.1.risk.has_open_position ≡ false)
    × (done.1.env.0.positions ≡ [])
    × ((exit : ℤ) × (profit : ℤ) × IsLeft book position.side owned.quantity owned.entry_price exit
          profit
        × (done.1.env.0.simulated_balance
            ≡ micros_float64.add
                (micros_float64.sub simulated.env.0.simulated_balance (
                  micros_float64.mul
                    (micros_float64.mul exit position.quantity)
                    simulated.env.0.taker_rate))
                profit))
unfolding new_pipeline opened set_book_ticker
execute_exit-simulated_example =
    execute_exit-simulated beside decimal beside-IsCalm 10 config simulated position book
      kill_switch owned book refl refl refl refl (inl refl) refl refl refl

beside-IsCalm_probe : IsCalm beside (duration_of_ms config.orders.maker_probe_timeout_ms)
unfolding ◌+ℤ◌ mul64
beside-IsCalm_probe = record { goes_on = λ e. refl; soon = λ e. refl }

abbrev flat : World ℤ (PaperClient ℤ × ℕ)
flat = new_pipeline (Data.client, 0) (new_engine risk_cfg) (new_manager "scalper") []

abbrev passed : ValidationResult ℤ
passed = validate latency_cfg orders_cfg signal book (pos 1_000_100)

abbrev entry_id : String
entry_id =
    generate_client_order_id beside.two_digits "20260102" "scalper" signal.signal_id "entry" (pos 1)

execute_entry-simulated_example :
    let req =
      asking beside decimal config beside-IsCalm_probe 10 signal passed (dollars 1) entry_id flat in
    let done = execute_entry (paper_host beside decimal) config 11 signal passed (dollars 1) flat in
    let price = fill_price_of req flat.env.0 in
    ((entry : Entry ℤ) × (done.0 ≡ ok entry)
      × (entry.order_key ≡ entry_id)
      × (entry.avg_fill_price ≡ price))
    × (done.1.env.0.positions ≡ flat.env.0.positions ++ (opened_position price req ∷ []))
    × (done.1.env.0.simulated_balance
        ≡ micros_float64.sub flat.env.0.simulated_balance (fee_of req flat.env.0))
unfolding new_pipeline new_manager create_order lookup
execute_entry-simulated_example =
    execute_entry-simulated beside decimal config beside-IsCalm_probe 10 signal passed (dollars 1)
      entry_id flat refl
