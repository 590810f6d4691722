-- ===== src/Program/Startup/Ready.antt =====
-- How start-up ends.
use botbtc.Prelude.{ℕ, ℤ, pos, negsuc, ◌≡◌, arith, ◌&&◌, refl, true, Option, String}
use botbtc.Float.{Float64}
use botbtc.Config.{Config}
use botbtc.Storage.Events.{Event}
use botbtc.Bingx.Live.{Network}
use botbtc.Execution.State.{new_pipeline}
use botbtc.Program.Startup.Steps.{
  IsLoaded, IsExchange, unless-Ends, panic-Ends, load-Ends, select-Ends,
}
use botbtc.Program.Startup.{
  Exchange, log_not_opened, bridge_not_listening, price_feed_not_listening, Scalper, Outcome, done,
  panicked, System, ◌>>=◌, exit_unless, select_exchange, bridge_accept, price_feed_accept,
  bridge_address, price_feed_address,
}
use botbtc.Program.Startup.Launch.{
  assemble, assembled, launch, start_background, looping, ticker_panics, enter_loop, start_servers,
  start_scalper, start_up,
}
use botbtc.Program.Startup.Endings.{
  after_log, after_bridge, after_feed, Ended, ready, no_file, no_yaml, no_clock, no_log, bad_size,
  bad_interval, no_bridge, no_price_feed,
}

module _ {F E Bytes Line Client : Type 0} ⦃fl : Float64 F⦄ (sys : System F E Bytes)
    (net : Network E Bytes) (line : Event F → Option Line) where
  assemble-Ends :
      {B : Type 0} (Q : Outcome B → Type 0) (cfg : Config F) (exchange : Exchange F)
      (f : Scalper F E Line Client → E → Outcome B × E) (e : E)
      → ((n : ℕ) → cfg.storage.buffer_size ≡ pos n → Q (f (assembled line cfg exchange n e) e).0)
      → ((n : ℕ) → cfg.storage.buffer_size ≡ negsuc n → Q panicked)
      → Q ((assemble line cfg exchange >>= f) e).0
  unfolding assemble
  assemble-Ends {B} Q cfg exchange f e on_size no_size = of cfg.storage.buffer_size on_size no_size
    where
      of :
          (size : ℤ)
          → ((n : ℕ) → size ≡ pos n → Q (f (assembled line cfg exchange n e) e).0)
          → ((n : ℕ) → size ≡ negsuc n → Q panicked)
          → Q
              (((λ e'. (
                elim size [ negsuc n ↦ panicked | pos n ↦ done (assembled line cfg exchange n e') ],
                e',
              ))
                  >>= f)
                e).0
      of (pos n) s p = s n refl
      of (negsuc n) s p = p n refl

  module _ (path : String) (e before : E) (cfg : Config F) (exchange : Exchange F) (n : ℕ)
      (is_loaded : IsLoaded sys net path e cfg)
      (is_exchange : IsExchange sys net cfg.bingx exchange) (size : cfg.storage.buffer_size ≡ pos n)
      (opened : (sys.open_log cfg.storage.event_log_file before).0 ≡ true) where
    abbrev base : Scalper F E Line Client
    base = assembled line cfg exchange n (after_log sys cfg before)

    abbrev all_started : Scalper F E Line Client
    all_started =
        launch (price_feed_accept (price_feed_address sys cfg))
          (launch (bridge_accept (bridge_address sys cfg)) (start_background sys net line base))

    panics : ticker_panics cfg.storage ≡ true → Ended {Client = Client} sys net line path e panicked
    panics h = bad_interval cfg is_loaded (ground (arith, h))

    enter_loop-Ended :
        (sys.listen (bridge_address sys cfg) (after_log sys cfg before)).0 ≡ true
        → (sys.listen (price_feed_address sys cfg) (after_bridge sys cfg before)).0 ≡ true
        → Ended {Client = Client} sys net line path e
            (enter_loop sys net line all_started (after_feed sys cfg before)).0
    unfolding enter_loop looping assembled new_pipeline launch start_background
    enter_loop-Ended bridging feeding =
        panic-Ends (Ended {Client = Client} sys net line path e) (λ e'. ticker_panics cfg.storage)
          (λ ticking e'. (done (looping sys net line all_started e'), e'))
          (after_feed sys cfg before)
          (λ h. ready (looping sys net line all_started (after_feed sys cfg before)) (record {
            from_file = is_loaded;
            its_exchange = is_exchange;
            before = before;
            logging = opened;
            bridging = bridging;
            feeding = feeding;
            new_world = refl;
            no_counts = refl;
            size = n;
            its_size = size;
            new_log = refl;
            ticking = ground (arith, h);
            its_level = refl;
            no_books = (refl, refl);
            no_clients = refl;
            alerting = refl;
            connections = refl;
            running = refl;
          }))
          panics

    start_servers-Ended :
        Ended {Client = Client} sys net line path e
          (start_servers sys net line base (after_log sys cfg before)).0
    unfolding start_servers assembled
    start_servers-Ended =
        let bridge = bridge_address sys cfg in
        let feed = price_feed_address sys cfg in
        panic-Ends (Ended {Client = Client} sys net line path e)
          (λ e'. ticker_panics cfg.storage && sys.panics_first e')
          (λ ticking. exit_unless (bridge_not_listening bridge) (sys.listen bridge) >>= λ listening.
            exit_unless (price_feed_not_listening feed) (sys.listen feed) >>= λ feeding.
            enter_loop sys net line all_started)
          (after_log sys cfg before)
          (λ calm.
            unless-Ends (Ended {Client = Client} sys net line path e) (bridge_not_listening bridge)
              (sys.listen bridge)
              (λ listening.
                exit_unless (price_feed_not_listening feed) (sys.listen feed) >>= λ feeding.
                enter_loop sys net line all_started)
              (after_log sys cfg before)
              (λ h.
                unless-Ends (Ended {Client = Client} sys net line path e)
                  (price_feed_not_listening feed) (sys.listen feed)
                  (λ feeding. enter_loop sys net line all_started) (after_bridge sys cfg before)
                  (λ h'. enter_loop-Ended h h')
                  (λ h'. no_price_feed cfg before is_loaded opened h h'))
              (λ h. no_bridge cfg before is_loaded opened h))
          (λ h. panics (ground (arith, h)))

  start_scalper-Ended :
      (path : String) (e e' : E) (cfg : Config F) (exchange : Exchange F)
      → IsLoaded sys net path e cfg
      → IsExchange sys net cfg.bingx exchange
      → Ended {Client = Client} sys net line path e (start_scalper sys net line cfg exchange e').0
  unfolding start_scalper
  start_scalper-Ended path e e' cfg exchange is_loaded is_exchange =
      let file = cfg.storage.event_log_file in
      let e'' = (sys.open_log file e').1 in
      unless-Ends (Ended {Client = Client} sys net line path e) log_not_opened (sys.open_log file)
        (λ opened. assemble line cfg exchange >>= start_servers sys net line) e'
        (λ h.
          assemble-Ends (Ended {Client = Client} sys net line path e) cfg exchange
            (start_servers sys net line) e''
            (λ n size. start_servers-Ended path e e' cfg exchange n is_loaded is_exchange size h)
            (λ n size. bad_size cfg n is_loaded size))
        (λ h. no_log cfg e' is_loaded h)

  -- Start-up, from any state of the outside, ends in one of these ways: ready for the loop, after the log
  -- was opened and then the bridge and the price feed listened, with the configuration that the file says,
  -- the exchange of its mode, with its clock measured when it is the live one, a new pipeline over what
  -- those calls left, zero counters, an empty log, a positive flush interval and all goroutines started;
  -- or by an exit or a panic for which there is a cause: the file, its YAML, the measuring of the clock
  -- outside paper mode, the log, a negative buffer size, a flush interval that is not positive, and the two
  -- listeners.
  pub start_up-Ended :
      (path : String) (e : E)
      → Ended {Client = Client} sys net line path e (start_up sys net line path e).0
  unfolding start_up
  start_up-Ended path e =
      load-Ends sys net (Ended {Client = Client} sys net line path e) path
        (λ cfg. select_exchange sys net cfg.bingx >>= start_scalper sys net line cfg) e
        (λ cfg is_loaded.
          select-Ends sys net (Ended {Client = Client} sys net line path e) cfg.bingx
            (start_scalper sys net line cfg) e
            (λ exchange e' is_exchange.
              start_scalper-Ended path e e' cfg exchange is_loaded is_exchange)
            (λ why h h'. no_clock cfg why e is_loaded h h'))
        no_file no_yaml
