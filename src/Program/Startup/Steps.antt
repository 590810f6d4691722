-- ===== src/Program/Startup/Steps.antt =====
-- The steps of start-up, by their results.
use botbtc.Prelude.{
  ◌≡◌, refl, Bool-cases, Option-cases, inl, inr, Bool, true, false, none, some, String,
}
use botbtc.Float.{Float64}
use botbtc.Config.{BingxConfig, Config, load_config}
use botbtc.Bingx.Paper.{new_paper_client}
use botbtc.Bingx.Live.{LiveError, Network, sync_server_time}
use botbtc.Program.Startup.{
  Exchange, paper, live, Failure, config_unreadable, config_unparsed, clock_not_synced, Outcome,
  exited, panicked, panic_if, System, new_live_client, ◌>>=◌, exit_unless, load, select_exchange,
}

-- What follows a step of start-up holds when it holds after each of the step's results.
pub unless-Ends :
    {E B : Type 0} (Q : Outcome B → Type 0) (why : Failure) (call : E → Bool × E)
    (f : Unit {0} → E → Outcome B × E) (e : E)
    → ((call e).0 ≡ true → Q (f tt (call e).1).0)
    → ((call e).0 ≡ false → Q (exited why))
    → Q ((exit_unless why call >>= f) e).0
unless-Ends {B = B} Q why call f e on_true on_false = of (call e).0 on_true on_false
  where
    of :
        (success : Bool)
        → (success ≡ true → Q (f tt (call e).1).0)
        → (success ≡ false → Q (exited why))
        → Q ((exit_unless why (λ e'. (success, (call e').1)) >>= f) e).0
    of true t x = t refl
    of false t x = x refl

pub panic-Ends :
    {E B : Type 0} (Q : Outcome B → Type 0) (bad : E → Bool) (f : Unit {0} → E → Outcome B × E)
    (e : E)
    → (bad e ≡ false → Q (f tt e).0)
    → (bad e ≡ true → Q panicked)
    → Q ((panic_if bad >>= f) e).0
panic-Ends Q bad f e on_false on_true = elim (Bool-cases (bad e)) [
  | inl h ↦ rw (◌>>=◌, h) (on_true h)
  | inr h ↦ rw (◌>>=◌, h) (on_false h)
]

module _ {F E Bytes : Type 0} ⦃fl : Float64 F⦄ (sys : System F E Bytes)
    (net : Network E Bytes) where
  -- The configuration is what the file at that path says.
  pub record IsLoaded (path : String) (e : E) (cfg : Config F) : Type 0 where
    pub bytes : Bytes
    pub was_read : sys.read_file e path ≡ some bytes
    pub was_parsed : sys.unmarshal bytes ≡ some cfg

  -- The exchange of the mode; the live one has measured the difference of the clocks.
  pub data IsExchange (cfg : BingxConfig) : Exchange F → Type 0 where
    is_paper :
        cfg.paper_mode ≡ true
        → IsExchange cfg (paper (new_paper_client cfg.symbol (fl.literal 100_000 0)))
    is_live :
        (e : E)
        → cfg.paper_mode ≡ false
        → (sync_server_time net sys.server_time (new_live_client cfg) e).0 ≡ none
        → IsExchange cfg (live (sync_server_time net sys.server_time (new_live_client cfg) e).1)

  pub load-Ends :
      {B : Type 0} (Q : Outcome B → Type 0) (path : String) (f : Config F → E → Outcome B × E)
      (e : E)
      → ((cfg : Config F) → IsLoaded path e cfg → Q (f cfg e).0)
      → (sys.read_file e path ≡ none → Q (exited config_unreadable))
      → ((bytes : Bytes)
          → sys.read_file e path ≡ some bytes
          → sys.unmarshal bytes ≡ none
          → Q (exited config_unparsed))
      → Q ((load sys path >>= f) e).0
  unfolding load load_config
  load-Ends Q path f e on_loaded no_file no_yaml = elim (Option-cases (sys.read_file e path)) [
    | inl h ↦ rw (◌>>=◌, load, load_config, h) (no_file h)
    | inr (bytes, h) ↦ elim (Option-cases (sys.unmarshal bytes)) [
      | inl h' ↦ rw (◌>>=◌, load, load_config, h, h') (no_yaml bytes h h')
      | inr (cfg, h') ↦
          rw (◌>>=◌, load, load_config, h, h')
            (on_loaded cfg (record { bytes = bytes; was_read = h; was_parsed = h' }))
    ]
  ]

  pub select-Ends :
      {B : Type 0} (Q : Outcome B → Type 0) (cfg : BingxConfig) (f : Exchange F → E → Outcome B × E)
      (e : E)
      → ((exchange : Exchange F) (e' : E) → IsExchange cfg exchange → Q (f exchange e').0)
      → ((why : LiveError)
          → cfg.paper_mode ≡ false
          → (sync_server_time net sys.server_time (new_live_client cfg) e).0 ≡ some why
          → Q (exited (clock_not_synced why)))
      → Q ((select_exchange sys net cfg >>= f) e).0
  unfolding select_exchange
  select-Ends Q cfg f e on_exchange no_clock = elim (Bool-cases cfg.paper_mode) [
    | inl h ↦ rw (◌>>=◌, select_exchange, h) (on_exchange _ _ (is_paper h))
    | inr h ↦
        let synced = sync_server_time net sys.server_time (new_live_client cfg) e in
        elim (Option-cases synced.0) [
          | inl h' ↦ rw (◌>>=◌, select_exchange, h, h') (on_exchange _ _ (is_live e h h'))
          | inr (why, h') ↦ rw (◌>>=◌, select_exchange, h, h') (no_clock why h h')
        ]
  ]
