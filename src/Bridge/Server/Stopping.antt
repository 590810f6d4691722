-- ===== src/Bridge/Server/Stopping.antt =====
-- server/internal/bridge/server.go: `Start` and `Stop`, the goroutines that they wait for, and the channel
-- that is closed when these have returned.
pub mod Returns
use botbtc.Prelude.{ℕ, zero, suc, ◌+◌, ◌-◌, ◌<◌, ◌≡◌, Bool, true, false}

-- How far a call of `Stop` is.
pub data Phase : Type 0 where
  not_called : Phase
  cancelled : Phase
  listener_closed : Phase
  waited : Phase
  channel_closed : Phase

-- `wg` is the counter of the sync.WaitGroup, `handlers` counts the goroutines of `handleConnection`.
pub record Listening : Type 0 where
  pub ctx_done : Bool
  pub listener_open : Bool
  pub accepting : Bool
  pub handlers : ℕ
  pub wg : ℕ
  pub channel_open : Bool
  pub phase : Phase

-- `Start`, when net.Listen succeeds; the channel is that of `NewServer`.
unfoldable pub start : Listening
start = record {
  ctx_done = false;
  listener_open = true;
  accepting = true;
  handlers = 0;
  wg = 1;
  channel_open = true;
  phase = not_called;
}

-- `acceptLoop`: a connection that is let in, and the return of the loop
unfoldable pub let_in : Listening → Listening
let_in s = record s { handlers = s.handlers + 1; wg = s.wg + 1 }

unfoldable pub accept_returns : Listening → Listening
accept_returns s = record s { accepting = false; wg = s.wg - 1 }

-- A handler's deferred calls
unfoldable pub handler_returns : Listening → Listening
handler_returns s = record s { handlers = s.handlers - 1; wg = s.wg - 1 }

-- The next statement of `Stop`, by how far it is; `s.wg.Wait()` waits until the counter is 0.
unfoldable pub stop_from : Phase → Listening → Listening
stop_from not_called s = record s { ctx_done = true; phase = cancelled }
stop_from cancelled s = record s { listener_open = false; phase = listener_closed }
stop_from listener_closed s = elim s.wg [ zero ↦ record s { phase = waited } | suc n ↦ s ]
stop_from waited s = record s { channel_open = false; phase = channel_closed }
stop_from channel_closed s = s

unfoldable pub stop : Listening → Listening
unfolding stop_from
stop s = stop_from s.phase s

-- What the goroutines do, in any order. A connection can still be let in after the listener was closed,
-- when `Accept` had returned it before; the loop returns after an error of `Accept`, which a closed
-- listener gives, when the context is done.
pub data Step (s : Listening) : Listening → Type 0 where
  letting_in : s.accepting ≡ true → Step s (let_in s)
  accept_returning :
      s.accepting ≡ true → s.listener_open ≡ false → s.ctx_done ≡ true → Step s (accept_returns s)
  handler_returning : 0 < s.handlers → Step s (handler_returns s)
  stopping : Step s (stop s)

pub data Steps (s : Listening) : Listening → Type 0 where
  none_yet : Steps s s
  then_one : {t u : Listening} → Steps s t → Step t u → Steps s u
