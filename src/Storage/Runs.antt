-- ===== src/Storage/Runs.antt =====
-- The event writer's runs: calls of it and steps of its goroutine.
use botbtc.Prelude.{ℕ, ◌≤◌, ◌≡◌, Bool, true, false, Option, List, [], ◌∷◌, ◌++◌, length}
use botbtc.Storage.{AsyncWriter, new_async_writer, write, receive, on_tick, on_done, drain, stop}

module _ {Event Line : Type 0} (line : Event → Option Line)
    (writes : List (Line × Bool) → Line → Bool) where
  -- Calls of the writer and steps of its goroutine, in any order; `accepted` are the events that
  -- `Write` queued so far, oldest first. The goroutine steps while it runs, and nothing is written to a
  -- closed channel (Go would panic). An event that was handed over without a buffer is received next.
  pub data Run (capacity : ℕ) : List Event → AsyncWriter Event Line → Type 0 where
    start : Run capacity [] (new_async_writer line capacity)
    queued :
        {accepted : List Event} {w : AsyncWriter Event Line} (event : Event)
        → Run capacity accepted w
        → w.closed ≡ false
        → (write line event w).1 ≡ true
        → Run capacity (accepted ++ (event ∷ [])) (write line event w).0
    dropped :
        {accepted : List Event} {w : AsyncWriter Event Line} (event : Event)
        → Run capacity accepted w
        → w.closed ≡ false
        → (write line event w).1 ≡ false
        → Run capacity accepted (write line event w).0
    received :
        {accepted : List Event} {w : AsyncWriter Event Line}
        → Run capacity accepted w
        → w.running ≡ true
        → w.draining ≡ false
        → Run capacity accepted (receive line writes w)
    ticked :
        {accepted : List Event} {w : AsyncWriter Event Line}
        → Run capacity accepted w
        → w.running ≡ true
        → w.draining ≡ false
        → length w.event_ch ≤ capacity
        → Run capacity accepted (on_tick line writes w)
    cancelled :
        {accepted : List Event} {w : AsyncWriter Event Line}
        → Run capacity accepted w
        → w.running ≡ true
        → w.draining ≡ false
        → length w.event_ch ≤ capacity
        → Run capacity accepted (on_done line writes w)
    drained :
        {accepted : List Event} {w : AsyncWriter Event Line}
        → Run capacity accepted w
        → w.running ≡ true
        → w.draining ≡ true
        → Run capacity accepted (drain line writes w)
    stopped :
        {accepted : List Event} {w : AsyncWriter Event Line}
        → Run capacity accepted w
        → Run capacity accepted (stop line w)
