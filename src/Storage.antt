-- ===== src/Storage.antt =====
-- server/internal/storage/async_writer.go: events wait in a channel, are collected into a batch, and
-- are written to a file. `line` is json.Marshal of an event with a newline, `none` its error; `writes`
-- tells whether file.Write succeeds for a line, after the calls of it before.
pub mod Runs
pub mod Log
pub mod Calls
pub mod Events
use botbtc.Prelude.{
  ℕ, zero, suc, ◌<◌, Bool, true, false, not, ◌&&◌, Option, none, some, List, [], ◌∷◌, ◌++◌, length,
  leb, ltb, if◌then◌else◌,
}
use botbtc.Channel.{try_send}

-- `calls` are the calls of file.Write so far, with their success; `draining` is true in the loop after
-- `<-ctx.Done()`, `waiting` while the goroutine waits at the channel, and `running` until `run` returns.
pub record AsyncWriter (Event Line : Type 0) : Type 0 where
  pub event_ch : List Event
  pub closed : Bool
  pub batch : List Event
  pub batch_size : ℕ
  pub calls : List (Line × Bool)
  pub waiting : Bool
  pub draining : Bool
  pub running : Bool

-- The events that a channel of that capacity takes: without a buffer one, when the goroutine waits for
-- it; then the event is on its way to the goroutine, which takes it next.
unfoldable pub places : (capacity : ℕ) (waiting : Bool) → ℕ
places zero waiting = if waiting then 1 else 0
places (suc n) waiting = suc n

module _ {Event Line : Type 0} (line : Event → Option Line) where
  -- `NewAsyncWriter`, when the file could be opened; `batchSize` is the channel's capacity too.
  unfoldable pub new_async_writer : ℕ → AsyncWriter Event Line
  new_async_writer buffer_size = record {
    event_ch = [];
    closed = false;
    batch = [];
    batch_size = buffer_size;
    calls = [];
    waiting = false;
    draining = false;
    running = true;
  }

  -- `Write`, and whether the event was queued; a goroutine that waits is woken by it.
  unfoldable pub write : Event → AsyncWriter Event Line → AsyncWriter Event Line × Bool
  unfolding places
  write event w =
      let (queue, sent) = try_send (places w.batch_size w.waiting) event w.event_ch in
      (record w { event_ch = queue; waiting = w.waiting && not sent }, sent)

  unfoldable pub lines_of : List Event → List Line
  lines_of [] = []
  lines_of (event ∷ batch) = elim (line event) [
    | none ↦ lines_of batch
    | some l ↦ l ∷ lines_of batch
  ]

  -- `Stop` closes the channel and waits for `run` to return.
  unfoldable pub stop : AsyncWriter Event Line → AsyncWriter Event Line
  stop w = record w { closed = true }

module _ {Event Line : Type 0} (line : Event → Option Line)
    (writes : List (Line × Bool) → Line → Bool) where
  -- file.Write for each line, after the calls before; an error is only logged.
  unfoldable pub write_lines : List (Line × Bool) → List Line → List (Line × Bool)
  write_lines calls [] = []
  write_lines calls (l ∷ lines) =
      let call : Line × Bool = (l, writes calls l) in
      call ∷ write_lines (calls ++ (call ∷ [])) lines

  -- `flush`: an event without a line is skipped
  flush : List Event → AsyncWriter Event Line → AsyncWriter Event Line
  unfolding lines_of write_lines
  flush batch w = record w { calls = w.calls ++ write_lines w.calls (lines_of line batch) }

  -- `if len(batch) > 0 { w.flush(batch) }`, at the end of `run`
  flush_last : List Event → AsyncWriter Event Line → AsyncWriter Event Line
  unfolding flush
  flush_last batch w = record (flush batch w) { batch = []; running = false }

  -- `case ev, ok := <-w.eventCh`, with an event or after the channel was closed; it waits otherwise.
  unfoldable pub receive : AsyncWriter Event Line → AsyncWriter Event Line
  unfolding flush flush_last
  receive w = elim w.event_ch [
    | [] ↦ if w.closed then flush_last w.batch w else record w { waiting = true }
    | event ∷ queue ↦
        let batch = w.batch ++ (event ∷ []) in
        let w' = record w { event_ch = queue; waiting = false } in
        if leb w.batch_size (length batch)
        then record (flush batch w') { batch = [] }
        else record w' { batch = batch }
  ]

  -- `case <-ticker.C`
  unfoldable pub on_tick : AsyncWriter Event Line → AsyncWriter Event Line
  unfolding flush
  on_tick w = record (flush w.batch w) { batch = []; waiting = false }

  -- `case <-ctx.Done()`
  unfoldable pub on_done : AsyncWriter Event Line → AsyncWriter Event Line
  on_done w = record w { draining = true; waiting = false }

  -- `for ev := range w.eventCh`, one round of it, and what follows the loop when the channel is closed
  -- and empty; it waits otherwise.
  unfoldable pub drain : AsyncWriter Event Line → AsyncWriter Event Line
  unfolding flush_last
  drain w = elim w.event_ch [
    | [] ↦ if w.closed then flush_last w.batch w else record w { waiting = true }
    | event ∷ queue ↦ record w {
      event_ch = queue;
      batch = w.batch ++ (event ∷ []);
      waiting = false;
    }
  ]
