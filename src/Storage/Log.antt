-- ===== src/Storage/Log.antt =====
-- What becomes of the events that the event writer accepted.
use botbtc.Prelude.{ℕ, Bool, ◌≤◌, ◌<◌, ◌⊎◌, ◌≡◌, true, false, Option, List, [], ◌++◌, length}
use botbtc.Storage.{AsyncWriter, lines_of}
use botbtc.Storage.Calls.{given}

module _ {Event Line : Type 0} (line : Event → Option Line)
    (writes : List (Line × Bool) → Line → Bool) where
  -- The events in the channel: within its capacity, or without a buffer one that is handed over.
  abbrev pub IsWithin : ℕ → List Event → Type 0
  IsWithin capacity queue = (length queue ≤ capacity) ⊎ ((capacity ≡ 0) × (length queue ≡ 1))

  -- The accepted events are, in order, those given to file.Write, those of the batch and those of the
  -- channel; the channel stays within its bound, and a goroutine that has returned left nothing behind.
  pub record IsLog (capacity : ℕ) (accepted : List Event) (w : AsyncWriter Event Line)
      : Type 0 where
    pub sized : w.batch_size ≡ capacity
    pub split : lines_of line accepted ≡ given w.calls ++ lines_of line (w.batch ++ w.event_ch)
    pub bounded : IsWithin capacity w.event_ch
    pub idle : (w.waiting ≡ false) ⊎ (w.event_ch ≡ [])
    pub batched : (w.draining ≡ true) ⊎ (length w.batch < capacity) ⊎ (w.batch ≡ [])
    pub over : (w.running ≡ true) ⊎ ((w.batch ++ w.event_ch ≡ []) × (w.closed ≡ true))
