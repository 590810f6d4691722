-- ===== src/Channel.antt =====
-- Go's buffered channels, as the program uses them: the values that wait, oldest first, and the
-- `select` statements with a `default` that send to one.
use botbtc.Prelude.{ℕ, Bool, true, false, List, [], ◌∷◌, ◌++◌, length, ltb, if◌then◌else◌}

module _ {ℓ} {A : Type ℓ} where
  -- `select { case ch <- a: default: }`, and whether it was sent
  abbrev pub try_send : ℕ → A → List A → List A × Bool
  try_send cap a queue =
      if ltb (length queue) cap then (queue ++ (a ∷ []), true) else (queue, false)

  -- `select { case <-ch: default: }`
  abbrev pub drop_oldest : List A → List A
  drop_oldest [] = []
  drop_oldest (a ∷ queue) = queue

  -- Both in the order of the market feeds: send, and if the channel is full drop the oldest value and
  -- send again.
  unfoldable pub send_newest : ℕ → A → List A → List A
  send_newest cap a queue =
      let (queue', sent) = try_send cap a queue in
      if sent then queue' else (try_send cap a (drop_oldest queue)).0
