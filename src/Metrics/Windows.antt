-- ===== src/Metrics/Windows.antt =====
-- The latency windows of server/internal/monitoring/metrics.go over many samples.
use mathlib.Core.Path.{subst}
use mathlib.Core.List.{append_assoc, append-nil}
use botbtc.Prelude.{
  ℕ, suc, ◌+◌, ◌-◌, ◌%◌, ◌^◌, ◌≤◌, ◌<◌, ℤ, pos, inc64_exact, ◌≡◌, refl, sym, ap, ◌∙◌, arith,
  Bool-cases, inl, inr, Option, none, some, List, [], ◌∷◌, ◌++◌, ◌⊎◌, length, length-append, drop,
  ltb,
}
use botbtc.Metrics.{latency_window_size, Window, set, slot_of, empty_window, record_sample}
use botbtc.Metrics.Rotation.{length-set, rotate, drop-suc, rotate-set, rotate-whole, drop-append-le}

-- The window after the samples of `history`, oldest first.
pub record IsWindow (history : List ℤ) (w : Window) : Type 0 where
  pub counted : w.idx ≡ pos (length history)
  pub filled : (length w.samples ≡ length history) ⊎ (length w.samples ≡ latency_window_size)
  pub small : length w.samples ≤ latency_window_size
  pub not_more : length w.samples ≤ length history
  pub recent :
      rotate (length history % latency_window_size) w.samples
      ≡ drop (length history - latency_window_size) history

-- Recording the samples of a list, in its order.
unfoldable pub record_all : List ℤ → Window → Option Window
record_all [] w = some w
record_all (ms ∷ later) w = elim (record_sample ms w) [
  | none ↦ none
  | some w' ↦ record_all later w'
]

abbrev pub last_thousand : List ℤ → List ℤ
last_thousand history = drop (length history - latency_window_size) history

-- Until it is full the window is the history.
IsWindow-short :
    (history : List ℤ) (w : Window)
    → IsWindow history w
    → length history < latency_window_size
    → w.samples ≡ history
IsWindow-short history w h short =
    let same : length w.samples ≡ length history = ground (arith, h.filled, h.not_more) in
    let none_gone : length history - latency_window_size ≡ 0 = omega arith in
    sym (rotate-whole w.samples (length history % latency_window_size) (inr (omega arith)))
    ∙ h.recent
    ∙ ap (λ n. drop n history) none_gone

-- The index after a sample that fills the window is 0, and any earlier one the length.
wraps-or_not :
    (n m k : ℕ)
    → m ≡ n + 1
    → k ≡ n + 1
    → n < latency_window_size
    → (m % latency_window_size ≡ 0) ⊎ (m % latency_window_size ≡ k)
wraps-or_not n m k m_is k_is h = grind (arith, m_is, k_is)

append-IsWindow :
    (history : List ℤ) (w : Window) (ms : ℤ)
    → IsWindow history w
    → length history < latency_window_size
    → IsWindow
        (history ++ (ms ∷ []))
        (record { samples = w.samples ++ (ms ∷ []); idx = pos (length history + 1) })
append-IsWindow history w ms h short =
    let n = length history in
    let same = IsWindow-short history w h short in
    let longer = length-append history (ms ∷ []) in
    let longer' = length-append w.samples (ms ∷ []) in
    let equal : length w.samples ≡ n = ap length same in
    let none_gone : length (history ++ (ms ∷ [])) - latency_window_size ≡ 0 =
      omega (arith, longer) in
    let whole =
      wraps-or_not n (length (history ++ (ms ∷ []))) (length (w.samples ++ (ms ∷ []))) longer
        (longer' ∙ ap (λ k. k + 1) equal) short in
    record {
      counted = ap pos (omega (arith, longer));
      filled = inl (omega (arith, longer, longer', equal));
      small = omega (arith, longer', equal);
      not_more = omega (arith, longer, longer', equal);
      recent =
          rotate-whole (w.samples ++ (ms ∷ []))
            (length (history ++ (ms ∷ [])) % latency_window_size) whole
          ∙ ap (λ l. l ++ (ms ∷ [])) same
          ∙ ap (λ k. drop k (history ++ (ms ∷ []))) (sym none_gone);
    }

next_slot :
    (n m : ℕ)
    → m ≡ n + 1
    → ((m % latency_window_size ≡ 0) × (suc (n % latency_window_size) ≡ latency_window_size))
      ⊎ (m % latency_window_size ≡ suc (n % latency_window_size))
next_slot n m m_is = grind (arith, m_is)

-- Both rotations of a full window by a thousand are whole.
next_rotation :
    (xs : List ℤ) (n m : ℕ)
    → length xs ≡ latency_window_size
    → m ≡ n + 1
    → rotate (m % latency_window_size) xs ≡ rotate (suc (n % latency_window_size)) xs
next_rotation xs n m full m_is = elim (next_slot n m m_is) [
  | inl (around, e) ↦
      rotate-whole xs (m % latency_window_size) (inl around)
      ∙ sym (rotate-whole xs (suc (n % latency_window_size)) (inr (e ∙ sym full)))
  | inr e ↦ ap (λ k. rotate k xs) e
]

set-IsWindow :
    (history : List ℤ) (w : Window) (ms : ℤ)
    → IsWindow history w
    → latency_window_size ≤ length history
    → IsWindow (history ++ (ms ∷ [])) (record {
      samples = set w.samples (length history % latency_window_size) ms;
      idx = pos (length history + 1);
    })
set-IsWindow history w ms h long =
    let n = length history in
    let r = n % latency_window_size in
    let longer = length-append history (ms ∷ []) in
    let longer' = length-set w.samples r ms in
    let full : length w.samples ≡ latency_window_size = ground (arith, h.filled, h.small) in
    let next : suc (n - latency_window_size) ≡ n + 1 - latency_window_size = omega arith in
    let one_gone : drop 1 (drop (n - latency_window_size) history)
        ≡ drop (n + 1 - latency_window_size) history =
      sym (drop-suc (n - latency_window_size) history) ∙ ap (λ k. drop k history) next in
    record {
      counted = ap pos (omega (arith, longer));
      filled = inr (omega (arith, longer', full));
      small = omega (arith, longer', full);
      not_more = omega (arith, longer', full, longer);
      recent =
          next_rotation (set w.samples r ms) n (length (history ++ (ms ∷ []))) (longer' ∙ full)
            longer
          ∙ rotate-set w.samples r ms (omega (arith, full))
          ∙ ap (λ l. drop 1 l ++ (ms ∷ [])) h.recent
          ∙ ap (λ l. l ++ (ms ∷ [])) one_gone
          ∙ sym (drop-append-le (n + 1 - latency_window_size) history (ms ∷ []) (omega arith))
          ∙ ap (λ k. drop (k - latency_window_size) (history ++ (ms ∷ []))) (sym (longer));
    }

-- One more sample, when the counter is below the overflow of a 64-bit integer.
record_sample-IsWindow :
    (history : List ℤ) (w : Window) (ms : ℤ)
    → IsWindow history w
    → length history + 1 < 2 ^ 63
    → (w' : Window) × ((record_sample ms w ≡ some w') × IsWindow (history ++ (ms ∷ [])) w')
unfolding record_sample slot_of
record_sample-IsWindow history w ms h below =
    elim (Bool-cases (ltb (length w.samples) latency_window_size)) [
      | inl e ↦ (
        record { samples = w.samples ++ (ms ∷ []); idx = pos (length history + 1) },
        (
          rw (e, h.counted, inc64_exact (length history) below) refl,
          append-IsWindow history w ms h (ground (arith, e, h.filled)),
        ),
      )
      | inr e ↦ (
        record {
          samples = set w.samples (length history % latency_window_size) ms;
          idx = pos (length history + 1);
        },
        (
          rw (e, h.counted, h.counted, inc64_exact (length history) below) refl,
          set-IsWindow history w ms h (ground (arith, e, h.not_more)),
        ),
      )
    ]

record_all-IsWindow :
    (history later : List ℤ) (w : Window)
    → IsWindow history w
    → length history + length later < 2 ^ 63
    → (w' : Window) × ((record_all later w ≡ some w') × IsWindow (history ++ later) w')
unfolding record_all
record_all-IsWindow history [] w h below =
    (w, (refl, subst (λ l. IsWindow l w) (sym (append-nil history)) h))
record_all-IsWindow history (ms ∷ later) w h below =
    let (w1, (is_w1, h1)) = record_sample-IsWindow history w ms h (omega arith) in
    let longer = length-append history (ms ∷ []) in
    let (w2, (is_w2, h2)) =
      record_all-IsWindow (history ++ (ms ∷ [])) later w1 h1 (omega (arith, longer)) in
    (
      w2,
      (
        rw (record_all, is_w1) is_w2,
        subst (λ l. IsWindow l w2) (append_assoc history (ms ∷ []) later) h2,
      ),
    )

-- Fewer than 2^63 samples recorded in an empty window never panic; the window then counts them, holds
-- at most a thousand, and read from the slot that the next one overwrites it is the last thousand of
-- them in their order.
pub record_all_lem :
    (history : List ℤ)
    → length history < 2 ^ 63
    → (w : Window) × ((record_all history empty_window ≡ some w)
        × ((w.idx ≡ pos (length history))
            × ((length w.samples ≤ latency_window_size)
                × (rotate (length history % latency_window_size) w.samples
                    ≡ last_thousand history))))
record_all_lem history below =
    let (w, (is_w, h)) = record_all-IsWindow [] history empty_window start (omega arith) in
    (w, (is_w, (h.counted, (h.small, h.recent))))
  where
    start : IsWindow [] empty_window
    start = record {
      counted = refl;
      filled = inl refl;
      small = omega arith;
      not_more = omega arith;
      recent = refl;
    }
