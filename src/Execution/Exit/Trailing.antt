-- ===== src/Execution/Exit/Trailing.antt =====
-- The trailing stop: which step it stands on, and what it locks.
use botbtc.Prelude.{
  Bool-cases, inl, inr, ◌≢◌, ◌⊎◌, eq_iff, ℕ, zero, suc, ◌+◌, ◌≤◌, ◌≡◌, refl, ◌↔◌, true, none, List,
  [], ◌∷◌, length, drop, arith, if◌then◌else◌,
}
use botbtc.Bingx.{buy}
use botbtc.Float.{Float64, zero_f}
use botbtc.Config.{TrailingStep}
use botbtc.Execution.State.{ActivePosition}
use botbtc.Execution.Exit.{pnl_at, advance, check_trailing_stop}

module _ {F : Type 0} ⦃fl : Float64 F⦄ where
  -- How many of the steps the best profit reaches in a row.
  abbrev pub reached : F → List (TrailingStep F) → ℕ
  reached best [] = 0
  reached best (step ∷ steps) = if fl.le step.profit_usd best then suc (reached best steps) else 0

  -- The lock after the first n steps.
  abbrev pub lock_after : F → List (TrailingStep F) → ℕ → F
  lock_after locked steps zero = locked
  lock_after locked [] (suc n) = locked
  lock_after locked (step ∷ steps) (suc n) = lock_after step.lock_usd steps n

  advance_lem :
      (steps : List (TrailingStep F)) (p : ActivePosition F)
      → let n = reached p.best_pnl steps in
        advance steps p ≡ record p {
          trailing_step = p.trailing_step + n;
          locked_pnl = lock_after p.locked_pnl steps n;
        }
  unfolding advance
  advance_lem [] p = ground arith
  advance_lem (step ∷ steps) p = ground (
    arith,
    advance_lem steps
        (record p { trailing_step = p.trailing_step + 1; locked_pnl = step.lock_usd }),
  )

  lock_after-add :
      (locked : F) (steps : List (TrailingStep F)) (k n : ℕ)
      → k ≤ length steps
      → lock_after (lock_after locked steps k) (drop k steps) n ≡ lock_after locked steps (k + n)
  lock_after-add locked steps zero n b = let e : 0 + n ≡ n = omega arith in rw e
  lock_after-add locked [] (suc k) n b = absurd (omega arith)
  lock_after-add locked (step ∷ steps) (suc k) n b =
      let e : suc k + n ≡ suc (k + n) = omega arith in
      rw e (lock_after-add step.lock_usd steps k n (omega arith))

  add-reached-le_length :
      (best : F) (steps : List (TrailingStep F)) (k : ℕ)
      → k ≤ length steps
      → k + reached best (drop k steps) ≤ length steps
  add-reached-le_length best [] zero b = omega arith
  add-reached-le_length best (step ∷ steps) zero b =
      ground (arith, add-reached-le_length best steps 0)
  add-reached-le_length best [] (suc k) b = absurd (omega arith)
  add-reached-le_length best (step ∷ steps) (suc k) b =
      omega (arith, add-reached-le_length best steps k (omega arith))

  reached-drop_self :
      (best : F) (steps : List (TrailingStep F))
      → reached best (drop (reached best steps) steps) ≡ 0
  reached-drop_self best [] = refl
  reached-drop_self best (step ∷ steps) = elim (Bool-cases (fl.le step.profit_usd best)) [
    | inl more ↦ rw more (reached-drop_self best steps)
    | inr less ↦ rw less (rw less refl)
  ]

  reached-drop-reached :
      (best : F) (steps : List (TrailingStep F)) (k : ℕ)
      → reached best (drop (k + reached best (drop k steps)) steps) ≡ 0
  reached-drop-reached best steps zero =
      let e : 0 + reached best steps ≡ reached best steps = omega arith in
      rw e (reached-drop_self best steps)
  reached-drop-reached best [] (suc k) = let e : suc k + 0 ≡ suc k = omega arith in rw e
  reached-drop-reached best (step ∷ steps) (suc k) =
      let e : suc k + reached best (drop k steps) ≡ suc (k + reached best (drop k steps)) =
        omega arith in
      rw e (reached-drop-reached best steps k)

  drop-nil : (n : ℕ) → drop {A = TrailingStep F} n [] ≡ []
  drop-nil zero = refl
  drop-nil (suc n) = refl

  -- The step counts the steps taken, and the locked profit is the lock of the last of them.
  pub record IsTracked (steps : List (TrailingStep F)) (p : ActivePosition F) : Type 0 where
    pub in_range : p.trailing_step ≤ length steps
    pub locked : p.locked_pnl ≡ lock_after zero_f steps p.trailing_step

  advance-IsTracked :
      (steps : List (TrailingStep F)) (p : ActivePosition F)
      → IsTracked steps p
      → IsTracked steps (advance (drop p.trailing_step steps) p)
  advance-IsTracked steps p t = rw advance_lem (record {
    in_range = add-reached-le_length p.best_pnl steps p.trailing_step t.in_range;
    locked = rw t.locked (
        lock_after-add zero_f steps p.trailing_step
          (reached p.best_pnl (drop p.trailing_step steps)) t.in_range);
  })

  -- The position after the check, and when it is left.
  check_trailing_stop-advance :
      (steps : List (TrailingStep F)) (price : F) (p : ActivePosition F)
      → (check_trailing_stop steps price p).0 ≡ advance (drop p.trailing_step steps) p
  unfolding check_trailing_stop advance
  check_trailing_stop-advance [] price p = rw (drop-nil p.trailing_step) refl
  check_trailing_stop-advance (first ∷ rest) price p = ground arith

  -- `x` is the profit of the position at the price: what the price gained on the entry price for a buyer,
  -- and what it lost for any other side, by the quantity.
  abbrev pub IsProfit : ActivePosition F → (price : F) → F → Type 0
  IsProfit p price x =
      ((p.side ≡ buy) × (x ≡ fl.mul (fl.sub price p.entry_price) p.quantity))
      ⊎ ((p.side ≢ buy) × (x ≡ fl.mul (fl.sub p.entry_price price) p.quantity))

  pnl_at-IsProfit : (p : ActivePosition F) (price : F) → IsProfit p price (pnl_at p price)
  unfolding pnl_at
  pnl_at-IsProfit p price = ground (arith, eq_iff p.side buy)

  check_trailing_stop-reason :
      (steps : List (TrailingStep F)) (price : F) (p : ActivePosition F)
      → let (p', reason) = check_trailing_stop steps price p in
        (reason ≢ none) ↔ (
          (steps ≢ [])
          × (fl.lt zero_f p'.locked_pnl ≡ true)
          × (fl.le (pnl_at p price) p'.locked_pnl ≡ true))
  unfolding check_trailing_stop
  check_trailing_stop-reason [] price p = ground arith
  check_trailing_stop-reason (first ∷ rest) price p = ground arith

  -- The trailing check takes, from the step on which it stands, as many steps as the best profit reaches
  -- in a row, and no more; the step stays within the configured steps, the locked profit is that of the
  -- step taken last, and the best profit is left as it was; and the position is left exactly when there
  -- are steps, the locked profit is positive and the profit at the price is not above it.
  pub check_trailing_stop_lem :
      (steps : List (TrailingStep F)) (price : F) (p : ActivePosition F)
      → IsTracked steps p
      → let (p', reason) = check_trailing_stop steps price p in
        IsTracked steps p'
        × (p'.trailing_step ≡ p.trailing_step + reached p.best_pnl (drop p.trailing_step steps))
        × (p'.best_pnl ≡ p.best_pnl)
        × (reached p'.best_pnl (drop p'.trailing_step steps) ≡ 0)
        × ((profit : F) × IsProfit p price profit
            × ((reason ≢ none) ↔ (
                (steps ≢ [])
                × (fl.lt zero_f p'.locked_pnl ≡ true)
                × (fl.le profit p'.locked_pnl ≡ true))))
  check_trailing_stop_lem steps price p t =
      let left = check_trailing_stop-reason steps price p in
      let same = check_trailing_stop-advance steps price p in
      (
        rw same (advance-IsTracked steps p t),
        rw (same, advance_lem) refl,
        rw (same, advance_lem) refl,
        rw (same, advance_lem) (reached-drop-reached p.best_pnl steps p.trailing_step),
        (pnl_at p price, pnl_at-IsProfit p price, left),
      )
