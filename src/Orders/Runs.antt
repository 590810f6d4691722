-- ===== src/Orders/Runs.antt =====
-- The calls on the order manager, in any order, as a step relation.
use botbtc.Prelude.{ℤ, ◌≡◌, String}
use botbtc.Model.{Signal, Order}
use botbtc.Model.OrderState.{OrderState}
use botbtc.Orders.{Manager, create_order, update_state, modify_order}

module _ {F : Type 0} (two_digits : ℤ → String) (blank : F) where
  -- `written` is a write of timestamps, prices and ids through the order's pointer, which leaves the
  -- status alone. entry.go also writes the status FILLED of an acknowledged order so, past
  -- `UpdateState`: such a write is no step here.
  pub data Step (m : Manager F) : Manager F → Type 0 where
    asked :
        (date : String) (now : ℤ) (signal : Signal F) (role : String) (price qty : F)
        → Step m (create_order two_digits date blank now signal role price qty m).0
    moved : (id : String) (state : OrderState) → Step m (update_state id state m).0
    written :
        (id : String) (f : Order F → Order F)
        → ((o : Order F) → (f o).status ≡ o.status)
        → Step m (modify_order id f m)

  pub data Run (m : Manager F) : Manager F → Type 0 where
    start : Run m m
    later : {n n' : Manager F} → Run m n → Step n n' → Run m n'
