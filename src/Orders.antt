-- ===== src/Orders.antt =====
-- server/internal/orders: the tracker of orders, and the identifiers that it gives them. A mutex makes
-- each method one step. `*model.Order` is a pointer into the map: the model names it by its key.
pub mod Runs
pub mod Idempotency
pub mod Lives
pub mod Collisions
use Prim.Native.String.{len, slice}
use botbtc.Prelude.{
  ℕ, ◌-◌, ℤ, pos, ltb, Bool, true, false, not, ◌||◌, Option, none, some, List, [], ◌∷◌, String,
  str_eq, concat, Dict, lookup, insert, if◌then◌else◌,
}
use botbtc.Model.{Signal, Order}
use botbtc.Model.OrderState.{
  OrderState, new, filled, cancelled, rejected, expired, can_transition_to,
}
use botbtc.Model.Transition.{Transition}

pub record Manager (F : Type 0) : Type 0 where
  pub orders : Dict (Order F)
  pub seen : Dict String
  pub account_id : String

pub data Creation : Type 0 where
  created : (client_order_id : String) → Creation
  duplicate : (existing : String) → Creation

pub data Update : Type 0 where
  updated : Update
  not_found : Update
  bad_transition : Transition → Update

-- `signalID[len-6:]` of a longer id
unfoldable pub id_suffix : String → String
id_suffix s = if ltb 6 (len s) then slice s (len s - 6) (len s) else s

-- `GenerateClientOrderID` on the day `date` (YYYYMMDD); `two_digits` is fmt's `%02d`.
unfoldable pub generate_client_order_id :
    (ℤ → String) → String → (account_id signal_id role : String) → ℤ → String
generate_client_order_id two_digits date account_id signal_id role attempt = concat "btcscalp-" (
    concat account_id (
      concat "-" (
        concat date (
          concat "-" (
            concat (id_suffix signal_id)
              (concat "-" (concat role (concat "-" (two_digits attempt)))))))))

-- The orders in a final state, as `HasPendingOrders` and `GetActiveEntryOrder` list them.
abbrev pub is_final : OrderState → Bool
is_final filled = true
is_final cancelled = true
is_final rejected = true
is_final expired = true
is_final _ = false

abbrev pub dedup_key : String → String → String
dedup_key signal_id role = concat signal_id (concat ":" role)

module _ {F : Type 0} where
  unfoldable pub new_manager : String → Manager F
  new_manager account_id = record { orders = []; seen = []; account_id = account_id }

  -- The order that `CreateOrder` stores; `blank` is the zero of a float64 field.
  abbrev pub new_order : F → Signal F → (role : String) → (price qty : F) → String → ℤ → Order F
  new_order blank signal role price qty id now = record {
    client_order_id = id;
    exchange_order_id = "";
    signal_id = signal.signal_id;
    symbol = signal.symbol;
    side = signal.side;
    role = role;
    order_type = "";
    time_in_force = "";
    limit_price = price;
    qty = qty;
    status = new;
    avg_fill_price = blank;
    filled_qty = blank;
    reduce_only = str_eq role "exit";
    t4_send_ms = pos 0;
    t5_ack_ms = pos 0;
    t6_fill_ms = pos 0;
    created_at = now;
  }

  -- `CreateOrder`, its first attempt being the only one
  unfoldable pub create_order :
      (ℤ → String)
      → String
      → F
      → ℤ
      → Signal F
      → (role : String) → (price qty : F) → Manager F
      → Manager F × Creation
  create_order two_digits date blank now signal role price qty m =
      let key = dedup_key signal.signal_id role in
      let id =
        generate_client_order_id two_digits date m.account_id signal.signal_id role (pos 1) in
      elim (lookup key m.seen) [
        | some existing ↦ (m, duplicate existing)
        | none ↦ (
          record m {
            orders = insert id (new_order blank signal role price qty id now) m.orders;
            seen = insert key id m.seen;
          },
          created id,
        )
      ]

  unfoldable pub get_order : String → Manager F → Option (Order F)
  get_order id m = lookup id m.orders

  -- A write through the pointer that `CreateOrder` returned.
  unfoldable pub modify_order : String → (Order F → Order F) → Manager F → Manager F
  modify_order id f m = elim (lookup id m.orders) [
    | none ↦ m
    | some o ↦ record m { orders = insert id (f o) m.orders }
  ]

  -- The order is found; `change` is the outcome of `CanTransitionTo`.
  move_order : Transition → String → OrderState → Order F → Manager F → Manager F × Update
  move_order Transition.allowed id state o m =
      (record m { orders = insert id (record o { status = state }) m.orders }, updated)
  move_order change id state o m = (m, bad_transition change)

  unfoldable pub update_state : String → OrderState → Manager F → Manager F × Update
  unfolding move_order
  update_state id state m = elim (lookup id m.orders) [
    | none ↦ (m, not_found)
    | some o ↦ move_order (can_transition_to o.status state) id state o m
  ]

  any_pending : Dict (Order F) → Bool
  any_pending [] = false
  any_pending ((k, o) ∷ orders) = not (is_final o.status) || any_pending orders

  unfoldable pub has_pending_orders : Manager F → Bool
  unfolding any_pending
  has_pending_orders m = any_pending m.orders

  first_active_entry : Dict (Order F) → Option (Order F)
  first_active_entry [] = none
  first_active_entry ((k, o) ∷ orders) =
      if not (str_eq o.role "entry") || is_final o.status then first_active_entry orders else some o

  -- `visited` is the map's content in the order in which `range` comes to it, which Go leaves open.
  unfoldable pub get_active_entry_order : (visited : Dict (Order F)) → Option (Order F)
  unfolding first_active_entry
  get_active_entry_order visited = first_active_entry visited
