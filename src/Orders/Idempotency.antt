-- ===== src/Orders/Idempotency.antt =====
-- At most one order for a signal and a role.
use botbtc.Prelude.{
  ℤ, pos, lookup-insert_self, ◌≡◌, some, String, arith, lookup, lookup-insert, eq_iff,
}
use botbtc.Model.{Signal, Order}
use botbtc.Model.OrderState.{OrderState}
use botbtc.Orders.{
  Manager, created, duplicate, create_order, update_state, modify_order, dedup_key,
  generate_client_order_id,
}
use botbtc.Orders.Runs.{asked, moved, written, Run, start, later}

module _ {F : Type 0} (two_digits : ℤ → String) (blank : F) where
  update_state-seen :
      (id : String) (state : OrderState) (m : Manager F) → (update_state id state m).0.seen ≡ m.seen
  unfolding update_state
  update_state-seen id state m = ground arith

  modify_order-seen :
      (id : String) (f : Order F → Order F) (m : Manager F) → (modify_order id f m).seen ≡ m.seen
  unfolding modify_order
  modify_order-seen id f m = ground arith

  create_order-seen :
      (date : String) (now : ℤ) (signal : Signal F) (role : String) (price qty : F) (m : Manager F)
      (key id : String)
      → lookup key m.seen ≡ some id
      → lookup key (create_order two_digits date blank now signal role price qty m).0.seen ≡ some id
  unfolding create_order
  create_order-seen date now signal role price qty m key id e =
      let k = dedup_key signal.signal_id role in
      let i = generate_client_order_id two_digits date m.account_id signal.signal_id role (pos 1) in
      ground (arith, lookup-insert k key i m.seen, eq_iff k key)

  create_order_created :
      (date : String) (now : ℤ) (signal : Signal F) (role : String) (price qty : F) (m : Manager F)
      {m' : Manager F} {id : String}
      → create_order two_digits date blank now signal role price qty m ≡ (m', created id)
      → lookup (dedup_key signal.signal_id role) m'.seen ≡ some id
  unfolding create_order
  create_order_created date now signal role price qty m e =
      let k = dedup_key signal.signal_id role in
      let i = generate_client_order_id two_digits date m.account_id signal.signal_id role (pos 1) in
      ground (arith, lookup-insert_self k i m.seen)

  create_order_duplicate :
      (date : String) (now : ℤ) (signal : Signal F) (role : String) (price qty : F) (m : Manager F)
      {id : String}
      → lookup (dedup_key signal.signal_id role) m.seen ≡ some id
      → create_order two_digits date blank now signal role price qty m ≡ (m, duplicate id)
  unfolding create_order
  create_order_duplicate date now signal role price qty m e = ground arith

  Run-seen :
      {m n : Manager F} (key id : String)
      → Run two_digits blank m n
      → lookup key m.seen ≡ some id
      → lookup key n.seen ≡ some id
  Run-seen key id start e = e
  Run-seen key id (later {n} r (asked date now signal role price qty)) e =
      create_order-seen date now signal role price qty n key id (Run-seen key id r e)
  Run-seen key id (later {n} r (moved i state)) e =
      rw (update_state-seen i state n) (Run-seen key id r e)
  Run-seen key id (later {n} r (written i f h)) e =
      rw (modify_order-seen i f n) (Run-seen key id r e)

  -- Once an order was created for a signal and a role, any later attempt for that signal id and role,
  -- after any further calls and any writes to orders but to their status, on any day and at any price,
  -- is refused with the id of the first order, and changes nothing.
  pub created_once :
      (date date' : String) (now now' : ℤ) (signal signal' : Signal F) (role : String)
      (price qty price' qty' : F) (m : Manager F) {m' n : Manager F} {id : String}
      → create_order two_digits date blank now signal role price qty m ≡ (m', created id)
      → signal'.signal_id ≡ signal.signal_id
      → Run two_digits blank m' n
      → create_order two_digits date' blank now' signal' role price' qty' n ≡ (n, duplicate id)
  created_once date date' now now' signal signal' role price qty price' qty' m {m'} {n} {id} e same
        r =
      create_order_duplicate date' now' signal' role price' qty' n
        (rw same (Run-seen _ id r (create_order_created date now signal role price qty m e)))
