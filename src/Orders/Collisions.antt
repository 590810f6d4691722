-- ===== src/Orders/Collisions.antt =====
-- The identifier of an order holds only the last six bytes of its signal's identifier.
use botbtc.Prelude.{
  ℤ, pos, ◌≡◌, refl, ◌≢◌, some, none, String, arith, lookup, insert, lookup-insert,
  lookup-insert_self, eq_iff,
}
use botbtc.Model.{Signal}
use botbtc.Orders.{
  Manager, created, create_order, get_order, new_order, dedup_key, generate_client_order_id,
  id_suffix,
}

module _ {F : Type 0} (two_digits : ℤ → String) (blank : F) (date role : String) where
  -- The manager after an order with identifier `id` was stored.
  abbrev stored : String → ℤ → Signal F → (price qty : F) → Manager F → Manager F
  stored id now signal price qty m = record m {
    orders = insert id (new_order blank signal role price qty id now) m.orders;
    seen = insert (dedup_key signal.signal_id role) id m.seen;
  }

  create_order_fresh :
      (now : ℤ) (signal : Signal F) (price qty : F) (m : Manager F) (id : String)
      → lookup (dedup_key signal.signal_id role) m.seen ≡ none
      → generate_client_order_id two_digits date m.account_id signal.signal_id role (pos 1) ≡ id
      → create_order two_digits date blank now signal role price qty m
        ≡ (stored id now signal price qty m, created id)
  unfolding create_order
  create_order_fresh now signal price qty m id free e = ground arith

  same_id :
      (account_id : String) (signal signal' : Signal F)
      → id_suffix signal.signal_id ≡ id_suffix signal'.signal_id
      → generate_client_order_id two_digits date account_id signal'.signal_id role (pos 1)
        ≡ generate_client_order_id two_digits date account_id signal.signal_id role (pos 1)
  unfolding generate_client_order_id
  same_id account_id signal signal' same = cc

  -- Two signals of one day whose identifiers differ, but end in the same six bytes, both get an order
  -- in one role; but the two orders share one identifier, under which only the second is kept.
  pub second_order_overwrites :
      (now now' : ℤ) (signal signal' : Signal F) (price qty price' qty' : F) (m : Manager F)
      → id_suffix signal.signal_id ≡ id_suffix signal'.signal_id
      → dedup_key signal.signal_id role ≢ dedup_key signal'.signal_id role
      → lookup (dedup_key signal.signal_id role) m.seen ≡ none
      → lookup (dedup_key signal'.signal_id role) m.seen ≡ none
      → let first = create_order two_digits date blank now signal role price qty m in
        let second = create_order two_digits date blank now' signal' role price' qty' first.0 in
        let id =
          generate_client_order_id two_digits date m.account_id signal.signal_id role (pos 1) in
        (first.1 ≡ created id)
        × (second.1 ≡ created id)
        × (get_order id first.0 ≡ some (new_order blank signal role price qty id now))
        × (get_order id second.0 ≡ some (new_order blank signal' role price' qty' id now'))
  unfolding get_order
  second_order_overwrites now now' signal signal' price qty price' qty' m same ne free free' =
      let id =
        generate_client_order_id two_digits date m.account_id signal.signal_id role (pos 1) in
      let key = dedup_key signal.signal_id role in
      let key' = dedup_key signal'.signal_id role in
      let m' = stored id now signal price qty m in
      let still_free : lookup key' m'.seen ≡ none =
        rw lookup-insert (ground (arith, eq_iff key key')) in
      let second =
        create_order_fresh now' signal' price' qty' m' id still_free
          (same_id m.account_id signal signal' same) in
      rw (create_order_fresh now signal price qty m id free refl) (
        refl,
        rw second refl,
        lookup-insert_self id _ m.orders,
        rw second (lookup-insert_self id _ m'.orders),
      )
