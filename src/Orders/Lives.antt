-- ===== src/Orders/Lives.antt =====
-- Every order of the manager lives by the table of order transitions.
use botbtc.Prelude.{
  ℤ, pos, ◌≡◌, refl, ◌≢◌, true, false, Bool-cases, Option, inl, inr, some, none, [], ◌∷◌, String,
  arith, lookup, insert, Dict, lookup-insert, str_eq, if◌then◌else◌,
}
use botbtc.Model.{Signal, Order}
use botbtc.Model.Transition.{Transition, Life, here, next, AllIn, check_table-All}
use botbtc.Model.OrderState.{
  OrderState, new, filled, OrderState-discrete, valid_order_transitions, can_transition_to,
}
use mathlib.Core.Path.{subst}
use botbtc.Orders.{
  Manager, Update, not_found, Creation, created, duplicate, new_manager, create_order, get_order,
  new_order, update_state, modify_order, dedup_key, move_order, generate_client_order_id, is_final,
  has_pending_orders, any_pending,
}
use botbtc.Orders.Runs.{asked, moved, written, Run, start, later}

table_final :
    (s : OrderState)
    → is_final s ≡ true
    → AllIn OrderState-discrete (λ _. ⊥) (valid_order_transitions s)
unfolding valid_order_transitions
table_final filled e = tt
table_final _ e = ground arith

module _ {F : Type 0} where
  -- Every order of the map has come from NEW by allowed changes.
  abbrev pub AreLawful : Dict (Order F) → Type 0
  AreLawful orders =
      (id : String) (o : Order F) → lookup id orders ≡ some o → Life can_transition_to new o.status

  insert-AreLawful :
      (orders : Dict (Order F)) (id : String) (o : Order F)
      → AreLawful orders
      → Life can_transition_to new o.status
      → AreLawful (insert id o orders)
  insert-AreLawful orders id o h l j p e =
      let q : (if str_eq id j then some o else lookup j orders) ≡ some p = rw lookup-insert at e in
      elim (Bool-cases (str_eq id j)) [
        | inl same ↦
            let same_order : o ≡ p = ground arith in
            subst (λ (x : Order F). Life can_transition_to new x.status) same_order l
        | inr other ↦ h j p (ground arith)
      ]

  update_state-AreLawful :
      (id : String) (state : OrderState) (m : Manager F)
      → AreLawful m.orders
      → AreLawful (update_state id state m).0.orders
  unfolding update_state
  update_state-AreLawful id state m h = go (lookup id m.orders) refl
    where
      moved_lawful :
          (o : Order F) (t : Transition)
          → lookup id m.orders ≡ some o
          → can_transition_to o.status state ≡ t
          → AreLawful (move_order t id state o m).0.orders
      moved_lawful o Transition.allowed e q =
          insert-AreLawful m.orders id (record o { status = state }) h (next (h id o e) q)
      moved_lawful o Transition.unknown_state e q = h
      moved_lawful o Transition.invalid e q = h

      go :
          (found : Option (Order F))
          → lookup id m.orders ≡ found
          → AreLawful
              (elim found as (λ _. Manager F × Update) [
                | none ↦ (m, not_found)
                | some o ↦ move_order (can_transition_to o.status state) id state o m
              ]).0.orders
      go none e = h
      go (some o) e = moved_lawful o (can_transition_to o.status state) e refl

  modify_order-AreLawful :
      (id : String) (f : Order F → Order F) (m : Manager F)
      → ((o : Order F) → (f o).status ≡ o.status)
      → AreLawful m.orders
      → AreLawful (modify_order id f m).orders
  unfolding modify_order
  modify_order-AreLawful id f m same h = go (lookup id m.orders) refl
    where
      go :
          (found : Option (Order F))
          → lookup id m.orders ≡ found
          → AreLawful
              (elim found as (λ _. Manager F) [
                | none ↦ m
                | some o ↦ record m { orders = insert id (f o) m.orders }
              ]).orders
      go none e = h
      go (some o) e = insert-AreLawful m.orders id (f o) h (rw (same o) (h id o e))

  module _ (two_digits : ℤ → String) (blank : F) where
    create_order-AreLawful :
        (date : String) (now : ℤ) (signal : Signal F) (role : String) (price qty : F)
        (m : Manager F)
        → AreLawful m.orders
        → AreLawful (create_order two_digits date blank now signal role price qty m).0.orders
    unfolding create_order
    create_order-AreLawful date now signal role price qty m h =
        go (lookup (dedup_key signal.signal_id role) m.seen)
      where
        id : String
        id = generate_client_order_id two_digits date m.account_id signal.signal_id role (pos 1)

        go :
            (found : Option String)
            → AreLawful
                (elim found as (λ _. Manager F × Creation) [
                  | some existing ↦ (m, duplicate existing)
                  | none ↦ (
                    record m {
                      orders = insert id (new_order blank signal role price qty id now) m.orders;
                      seen = insert (dedup_key signal.signal_id role) id m.seen;
                    },
                    created id,
                  )
                ]).0.orders
        go none = insert-AreLawful m.orders id (new_order blank signal role price qty id now) h here
        go (some existing) = h

    Run-AreLawful :
        {m n : Manager F} → Run two_digits blank m n → AreLawful m.orders → AreLawful n.orders
    Run-AreLawful start h = h
    Run-AreLawful (later {n} r (asked date now signal role price qty)) h =
        create_order-AreLawful date now signal role price qty n (Run-AreLawful r h)
    Run-AreLawful (later {n} r (moved id state)) h =
        update_state-AreLawful id state n (Run-AreLawful r h)
    Run-AreLawful (later {n} r (written id f same)) h =
        modify_order-AreLawful id f n same (Run-AreLawful r h)

    -- Whatever calls are made on a new manager, and whatever is written through the pointers of its
    -- orders but for their status, an order that it holds has come from NEW by changes that the
    -- transition table allows.
    pub orders_lawful :
        (account_id id : String) {m : Manager F} {o : Order F}
        → Run two_digits blank (new_manager account_id) m
        → get_order id m ≡ some o
        → Life can_transition_to new o.status
    unfolding new_manager get_order lookup
    orders_lawful account_id id {m} {o} r e = Run-AreLawful r (λ j p q. absurd (empty j p q)) id o e
      where
        empty : (j : String) (p : Order F) → lookup j [] ≡ some p → ⊥
        empty j p q = cc

  lookup-any_pending :
      (orders : Dict (Order F)) (id : String) (o : Order F)
      → any_pending orders ≡ false
      → lookup id orders ≡ some o
      → is_final o.status ≡ true
  unfolding any_pending lookup
  lookup-any_pending [] id o n e = cc
  lookup-any_pending ((k, p) ∷ orders) id o n e = ground (arith, lookup-any_pending orders id o)

  -- When no order is pending, no order of the manager can change its state any more.
  pub no_pending_settled :
      (id : String) (m : Manager F) {o : Order F} (target : OrderState)
      → has_pending_orders m ≡ false
      → get_order id m ≡ some o
      → can_transition_to o.status target ≢ Transition.allowed
  unfolding has_pending_orders get_order can_transition_to
  no_pending_settled id m {o} target n e q =
      check_table-All OrderState-discrete (λ _. ⊥) _ target
        (table_final o.status (lookup-any_pending m.orders id o n e)) q
