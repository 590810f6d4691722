-- ===== src/Bridge/PriceFeed/Broadcasts.antt =====
-- What the clients of the price feed have received.
pub mod Runs
use mathlib.Core.Path.{subst}
use mathlib.Core.List.{append-nil}
use botbtc.Prelude.{
  ◌≡◌, refl, sym, ap, ◌∙◌, Bool, true, false, Bool-cases, inl, inr, String, List, [], ◌∷◌, ◌++◌,
  All, if◌then◌else◌,
}
use botbtc.Bridge.PriceFeed.{
  PriceFeedServer, new_price_feed_server, accept_client, broadcast, broadcast_tick,
}

-- A test of connections for being the same.
pub record IsSame {Client : Type 0} (same : Client → Client → Bool) : Type 0 where
  pub self : (c : Client) → same c c ≡ true
  pub symmetric : (c d : Client) → same c d ≡ false → same d c ≡ false

module _ {Client : Type 0} (same : Client → Client → Bool) where
  -- The lines written to a client.
  abbrev pub lines_to : Client → List (Client × String) → List String
  lines_to c [] = []
  lines_to c ((d, line) ∷ written) =
      let rest = lines_to c written in if same c d then line ∷ rest else rest

  abbrev IsOther : Client → List Client → Type 0
  IsOther c = All (λ d. same c d ≡ false)

  abbrev IsDistinct : List Client → Type 0
  IsDistinct [] = Unit
  IsDistinct (c ∷ clients) = IsOther c clients × IsDistinct clients

  -- Each connected client, with the lines broadcast since it connected.
  abbrev pub Owed : Type 0
  Owed = List (Client × List String)

  abbrev clients_of : Owed → List Client
  clients_of [] = []
  clients_of ((c, lines) ∷ owed) = c ∷ clients_of owed

  abbrev pub owe : (writes : Client → Bool) → String → Owed → Owed
  owe writes line [] = []
  owe writes line ((c, lines) ∷ owed) =
      let rest = owe writes line owed in if writes c then (c, lines ++ (line ∷ [])) ∷ rest else rest

  abbrev HasReceived : List (Client × String) → Client × List String → Type 0
  HasReceived written (c, lines) = lines_to c written ≡ lines

  lines_to-append :
      (c : Client) (xs ys : List (Client × String))
      → lines_to c (xs ++ ys) ≡ lines_to c xs ++ lines_to c ys
  lines_to-append c [] ys = refl
  lines_to-append c ((d, line) ∷ xs) ys = elim (Bool-cases (same c d)) [
    | inl e ↦ rw e (ap (◌∷◌ line) (lines_to-append c xs ys))
    | inr e ↦ rw e (lines_to-append c xs ys)
  ]

  module _ (is_same : IsSame same) (writes : Client → Bool) (line : String) where
    left-owed :
        (owed : Owed)
        → (broadcast writes line (clients_of owed)).0 ≡ clients_of (owe writes line owed)
    unfolding broadcast
    left-owed [] = refl
    left-owed ((c, lines) ∷ owed) = elim (Bool-cases (writes c)) [
      | inl e ↦ rw e (ap (◌∷◌ c) (left-owed owed))
      | inr e ↦ rw e (left-owed owed)
    ]

    left-IsOther :
        (c : Client) (clients : List Client)
        → IsOther c clients
        → IsOther c (broadcast writes line clients).0
    unfolding broadcast
    left-IsOther c [] o = tt
    left-IsOther c (d ∷ clients) o = elim (Bool-cases (writes d)) [
      | inl e ↦ rw e (o.0, left-IsOther c clients o.1)
      | inr e ↦ rw e (left-IsOther c clients o.1)
    ]

    -- Nothing is written to another client.
    other-none :
        (c : Client) (clients : List Client)
        → IsOther c clients
        → lines_to c (broadcast writes line clients).1 ≡ []
    unfolding broadcast
    other-none c [] o = refl
    other-none c (d ∷ clients) o = elim (Bool-cases (writes d)) [
      | inl e ↦ rw (e, o.0) (other-none c clients o.1)
      | inr e ↦ rw e (other-none c clients o.1)
    ]

    left-IsDistinct :
        (clients : List Client) → IsDistinct clients → IsDistinct (broadcast writes line clients).0
    unfolding broadcast
    left-IsDistinct [] d = tt
    left-IsDistinct (c ∷ clients) d = elim (Bool-cases (writes c)) [
      | inl e ↦ rw e (left-IsOther c clients d.0, left-IsDistinct clients d.1)
      | inr e ↦ rw e (left-IsDistinct clients d.1)
    ]

    abbrev GotLine : List (Client × String) → Client × List String → Type 0
    GotLine written (c, lines) = lines_to c written ≡ line ∷ []

    -- What is written to one client is nothing to the others.
    GotLine-other :
        (c : Client) (written : List (Client × String)) (owed : Owed)
        → IsOther c (clients_of owed)
        → All (GotLine written) owed
        → All (GotLine ((c, line) ∷ written)) owed
    GotLine-other c written [] o got = tt
    GotLine-other c written ((d, lines) ∷ owed) o got =
        let other : same d c ≡ false = is_same.symmetric c d o.0 in
        (rw other got.0, GotLine-other c written owed o.1 got.1)

    -- Each client that stays gets the line, once.
    broadcast-GotLine :
        (owed : Owed)
        → IsDistinct (clients_of owed)
        → All (GotLine (broadcast writes line (clients_of owed)).1) (owe writes line owed)
    unfolding broadcast
    broadcast-GotLine [] d = tt
    broadcast-GotLine ((c, lines) ∷ owed) d =
        let others : IsOther c (clients_of (owe writes line owed)) =
          subst (IsOther c) (left-owed owed) (left-IsOther c (clients_of owed) d.0) in
        elim (Bool-cases (writes c)) [
          | inl e ↦
              rw (e, is_same.self c)
                (
                  ap (◌∷◌ line) (other-none c (clients_of owed) d.0),
                  GotLine-other c (broadcast writes line (clients_of owed)).1 (owe writes line owed)
                      others (broadcast-GotLine owed d.1),
                )
          | inr e ↦ rw e (broadcast-GotLine owed d.1)
        ]

    HasReceived-owe :
        (before after : List (Client × String)) (owed : Owed)
        → All (HasReceived before) owed
        → All (GotLine after) (owe writes line owed)
        → All (HasReceived (before ++ after)) (owe writes line owed)
    HasReceived-owe before after [] r = λ g. tt
    HasReceived-owe before after ((c, lines) ∷ owed) r = elim (Bool-cases (writes c)) [
      | inl e ↦ rw e (λ g. (
        lines_to-append c before after
            ∙ ap (◌++◌ (lines_to c before)) g.0
            ∙ ap (λ l. l ++ (line ∷ [])) r.0,
        HasReceived-owe before after owed r.1 g.1,
      ))
      | inr e ↦ rw e (λ g. HasReceived-owe before after owed r.1 g)
    ]
