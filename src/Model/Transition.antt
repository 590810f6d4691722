-- ===== src/Model/Transition.antt =====
-- server/internal/model: the search in a table of allowed transitions, which the three
-- `CanTransitionTo` methods share.
use botbtc.Prelude.{
  ℕ, suc, ◌+◌, ◌≤◌, ◌<◌, ◌⊎◌, inl, inr, ◌≡◌, refl, Bool, true, false, Option, none, some, List, [],
  ◌∷◌, All, String, str_eq, eq_iff, arith, if◌then◌else◌,
}

-- The outcome of `CanTransitionTo`: nil, or one of its two errors.
pub data Transition : Type 0 where
  allowed unknown_state invalid : Transition

unfoldable pub String-discrete : Discrete String
String-discrete s t =
    elim (str_eq s t) as (λ b. (str_eq s t ≡ b) → Dec (s ≡ t)) [
      | true ↦ λ e. yes ((eq_iff s t).0 e)
      | false ↦ λ e. no (λ p. ground (arith, eq_iff s t))
    ]
      refl

-- `==` of two states.
abbrev pub same : {S : Type 0} → Discrete S → S → S → Bool
same dec a b = elim (dec a b) [ yes _ ↦ true | no _ ↦ false ]

module _ {S : Type 0} (dec : Discrete S) where
  -- `for _, a := range allowed { if a == target { return nil } }`
  abbrev pub search_table : List S → S → Transition
  search_table [] target = invalid
  search_table (a ∷ table) target = if same dec a target then allowed else search_table table target

  abbrev pub check_table : Option (List S) → S → Transition
  check_table none target = unknown_state
  check_table (some table) target = search_table table target

  pub search_table-All :
      (P : S → Type 0) (table : List S) (target : S)
      → All P table
      → search_table table target ≡ allowed
      → P target
  search_table-All P [] target h e = absurd (ground arith)
  search_table-All P (a ∷ table) target h e =
      elim (dec a target)
          as (λ d. ((elim d [ yes _ ↦ true | no _ ↦ false ]) ≡ same dec a target) → P target) [
            | yes p ↦ λ _. rw p at h.0
            | no p ↦ λ q. search_table-All P table target h.1 (ground arith)
          ]
        refl

  abbrev pub AllIn : (S → Type 0) → Option (List S) → Type 0
  AllIn P none = Unit
  AllIn P (some table) = All P table

  -- What holds of every entry of a table holds of the target of an allowed change.
  pub check_table-All :
      (P : S → Type 0) (entry : Option (List S)) (target : S)
      → AllIn P entry
      → check_table entry target ≡ allowed
      → P target
  check_table-All P none target h e = cc
  check_table-All P (some table) target h e = search_table-All P table target h e

-- A life that starts in `s`: changes of state that the table allows, one after the other.
module _ {S : Type 0} (can : S → S → Transition) where
  pub data Life (s : S) : S → Type 0 where
    here : Life s s
    next : {t u : S} → Life s t → can t u ≡ allowed → Life s u

  pub changes : {s t : S} → Life s t → ℕ
  changes here = 0
  changes (next p e) = suc (changes p)

  -- A rank that every allowed change raises bounds the number of changes.
  pub changes-le_rank :
      (rank : S → ℕ)
      → ((t u : S) → can t u ≡ allowed → rank t < rank u)
      → {s t : S} (p : Life s t) → rank s + changes p ≤ rank t
  unfolding changes
  changes-le_rank rank rises here = omega arith
  changes-le_rank rank rises (next {t} {u} p e) =
      omega (arith, changes-le_rank rank rises p, rises t u e)

  -- A stage that is entered only from itself and from the state `gate` lies behind `gate`.
  pub Life-through :
      (gate : S) (stage : S → Bool)
      → ((t u : S) → can t u ≡ allowed → stage u ≡ true → (t ≡ gate) ⊎ (stage t ≡ true))
      → {s t : S} → Life s t
      → stage s ≡ false
      → stage t ≡ true
      → Life s gate × Life gate t
  Life-through gate stage entry here out inside = cc
  Life-through gate stage entry (next {t} {u} p e) out inside = elim (entry t u e inside) [
    | inl q ↦ (rw q at p, next (rw (← q) here) e)
    | inr q ↦ let (before, after) = Life-through gate stage entry p out q in (before, next after e)
  ]
