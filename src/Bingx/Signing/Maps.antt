-- ===== src/Bingx/Signing/Maps.antt =====
-- The parameters of a request as a Go map: what its keys are mapped to, without an order.
use mathlib.Core.HLevel.{hedberg}
use mathlib.Core.Option
use mathlib.Core.Quot
use mathlib.Core.Quot.{Quot, Quot-set}
use botbtc.Prelude.{
  ◌≡◌, ◌↔◌, refl, ap, Bool-cases, inl, inr, arith, str_eq, eq_iff, Option, String, List, Dict,
  lookup,
}
use botbtc.Bingx.Signing.{keys, build_query_string, sign_request}
use botbtc.Bingx.Signing.Determinism.{IsIn, IsAscending, same_query}

String_set : IsSet String
String_set = hedberg λ s t. elim (Bool-cases (str_eq s t)) [
  | inl e ↦ yes ((eq_iff s t).0 e)
  | inr e ↦ no (λ same. grind (arith, e, same, eq_iff s t))
]

-- What the sorting of a map's keys is relied on for: it keeps them, and puts them into a strict order.
pub record IsSorting (sort : List String → List String) (Before : String → String → Type 0)
    : Type 0 where
  pub irreflexive : (s : String) → ¬ Before s s
  pub transitive : (s t u : String) → Before s t → Before t u → Before s u
  pub kept : (ks : List String) (key : String) → IsIn key (sort ks) ↔ IsIn key ks

module _ (sort : List String → List String) (hmac : String → String → String)
    (Before : String → String → Type 0) (sorting : IsSorting sort Before) where
  -- An association list whose keys, sorted, ascend strictly: none stands in it twice.
  abbrev pub Listed : Type 0
  Listed = (params : Dict String) × IsAscending Before (sort (keys params))

  abbrev pub SameValues : Listed → Listed → Type 0
  SameValues p q = (key : String) → lookup key p.0 ≡ lookup key q.0

  -- Such lists up to their order.
  abbrev pub Params : Type 0
  Params = Quot SameValues

  pub value_at : String → Params → Option String
  value_at key = Quot.lift (Option.is_set String_set) (λ p. lookup key p.0) (λ p q same. same key)

  -- `BuildQueryString` and `SignRequest` of a map.
  pub query_of : Params → String
  query_of =
      Quot.lift String_set (λ p. build_query_string sort p.0)
        (λ p q same.
          same_query sort Before sorting.irreflexive sorting.transitive p.0 q.0 sorting.kept p.1 q.1
            same)

  pub signature_of : (api_secret : String) → Params → String
  unfolding query_of
  signature_of api_secret params = hmac api_secret (query_of params)

  -- The values of a map are those of the list.
  pub value_at-mk :
      (key : String) (p q : Listed)
      → lookup key p.0 ≡ lookup key q.0
      → value_at key (Quot.mk p) ≡ value_at key (Quot.mk q)
  unfolding value_at
  value_at-mk key p q same = same

  -- Two of them with the same values at their keys are the same.
  Params-ext : (a b : Params) → ((key : String) → value_at key a ≡ value_at key b) → a ≡ b
  unfolding value_at
  Params-ext =
      Quot.ind (λ a. hlevel (Quot-set))
        λ p. Quot.ind (λ b. hlevel (Quot-set)) λ q same. Quot.sound same

  -- The query and its signature are functions of the Go map: of an association list up to the order of its
  -- entries, on which they are what BuildQueryString and SignRequest compute; and they depend on nothing but
  -- the values at its keys. It is assumed that sorting keeps the keys and gives them a strict order.
  pub query_of-Params :
      (api_secret : String) (p : Listed) (a b : Params)
      → ((key : String) → value_at key a ≡ value_at key b)
      → (query_of (Quot.mk p) ≡ build_query_string sort p.0)
        × (signature_of api_secret (Quot.mk p) ≡ sign_request sort hmac api_secret p.0)
        × (query_of a ≡ query_of b)
        × (signature_of api_secret a ≡ signature_of api_secret b)
  unfolding query_of signature_of sign_request
  query_of-Params api_secret p a b same =
      let e = Params-ext a b same in (refl, refl, ap query_of e, ap (signature_of api_secret) e)
