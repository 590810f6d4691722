-- ===== src/Bingx/Signing/Determinism.antt =====
-- The query string and the order of the map that it is built from.
use mathlib.Core.Path.{subst}
use botbtc.Prelude.{
  ◌≡◌, ◌≢◌, ◌⊎◌, ◌↔◌, inl, inr, refl, sym, ap, ◌∙◌, arith, Bool-cases, none, some, String, str_eq,
  eq_iff, List, [], ◌∷◌, All, Dict, lookup,
}
use botbtc.Bingx.Signing.{value_of, keys, more_pairs, join_pairs, build_query_string}

abbrev pub IsIn : String → List String → Type 0
IsIn key [] = ⊥
IsIn key (k ∷ later) = (key ≡ k) ⊎ IsIn key later

module _ (Before : String → String → Type 0) where
  -- Each text stands before all later ones.
  abbrev pub IsAscending : List String → Type 0
  IsAscending [] = Unit
  IsAscending (k ∷ later) = All (Before k) later × IsAscending later

  Before-in :
      (k found : String) (later : List String)
      → All (Before k) later
      → IsIn found later
      → Before k found
  Before-in k found [] h m = absurd m
  Before-in k found (a ∷ later) (h, hs) (inl e) = subst (Before k) (sym e) h
  Before-in k found (a ∷ later) (h, hs) (inr m) = Before-in k found later hs m

  module _ (before_irrefl : (s : String) → ¬ Before s s)
      (before_trans : (s t u : String) → Before s t → Before t u → Before s u) where
    heads :
        (a b : String) (xs ys : List String)
        → IsAscending (a ∷ xs)
        → IsAscending (b ∷ ys)
        → IsIn a (b ∷ ys)
        → IsIn b (a ∷ xs)
        → a ≡ b
    heads a b xs ys h k (inl e) m' = e
    heads a b xs ys h k (inr m) (inl e) = sym e
    heads a b xs ys h k (inr m) (inr m') =
        absurd
          (before_irrefl a (before_trans a b a (Before-in a b xs h.0 m') (Before-in b a ys k.0 m)))

    tails :
        (a key : String) (xs ys : List String)
        → IsAscending (a ∷ xs)
        → IsIn key xs
        → IsIn key (a ∷ ys)
        → IsIn key ys
    tails a key xs ys h m (inl e) =
        absurd (before_irrefl a (subst (Before a) e (Before-in a key xs h.0 m)))
    tails a key xs ys h m (inr m') = m'

    -- Ascending lists of the same texts are the same.
    same_lists :
        (xs ys : List String)
        → IsAscending xs
        → IsAscending ys
        → ((key : String) → IsIn key xs → IsIn key ys)
        → ((key : String) → IsIn key ys → IsIn key xs)
        → xs ≡ ys
    same_lists [] [] h k to from = refl
    same_lists [] (b ∷ ys) h k to from = absurd (from b (inl refl))
    same_lists (a ∷ xs) [] h k to from = absurd (to a (inl refl))
    same_lists (a ∷ xs) (b ∷ ys) h k to from =
        let e = heads a b xs ys h k (to a (inl refl)) (from b (inl refl)) in
        let k' : IsAscending (a ∷ ys) = subst (λ c. IsAscending (c ∷ ys)) (sym e) k in
        ap (◌∷◌ a) (
          same_lists xs ys h.1 k'.1
            (λ key m.
              tails a key xs ys h m (subst (λ c. IsIn key (c ∷ ys)) (sym e) (to key (inr m))))
            (λ key m. tails a key ys xs k' m (subst (λ c. IsIn key (a ∷ xs)) e (from key (inr m)))))
        ∙ ap (λ c. c ∷ ys) e

IsIn-lookup :
    (key : String) (params : Dict String) → IsIn key (keys params) → lookup key params ≢ none
unfolding lookup
IsIn-lookup key [] m = absurd m
IsIn-lookup key ((at, value) ∷ params) m = elim (Bool-cases (str_eq at key)) [
  | inl e ↦ rw e (λ h. grind (arith, h))
  | inr e ↦ rw e (
      IsIn-lookup key params
        (elim m [ inl same ↦ absurd (ground (arith, e, same, eq_iff at key)) | inr m' ↦ m' ]))
]

lookup-IsIn :
    (key : String) (params : Dict String) → lookup key params ≢ none → IsIn key (keys params)
unfolding lookup
lookup-IsIn key [] h = h refl
lookup-IsIn key ((at, value) ∷ params) h = elim (Bool-cases (str_eq at key)) [
  | inl e ↦ inl (ground (arith, eq_iff at key))
  | inr e ↦ inr (lookup-IsIn key params (rw e at h))
]

module _ (p q : Dict String) (same : (key : String) → lookup key p ≡ lookup key q) where
  same_values : (key : String) → value_of p key ≡ value_of q key
  same_values key = ap (λ o. elim o [ none ↦ "" | some value ↦ value ]) (same key)

  same_more : (ks : List String) → more_pairs p ks ≡ more_pairs q ks
  unfolding more_pairs
  same_more [] = refl
  same_more (key ∷ later) = rw (same_values key, same_more later) refl

  same_joined : (ks : List String) → join_pairs p ks ≡ join_pairs q ks
  unfolding join_pairs
  same_joined [] = refl
  same_joined (key ∷ later) = rw (same_values key, same_more later) refl

  same_members : (key : String) → IsIn key (keys p) → IsIn key (keys q)
  same_members key m = lookup-IsIn key q (subst (λ o. o ≢ none) (same key) (IsIn-lookup key p m))

module _ (sort : List String → List String) (Before : String → String → Type 0)
    (before_irrefl : (s : String) → ¬ Before s s)
    (before_trans : (s t u : String) → Before s t → Before t u → Before s u) where
  -- Two parameter maps with the same values have the same query string, whatever the order in which their
  -- keys are visited: if sorting keeps the keys and puts those of both maps into an ascending order.
  pub same_query :
      (p q : Dict String)
      → ((ks : List String) (key : String) → IsIn key (sort ks) ↔ IsIn key ks)
      → IsAscending Before (sort (keys p))
      → IsAscending Before (sort (keys q))
      → ((key : String) → lookup key p ≡ lookup key q)
      → build_query_string sort p ≡ build_query_string sort q
  unfolding build_query_string
  same_query [] [] kept asc_p asc_q same = refl
  same_query [] (b ∷ q) kept asc_p asc_q same =
      absurd (same_members (b ∷ q) [] (λ key. sym (same key)) b.0 (inl refl))
  same_query (a ∷ p) [] kept asc_p asc_q same = absurd (same_members (a ∷ p) [] same a.0 (inl refl))
  same_query (a ∷ p) (b ∷ q) kept asc_p asc_q same =
      let ks = keys (a ∷ p) in
      let ls = keys (b ∷ q) in
      let to : (key : String) → IsIn key (sort ks) → IsIn key (sort ls) =
        λ key m. (kept ls key).1 (same_members (a ∷ p) (b ∷ q) same key ((kept ks key).0 m)) in
      let from : (key : String) → IsIn key (sort ls) → IsIn key (sort ks) = λ key m.
        (kept ks key).1
          (same_members (b ∷ q) (a ∷ p) (λ k. sym (same k)) key ((kept ls key).0 m)) in
      same_joined (a ∷ p) (b ∷ q) same (sort ks)
      ∙ ap (join_pairs (b ∷ q))
          (same_lists Before before_irrefl before_trans (sort ks) (sort ls) asc_p asc_q to from)
