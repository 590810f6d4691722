-- ===== src/Prelude/Maps.antt =====
-- A Go map with string keys, as an association list in which a key occurs at most once.
use Prim.Native.String.{String}
use mathlib.Core.Path.{◌≡◌, refl}
use mathlib.Core.List.{List, [], ◌∷◌}
use mathlib.Core.Option.{Option, none, some}
use native.Mathlib.Omega.{arith}
use botbtc.Prelude.Tests.{if◌then◌else◌, str_eq, eq_iff, eq_refl}

abbrev pub Dict {ℓ} : Type ℓ → Type ℓ
Dict V = List (String × V)

module _ {ℓ} {V : Type ℓ} where
  -- `v, ok := m[key]`
  unfoldable pub lookup : String → Dict V → Option V
  lookup key [] = none
  lookup key ((at, found) ∷ rest) = if str_eq at key then some found else lookup key rest

  -- `m[key] = value`
  unfoldable pub insert : String → V → Dict V → Dict V
  insert key value [] = (key, value) ∷ []
  insert key value ((at, old) ∷ rest) =
      if str_eq at key then (key, value) ∷ rest else (at, old) ∷ insert key value rest

  pub lookup-insert :
      (key asked : String) (value : V) (dict : Dict V)
      → lookup asked (insert key value dict)
        ≡ (if str_eq key asked then some value else lookup asked dict)
  unfolding lookup insert
  lookup-insert key asked value [] = refl
  lookup-insert key asked value ((at, old) ∷ rest) =
      ground (
        arith,
        lookup-insert key asked value rest,
        eq_iff at asked,
        eq_iff at key,
        eq_iff key asked,
      )

  -- What was written is read.
  pub lookup-insert_self :
      (key : String) (value : V) (dict : Dict V) → lookup key (insert key value dict) ≡ some value
  lookup-insert_self key value dict = simp (lookup-insert, eq_refl)
