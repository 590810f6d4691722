-- ===== src/Bridge/Words.antt =====
-- The first word or number that is given, and what `ParseSignal` makes of a message's words.
use botbtc.Prelude.{
  ℤ, pos, eq_ℤ, ◌≡◌, ◌⊎◌, refl, sym, ap, arith, Bool-cases, inl, inr, true, not, ◌&&◌, String, List,
  [], ◌∷◌, str_eq, eq_iff, if◌then◌else◌,
}
use botbtc.Bridge.{CustomSignal, side_of, resolve_side, or_int}

-- The first text that is not empty, and the first number that is not 0.
unfoldable pub first_text : List String → String
first_text [] = ""
first_text (s ∷ later) = if str_eq s "" then first_text later else s

unfoldable pub first_int : List ℤ → ℤ
first_int [] = pos 0
first_int (n ∷ later) = if eq_ℤ n (pos 0) then first_int later else n

abbrev pub IsSide : String → Type 0
IsSide side = (side ≡ "BUY") ⊎ (side ≡ "SELL")

or_text :
    (s t : String) → (if str_eq s "" && not (str_eq t "") then t else s) ≡ first_text (s ∷ t ∷ [])
unfolding first_text
or_text s t = ground (arith, eq_iff s "", eq_iff t "")

pub same_text : (s t : String) → str_eq s t ≡ true → s ≡ t
same_text s t h = ground (arith, eq_iff s t)

side_of-empty : (signal : String) → str_eq (side_of signal) "" ≡ str_eq signal ""
side_of-empty signal = elim (Bool-cases (str_eq signal "LONG")) [
  | inl long ↦ rw long (sym (ap (λ t. str_eq t "") (same_text signal "LONG" long)))
  | inr not_long ↦ elim (Bool-cases (str_eq signal "SHORT")) [
    | inl short ↦
        rw (not_long, short) (sym (ap (λ t. str_eq t "") (same_text signal "SHORT" short)))
    | inr not_short ↦ rw (not_long, not_short) refl
  ]
]

first_text-flat :
    (s t u : String) → first_text (first_text (s ∷ t ∷ []) ∷ u ∷ []) ≡ first_text (s ∷ t ∷ u ∷ [])
unfolding first_text
first_text-flat s t u = ground (arith, eq_iff s "", eq_iff t "", eq_iff u "")

pub resolve_side_lem :
    {F : Type 0} (custom : CustomSignal F) (side : String)
    → resolve_side custom side ≡ first_text (side ∷ custom.side ∷ side_of custom.signal ∷ [])
unfolding resolve_side
resolve_side_lem custom side =
    rw
      (
        or_text side custom.side,
        ← side_of-empty custom.signal,
        or_text (first_text (side ∷ custom.side ∷ [])) (side_of custom.signal),
      )
      (first_text-flat side custom.side (side_of custom.signal))

pub or_int_lem : (n other : ℤ) → or_int n other ≡ first_int (n ∷ other ∷ [])
unfolding or_int first_int
or_int_lem n other = ground arith

pub text_unless_empty : (s : String) → s ≡ first_text (s ∷ [])
unfolding first_text
text_unless_empty s = ground (arith, eq_iff s "")

pub int_unless_zero : (n : ℤ) → n ≡ first_int (n ∷ [])
unfolding first_int
int_unless_zero n = ground arith
