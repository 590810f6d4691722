-- ===== src/Storage/Calls.antt =====
-- The calls of file.Write by the event writer, and what the file then holds.
use botbtc.Prelude.{
  ◌≡◌, refl, ap, ◌∙◌, ◌⊎◌, inl, inr, Bool, true, false, Option, List, [], ◌∷◌, ◌++◌, if◌then◌else◌,
}
use botbtc.Storage.{write_lines}

-- The lines that were given to file.Write, in order; those of the calls that succeeded, which the file
-- holds; and that a call failed.
abbrev pub given : {Line : Type 0} → List (Line × Bool) → List Line
given [] = []
given ((l, success) ∷ calls) = l ∷ given calls

abbrev pub kept : {Line : Type 0} → List (Line × Bool) → List Line
kept [] = []
kept ((l, success) ∷ calls) = let rest = kept calls in if success then l ∷ rest else rest

abbrev pub HasFailure : {Line : Type 0} → List (Line × Bool) → Type 0
HasFailure [] = ⊥
HasFailure ((l, success) ∷ calls) = (success ≡ false) ⊎ HasFailure calls

pub kept_or_failed :
    {Line : Type 0} (calls : List (Line × Bool)) → (kept calls ≡ given calls) ⊎ HasFailure calls
kept_or_failed [] = inl refl
kept_or_failed ((l, true) ∷ calls) = elim (kept_or_failed calls) [
  | inl e ↦ inl (ap (◌∷◌ l) e)
  | inr h ↦ inr (inr h)
]
kept_or_failed ((l, false) ∷ calls) = inr (inl refl)

given-append :
    {Line : Type 0} (xs ys : List (Line × Bool)) → given (xs ++ ys) ≡ given xs ++ given ys
given-append [] ys = refl
given-append ((l, success) ∷ xs) ys = ap (◌∷◌ l) (given-append xs ys)

module _ {Event Line : Type 0} (line : Event → Option Line)
    (writes : List (Line × Bool) → Line → Bool) where
  given-write_lines :
      (calls : List (Line × Bool)) (lines : List Line)
      → given (write_lines line writes calls lines) ≡ lines
  unfolding write_lines
  given-write_lines calls [] = refl
  given-write_lines calls (l ∷ lines) =
      ap (◌∷◌ l) (given-write_lines (calls ++ ((l, writes calls l) ∷ [])) lines)

  pub given-more :
      (calls : List (Line × Bool)) (lines : List Line)
      → given (calls ++ write_lines line writes calls lines) ≡ given calls ++ lines
  given-more calls lines =
      given-append calls (write_lines line writes calls lines)
      ∙ ap (◌++◌ (given calls)) (given-write_lines calls lines)
