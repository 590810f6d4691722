-- ===== src/Metrics/Rotation.antt =====
-- Lists read from an index on and then from their start, as a window that is overwritten in a circle.
use mathlib.Core.List.{append_assoc, append-nil}
use botbtc.Prelude.{
  ℕ, zero, suc, ◌≤◌, ◌<◌, ◌≡◌, refl, sym, ap, arith, inl, inr, List, [], ◌∷◌, ◌++◌, ◌⊎◌, length,
  drop,
}
use botbtc.Metrics.{set}

module _ {ℓ} {A : Type ℓ} where
  abbrev pub take : ℕ → List A → List A
  take zero xs = []
  take (suc n) [] = []
  take (suc n) (x ∷ xs) = x ∷ take n xs

  pub length-set : (xs : List A) (i : ℕ) (v : A) → length (set xs i v) ≡ length xs
  length-set [] i v = refl
  length-set (x ∷ xs) zero v = refl
  length-set (x ∷ xs) (suc i) v = ap suc (length-set xs i v)

  pub drop-set : (xs : List A) (i : ℕ) (v : A) → drop (suc i) (set xs i v) ≡ drop (suc i) xs
  drop-set [] i v = refl
  drop-set (x ∷ xs) zero v = refl
  drop-set (x ∷ xs) (suc i) v = drop-set xs i v

  pub take-set :
      (xs : List A) (i : ℕ) (v : A)
      → i < length xs
      → take (suc i) (set xs i v) ≡ take i xs ++ (v ∷ [])
  take-set [] i v h = absurd (omega arith)
  take-set (x ∷ xs) zero v h = refl
  take-set (x ∷ xs) (suc i) v h = ap (◌∷◌ x) (take-set xs i v (omega arith))

  -- `xs[n:]` followed by `xs[:n]`
  abbrev pub rotate : ℕ → List A → List A
  rotate n xs = drop n xs ++ take n xs

  pub drop-suc : (i : ℕ) (xs : List A) → drop (suc i) xs ≡ drop 1 (drop i xs)
  drop-suc zero xs = refl
  drop-suc (suc i) [] = refl
  drop-suc (suc i) (x ∷ xs) = drop-suc i xs

  pub drop_front-append :
      (i : ℕ) (xs ys : List A) → i < length xs → drop 1 (drop i xs ++ ys) ≡ drop (suc i) xs ++ ys
  drop_front-append zero [] ys h = absurd (omega arith)
  drop_front-append zero (x ∷ xs) ys h = refl
  drop_front-append (suc i) [] ys h = absurd (omega arith)
  drop_front-append (suc i) (x ∷ xs) ys h = drop_front-append i xs ys (omega arith)

  -- Overwriting the oldest element of a rotated list.
  pub rotate-set :
      (xs : List A) (i : ℕ) (v : A)
      → i < length xs
      → rotate (suc i) (set xs i v) ≡ drop 1 (rotate i xs) ++ (v ∷ [])
  rotate-set xs i v h =
      rw (drop-set xs i v, take-set xs i v h, drop_front-append i xs (take i xs) h)
        (sym (append_assoc (drop (suc i) xs) (take i xs) (v ∷ [])))

  pub drop-length : (xs : List A) → drop (length xs) xs ≡ []
  drop-length [] = refl
  drop-length (x ∷ xs) = drop-length xs

  pub take-length : (xs : List A) → take (length xs) xs ≡ xs
  take-length [] = refl
  take-length (x ∷ xs) = ap (◌∷◌ x) (take-length xs)

  pub rotate-length : (xs : List A) → rotate (length xs) xs ≡ xs
  rotate-length xs = rw (drop-length xs, take-length xs) refl

  pub rotate-whole : (xs : List A) (i : ℕ) → (i ≡ 0) ⊎ (i ≡ length xs) → rotate i xs ≡ xs
  rotate-whole xs i (inl e) = rw e (append-nil xs)
  rotate-whole xs i (inr e) = rw e (rotate-length xs)

  pub drop-append-le :
      (i : ℕ) (xs ys : List A) → i ≤ length xs → drop i (xs ++ ys) ≡ drop i xs ++ ys
  drop-append-le zero xs ys h = refl
  drop-append-le (suc i) [] ys h = absurd (omega arith)
  drop-append-le (suc i) (x ∷ xs) ys h = drop-append-le i xs ys (omega arith)
