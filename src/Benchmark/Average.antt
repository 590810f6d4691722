-- ===== src/Benchmark/Average.antt =====
-- The average of the measured differences of the clocks.
use mathlib.Core.Path.{subst}
use native.Mathlib.Nat.{le-div_iff_mul-le, div-lt_iff_lt-mul}
use botbtc.Prelude.{
  ℕ, suc, ◌+◌, ◌*◌, ◌/◌, ◌≤◌, ◌<◌, ◌^◌, ℤ, pos, negsuc, pos_part, neg_part, ◌≤ℤ◌, add64,
  wrap64-eq_self, ◌+ℤ◌, ◌-ℤ◌, +ℤ_parts, sub64, ◌≡◌, refl, arith, List, [], ◌∷◌, length, All, some,
}
use botbtc.Benchmark.{quot, sum_from, average}

small : (k p : ℕ) → k ≤ 10 → p < 2 ^ 59 → k * p < 10 * 2 ^ 59
small k p h h' = grind (arith, h)

abbrev pub IsSmall : ℤ → Type 0
IsSmall a = (pos_part a < 2 ^ 59) × (neg_part a < 2 ^ 59)

-- k · lo ≤ total ≤ k · hi
abbrev IsSum : (lo hi : ℤ) → ℕ → ℤ → Type 0
IsSum lo hi k total =
    (k * pos_part lo + neg_part total ≤ pos_part total + k * neg_part lo)
    × (pos_part total + k * neg_part hi ≤ k * pos_part hi + neg_part total)

abbrev pub IsBetween : (lo hi : ℤ) → ℤ → Type 0
IsBetween lo hi d = (lo ≤ℤ d) × (d ≤ℤ hi)

abbrev IsModest : ℤ → Type 0
IsModest a = (pos_part a < 10 * 2 ^ 59) × (neg_part a < 10 * 2 ^ 59)

add64_modest : (a b : ℤ) → IsModest a → IsSmall b → add64 a b ≡ a +ℤ b
unfolding add64 ◌+ℤ◌
add64_modest a b h k = wrap64-eq_self (a +ℤ b) (ground arith, ground arith)

div_le : (n m p : ℕ) → 0 < n → m ≤ n * p → m / n ≤ p
div_le n m p h k =
    let less = (div-lt_iff_lt-mul {x = m} {y = suc p} h).1 (grind (arith, h, k)) in
    omega (arith, less)

le_div : (n m p : ℕ) → 0 < n → n * p ≤ m → p ≤ m / n
le_div n m p h k = (le-div_iff_mul-le h).1 (omega (arith, k))

-- The quotient of a negative number.
negated :
    (q : ℕ)
    → q < 2 ^ 63
    → (pos_part (sub64 (pos 0) (pos q)) ≡ 0) × (neg_part (sub64 (pos 0) (pos q)) ≡ q)
unfolding sub64 ◌-ℤ◌
negated q h = (ground arith, ground arith)

div-small : (n m : ℕ) → 0 < n → m < 2 ^ 63 → m / n < 2 ^ 63
div-small n m h k = let less = div_le n m m h (grind (arith, h)) in omega (arith, less, k)

-- A quotient of a negative number: nothing positive, and the quotient of its size.
quot-negsuc :
    (n m : ℕ)
    → 0 < n
    → m + 1 < 2 ^ 63
    → (pos_part (quot (negsuc m) n) ≡ 0) × (neg_part (quot (negsuc m) n) ≡ (m + 1) / n)
quot-negsuc n m h k = negated ((m + 1) / n) (div-small n (m + 1) h k)

quot-ge :
    (lo total : ℤ) (n : ℕ)
    → 0 < n
    → neg_part total < 2 ^ 63
    → n * pos_part lo + neg_part total ≤ pos_part total + n * neg_part lo
    → lo ≤ℤ quot total n
quot-ge (pos l) (pos m) n h k s = let le = le_div n m l h (omega (arith, s)) in omega (arith, le)
quot-ge (negsuc l) (pos m) n h k s = omega arith
quot-ge (pos l) (negsuc m) n h k s = absurd (omega (arith, s))
quot-ge (negsuc l) (negsuc m) n h k s =
    let parts = quot-negsuc n m h (omega (arith, k)) in
    let le = div_le n (m + 1) (suc l) h (omega (arith, s)) in omega (arith, parts.0, parts.1, le)

quot-le :
    (hi total : ℤ) (n : ℕ)
    → 0 < n
    → neg_part total < 2 ^ 63
    → pos_part total + n * neg_part hi ≤ n * pos_part hi + neg_part total
    → quot total n ≤ℤ hi
quot-le (pos l) (pos m) n h k s = let le = div_le n m l h (omega (arith, s)) in omega (arith, le)
quot-le (negsuc l) (pos m) n h k s = absurd (grind (arith, s, h))
quot-le (pos l) (negsuc m) n h k s =
    let parts = quot-negsuc n m h (omega (arith, k)) in omega (arith, parts.0)
quot-le (negsuc l) (negsuc m) n h k s =
    let parts = quot-negsuc n m h (omega (arith, k)) in
    let le = le_div n (m + 1) (suc l) h (omega (arith, s)) in omega (arith, parts.0, parts.1, le)

module _ (lo hi : ℤ) (lo_small : IsSmall lo) (hi_small : IsSmall hi) where
  sum-IsModest : (k : ℕ) (total : ℤ) → k ≤ 10 → IsSum lo hi k total → IsModest total
  sum-IsModest k (pos m) h s =
      let above = small k (pos_part hi) h hi_small.0 in
      let upper = s.1 in (omega (arith, above, upper), omega arith)
  sum-IsModest k (negsuc m) h s =
      let below = small k (neg_part lo) h lo_small.1 in
      let lower = s.0 in (omega arith, omega (arith, below, lower))

  between-IsSmall : (d : ℤ) → IsBetween lo hi d → IsSmall d
  between-IsSmall (pos m) b = let upper = b.1 in (omega (arith, hi_small.0, upper), omega arith)
  between-IsSmall (negsuc m) b = let lower = b.0 in (omega arith, omega (arith, lo_small.1, lower))

  add_one-IsSum :
      (k : ℕ) (total d : ℤ)
      → k < 10
      → IsSum lo hi k total
      → IsBetween lo hi d
      → IsSum lo hi (k + 1) (add64 total d)
  add_one-IsSum k total d h s b =
      let modest = sum-IsModest k total (omega (arith, h)) s in
      let parts = +ℤ_parts total d in
      let (lower, upper) = s in
      let (lower', upper') = b in
      rw (add64_modest total d modest (between-IsSmall d b))
        (omega (arith, parts, lower, lower'), omega (arith, parts, upper, upper'))

  IsSum-all :
      (deltas : List ℤ) (k : ℕ) (total : ℤ)
      → k + length deltas ≤ 10
      → IsSum lo hi k total
      → All (IsBetween lo hi) deltas
      → IsSum lo hi (k + length deltas) (sum_from total deltas)
  unfolding sum_from
  IsSum-all [] k total h s b = let same : k + 0 ≡ k = omega arith in rw same s
  IsSum-all (d ∷ deltas) k total h s b =
      let next : k + suc (length deltas) ≡ (k + 1) + length deltas = omega arith in
      rw next (
        IsSum-all deltas (k + 1) (add64 total d) (omega (arith, h))
          (add_one-IsSum k total d (omega (arith, h)) s b.0) b.1)

  quot-IsBetween :
      (n : ℕ) (total : ℤ) → 0 < n → n ≤ 10 → IsSum lo hi n total → IsBetween lo hi (quot total n)
  quot-IsBetween n total h h' s =
      let (_, modest) = sum-IsModest n total h' s in
      let no_overflow : neg_part total < 2 ^ 63 = omega (arith, modest) in
      (quot-ge lo total n h no_overflow s.0, quot-le hi total n h no_overflow s.1)

  -- The average of at most ten differences that lie between two bounds lies between them, and there is
  -- one as soon as there is a difference; the bounds are below 2^59 in size.
  pub average-IsBetween :
      (d : ℤ) (deltas : List ℤ)
      → length (d ∷ deltas) ≤ 10
      → All (IsBetween lo hi) (d ∷ deltas)
      → (avg : ℤ) × ((average (d ∷ deltas) ≡ some avg) × IsBetween lo hi avg)
  unfolding average
  average-IsBetween d deltas h b =
      let total = sum_from (pos 0) (d ∷ deltas) in
      let n = length (d ∷ deltas) in
      (
        quot total n,
        (
          refl,
          quot-IsBetween n total (omega arith) h (
              subst (λ k. IsSum lo hi k total) (omega arith)
                (IsSum-all (d ∷ deltas) 0 (pos 0) (omega (arith, h)) (omega arith, omega arith) b)),
        ),
      )
