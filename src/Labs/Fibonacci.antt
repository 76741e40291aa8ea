-- ===== src/Labs/Fibonacci.antt =====
-- The two ways to a Fibonacci number of solutions/01_environment/fibonacci/fibonacci.c. `long` is
-- modelled by integers without a bound; that the numbers fit is proved.
use mse_ma_csel.Common.{ℕ, zero, suc, ◌+◌, ◌-◌, ◌^◌, ◌≤◌, ◌<◌, ◌≡◌, refl, ap, arith}
use mse_ma_csel.Common.Int.{ℤ, pos, negsuc, ◌+ℤ◌, ◌-ℤ◌}

-- `fibonacci_r` from 0 on.
abbrev pub recurse : ℕ → ℕ
recurse zero = 0
recurse (suc zero) = 1
recurse (suc (suc n)) = recurse (suc n) + recurse n

unfoldable pub fibonacci_r : ℤ → ℤ
fibonacci_r (negsuc n) = negsuc n
fibonacci_r (pos n) = pos (recurse n)

-- `while (n > 0)`, at `f0` and `f1`; the result is `f0`.
unfoldable pub loop : ℕ → ℤ → ℤ → ℤ
unfolding ◌+ℤ◌ ◌-ℤ◌
loop zero f0 f1 = f0
loop (suc n) f0 f1 = let g1 = f1 +ℤ f0 in loop n (g1 -ℤ f0) g1

unfoldable pub fibonacci_i : ℤ → ℤ
unfolding loop
fibonacci_i (negsuc n) = pos 0
fibonacci_i (pos n) = loop n (pos 0) (pos 1)

add-pos : (a b : ℕ) → pos b +ℤ pos a ≡ pos (b + a)
unfolding ◌+ℤ◌
add-pos a b = ground arith

-- `f0 = f1 - f0` gives back the old `f1`.
sub-pos : (a b : ℕ) → pos (b + a) -ℤ pos a ≡ pos b
unfolding ◌-ℤ◌
sub-pos a b = ground arith

-- Two neighbours of the sequence, `n` steps on.
loop-recurse :
    (n k m : ℕ) → m ≡ n + k → loop n (pos (recurse k)) (pos (recurse (suc k))) ≡ pos (recurse m)
unfolding loop
loop-recurse zero k m e = ap (λ i. pos (recurse i)) (omega arith)
loop-recurse (suc n) k m e =
    rw (add-pos (recurse k) (recurse (suc k)))
      (rw (sub-pos (recurse k) (recurse (suc k))) (loop-recurse n (suc k) m (omega arith)))

recurse-suc : (n : ℕ) → recurse n ≤ recurse (suc n)
recurse-suc zero = omega arith
recurse-suc (suc zero) = omega arith
recurse-suc (suc (suc n)) = omega (arith, recurse-suc n)

recurse_mono : (d n m : ℕ) → m ≡ n + d → recurse n ≤ recurse m
recurse_mono zero n m e = let same : m ≡ n = omega arith in rw same (omega arith)
recurse_mono (suc d) n m e = omega (arith, recurse-suc n, recurse_mono d (suc n) m (omega arith))

-- For a number from 0 up to 91, the loop and the recursion agree, and the sequence's next number,
-- which is the largest that the loop computes, fits a `long` of 64 bits.
pub fibonacci_i-fibonacci_r :
    (n : ℕ) → n ≤ 91 → (fibonacci_i (pos n) ≡ fibonacci_r (pos n)) × (recurse (suc n) < 2 ^ 63)
unfolding fibonacci_i fibonacci_r
fibonacci_i-fibonacci_r n small =
    let last : recurse 92 ≡ 7540113804746346429 = refl in
    (
      loop-recurse n 0 n (omega arith),
      omega (arith, last, recurse_mono (91 - n) (suc n) 92 (omega arith)),
    )
