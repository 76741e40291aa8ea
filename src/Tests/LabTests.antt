-- ===== src/Tests/LabTests.antt =====
-- The labs' theorems at concrete inputs.
use mathlib.Core.List.{Permᴰ}
use mse_ma_csel.Common.{
  ℕ, ◌*◌, ◌^◌, ◌<◌, ◌≡◌, refl, Bool-cases, inl, inr, List, [], ◌∷◌, leb, if◌then◌else◌,
}
use mse_ma_csel.Common.Int.{pos, negsuc}
use mse_ma_csel.Labs.Fibonacci.{fibonacci_r, fibonacci_i}
use mse_ma_csel.Labs.Sum.{basic, optimized, optimized-basic}

-- Below zero the two ways differ.
fibonacci_below_zero : (fibonacci_i (negsuc 0) ≡ pos 0) × (fibonacci_r (negsuc 0) ≡ negsuc 0)
unfolding fibonacci_i fibonacci_r
fibonacci_below_zero = (refl, refl)

-- A sort, in the place of `qsort`.
abbrev insert : ℕ → List ℕ → List ℕ
insert x [] = x ∷ []
insert x (y ∷ ys) = let rest = insert x ys in if leb x y then x ∷ y ∷ ys else y ∷ rest

abbrev sort : List ℕ → List ℕ
sort [] = []
sort (x ∷ xs) = insert x (sort xs)

same_order : (xs : List ℕ) → Permᴰ xs xs
same_order [] = Permᴰ.nil
same_order (x ∷ xs) = Permᴰ.cons refl (same_order xs)

insert-Perm : (x : ℕ) (ys : List ℕ) → Permᴰ (x ∷ ys) (insert x ys)
insert-Perm x [] = same_order (x ∷ [])
insert-Perm x (y ∷ ys) = elim (Bool-cases (leb x y)) [
  | inl small ↦ rw small (same_order (x ∷ y ∷ ys))
  | inr large ↦ rw large (Permᴰ.trans (Permᴰ.swap refl refl) (Permᴰ.cons refl (insert-Perm x ys)))
]

sort-Perm : (xs : List ℕ) → Permᴰ xs (sort xs)
sort-Perm [] = Permᴰ.nil
sort-Perm (x ∷ xs) = Permᴰ.trans (Permᴰ.cons refl (sort-Perm xs)) (insert-Perm x (sort xs))

optimized-basic_example :
    (optimized sort (λ i. 7919 * i) ≡ basic (λ i. 7919 * i)) × (basic (λ i. 7919 * i) < 2 ^ 63)
optimized-basic_example = optimized-basic sort (λ i. 7919 * i) sort-Perm
