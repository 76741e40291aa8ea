-- ===== src/Labs/Sum.antt =====
-- The two programs of src/05-optimization/ex02, which add up large random numbers: basic.c as they
-- come, optimized.c sorted first. `rand` and `qsort` are code of the C library: `rand` gives any
-- numbers, and `qsort` any permutation.
use mathlib.Core.List.{Permᴰ}
use mse_ma_csel.Common.{
  ℕ, zero, suc, ◌+◌, ◌*◌, ◌%◌, ◌^◌, ◌≤◌, ◌<◌, ◌≡◌, refl, sym, ap, ◌∙◌, List, [], ◌∷◌, leb,
  if◌then◌else◌, arith,
}

-- `SIZE`
abbrev pub data_size : ℕ
data_size = 65536

-- `data[i] = rand() % 512`, where the `i`-th call of `rand` gives `rand i`.
unfoldable pub generate : (ℕ → ℕ) → ℕ → List ℕ
generate rand zero = []
generate rand (suc n) = rand 0 % 512 ∷ generate (λ i. rand (suc i)) n

-- `for (int i = 0; i < SIZE; i++)`, with `sum` before it.
unfoldable pub add_large : List ℕ → ℕ → ℕ
add_large [] sum = sum
add_large (x ∷ xs) sum = add_large xs (if leb 256 x then sum + x else sum)

-- `for (int j = 0; j < 10000; j++)`, from `n` rounds on.
unfoldable pub add_rounds : ℕ → List ℕ → ℕ → ℕ
add_rounds zero xs sum = sum
add_rounds (suc n) xs sum = add_rounds n xs (add_large xs sum)

-- The sum that `main` of basic.c prints.
unfoldable pub basic : (ℕ → ℕ) → ℕ
basic rand = add_rounds 10000 (generate rand data_size) 0

-- The sum that `main` of optimized.c prints.
unfoldable pub optimized : (List ℕ → List ℕ) → (ℕ → ℕ) → ℕ
optimized qsort rand = add_rounds 10000 (qsort (generate rand data_size)) 0

add_large-Perm : {xs ys : List ℕ} → Permᴰ xs ys → (sum : ℕ) → add_large xs sum ≡ add_large ys sum
unfolding add_large
add_large-Perm Permᴰ.nil sum = refl
add_large-Perm (Permᴰ.cons {a} {b} {l₁} {l₂} e p) sum =
    rw e (add_large-Perm p (if leb 256 b then sum + b else sum))
add_large-Perm (Permᴰ.swap {a} {b} {a'} {b'} {l} e f) sum =
    rw (e, f) (ap (add_large l) (ground arith))
add_large-Perm (Permᴰ.trans p q) sum = add_large-Perm p sum ∙ add_large-Perm q sum

add_rounds-Perm :
    {xs ys : List ℕ} → Permᴰ xs ys → (n sum : ℕ) → add_rounds n xs sum ≡ add_rounds n ys sum
unfolding add_rounds
add_rounds-Perm p zero sum = refl
add_rounds-Perm {xs} {ys} p (suc n) sum =
    rw (add_large-Perm p sum) (add_rounds-Perm p n (add_large ys sum))

add_large-generate : (rand : ℕ → ℕ) (n sum : ℕ) → add_large (generate rand n) sum ≤ sum + 511 * n
unfolding add_large generate
add_large-generate rand zero sum = omega arith
add_large-generate rand (suc n) sum =
    let x = rand 0 % 512 in
    let next = if leb 256 x then sum + x else sum in
    let grows : next ≤ sum + 511 = ground arith in
    omega (arith, grows, add_large-generate (λ i. rand (suc i)) n next)

-- 511 * 65536 for a round.
add_rounds-generate :
    (rand : ℕ → ℕ) (n sum : ℕ) → add_rounds n (generate rand data_size) sum ≤ sum + 33488896 * n
unfolding add_rounds
add_rounds-generate rand zero sum = omega arith
add_rounds-generate rand (suc n) sum =
    let next = add_large (generate rand data_size) sum in
    omega (arith, add_large-generate rand data_size sum, add_rounds-generate rand n next)

-- Whatever the random numbers are, and however `qsort` permutes them, both programs print the same
-- sum, and it fits a `long long` of 64 bits.
pub optimized-basic :
    (qsort : List ℕ → List ℕ) (rand : ℕ → ℕ)
    → ((xs : List ℕ) → Permᴰ xs (qsort xs))
    → (optimized qsort rand ≡ basic rand) × (basic rand < 2 ^ 63)
unfolding optimized basic
optimized-basic qsort rand permutes = (
  sym (add_rounds-Perm (permutes (generate rand data_size)) 10000 0),
  omega (arith, add_rounds-generate rand 10000 0),
)
