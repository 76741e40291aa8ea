-- ===== src/Labs/Matrix.antt =====
-- src/05-optimization/ex01/basic.c and optimized.c: a matrix that is counted up. An element is an
-- `int32_t`, kept as its bit pattern below 2 ^ 32; the matrix is what stands at a row and a column.
use mse_ma_csel.Common.{
  ℕ, zero, suc, ◌+◌, ◌%◌, ◌^◌, ◌<◌, ◌≡◌, sym, ◌∙◌, Bool, ◌&&◌, ltb, leb, ◌==◌, if◌then◌else◌, arith,
}

-- `SIZE`
abbrev pub size : ℕ
size = 5000

abbrev pub Matrix : Type 0
Matrix = ℕ → ℕ → ℕ

-- `array[row][column] += n;`
unfoldable pub add : ℕ → ℕ → ℕ → Matrix → Matrix
add n row column array i j = if i == row && j == column then (array i j + n) % 2 ^ 32 else array i j

-- The inner loop of basic.c down a column, from `j` on with `left` to go.
abbrev pub count_column : ℕ → ℕ → ℕ → Matrix → Matrix
count_column zero j i array = array
count_column (suc left) j i array = count_column left (j + 1) i (add 1 j i array)

abbrev pub count_columns : ℕ → ℕ → ℕ → Matrix → Matrix
count_columns n zero i array = array
count_columns n (suc left) i array = count_columns n left (i + 1) (count_column n 0 i array)

abbrev pub count_rounds : ℕ → ℕ → Matrix → Matrix
count_rounds n zero array = array
count_rounds n (suc k) array = count_rounds n k (count_columns n n 0 array)

-- `main` of basic.c
unfoldable pub basic : Matrix → Matrix
basic array = count_rounds size 10 array

-- The inner loop of optimized.c along a row, from `j` on with `left` to go.
abbrev pub add_row : ℕ → ℕ → ℕ → Matrix → Matrix
add_row zero i j array = array
add_row (suc left) i j array = add_row left i (j + 1) (add 10 i j array)

abbrev pub add_rows : ℕ → ℕ → ℕ → Matrix → Matrix
add_rows n zero i array = array
add_rows n (suc left) i array = add_rows n left (i + 1) (add_row n i 0 array)

-- `main` of optimized.c
unfoldable pub optimized : Matrix → Matrix
optimized array = add_rows size size 0 array

-- The elements of a block, all counted up.
abbrev inside : ℕ → ℕ → ℕ → Bool
inside from left i = leb from i && ltb i (from + left)

count_column-at :
    (left j i x y : ℕ) (array : Matrix)
    → count_column left j i array x y
      ≡ (if inside j left x && y == i then (array x y + 1) % 2 ^ 32 else array x y)
unfolding add
count_column-at zero j i x y array = ground arith
count_column-at (suc left) j i x y array =
    ground (arith, count_column-at left (j + 1) i x y (add 1 j i array))

count_columns-at :
    (n left i x y : ℕ) (array : Matrix)
    → count_columns n left i array x y
      ≡ (if inside 0 n x && inside i left y then (array x y + 1) % 2 ^ 32 else array x y)
count_columns-at n zero i x y array = ground arith
count_columns-at n (suc left) i x y array = ground (
  arith,
  count_column-at n 0 i x y array,
  count_columns-at n left (i + 1) x y (count_column n 0 i array),
)

count_rounds-at :
    (n k x y : ℕ) (array : Matrix)
    → array x y < 2 ^ 32
    → count_rounds n k array x y
      ≡ (if inside 0 n x && inside 0 n y then (array x y + k) % 2 ^ 32 else array x y)
count_rounds-at n zero x y array w = ground (arith, w)
count_rounds-at n (suc k) x y array w = ground (
  arith,
  w,
  count_columns-at n n 0 x y array,
  count_rounds-at n k x y (count_columns n n 0 array),
)

add_row-at :
    (left i j x y : ℕ) (array : Matrix)
    → add_row left i j array x y
      ≡ (if x == i && inside j left y then (array x y + 10) % 2 ^ 32 else array x y)
unfolding add
add_row-at zero i j x y array = ground arith
add_row-at (suc left) i j x y array =
    ground (arith, add_row-at left i (j + 1) x y (add 10 i j array))

add_rows-at :
    (n left i x y : ℕ) (array : Matrix)
    → add_rows n left i array x y
      ≡ (if inside i left x && inside 0 n y then (array x y + 10) % 2 ^ 32 else array x y)
add_rows-at n zero i x y array = ground arith
add_rows-at n (suc left) i x y array =
    ground (arith, add_row-at n i 0 x y array, add_rows-at n left (i + 1) x y (add_row n i 0 array))

-- The program that walks along the rows once and adds 10 leaves the same matrix as the one that
-- walks down the columns ten times and adds 1, from any matrix of 32-bit patterns.
pub optimized-basic_matrix :
    (array : Matrix) (x y : ℕ) → array x y < 2 ^ 32 → optimized array x y ≡ basic array x y
unfolding optimized basic
optimized-basic_matrix array x y w =
    add_rows-at size size 0 x y array ∙ sym (count_rounds-at size 10 x y array w)
