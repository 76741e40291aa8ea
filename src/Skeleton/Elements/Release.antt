-- ===== src/Skeleton/Elements/Release.antt =====
-- What the list holds after the load, and what the unload frees.
use mse_ma_csel.Common.{
  ℕ, zero, suc, ◌+◌, ◌%◌, ◌≤◌, ◌<◌, ◌≡◌, refl, ◌&&◌, Bool, true, false, none, some, List, [], ◌∷◌,
  ◌++◌, ◌==◌, arith,
}
use mathlib.Core.List.{append_assoc, append-nil}
use mse_ma_csel.Common.Int.{pos}
use mse_ma_csel.Common.Text.{Bytes}
use mse_ma_csel.Skeleton.Elements.{Element, element, add_elements, dyn_alloc_init, dyn_alloc_exit}

-- The elements numbered from `i` on.
abbrev pub numbered : Bytes → ℕ → ℕ → List Element
numbered text i zero = []
numbered text i (suc n) = element text i ∷ numbered text (i + 1) n

add_elements_lem :
    (text : Bytes) (k n i fuel : ℕ) (list : List Element)
    → i + k ≡ n
    → n ≤ 255
    → k < fuel
    → add_elements fuel (pos n) text i list ≡ some (list ++ numbered text i k)
unfolding add_elements
add_elements_lem text k n i zero list e le lt = absurd (omega (arith, lt))
add_elements_lem text zero n i (suc fuel) list e le lt = ground (arith, append-nil list)
add_elements_lem text (suc k) n i (suc fuel) list e le lt =
    let grown = list ++ element text i ∷ [] in
    let wrap : (i + 1) % 256 ≡ i + 1 = omega (arith, e, le) in
    let go =
      add_elements_lem text k n (i + 1) fuel grown (omega (arith, e)) le (omega (arith, lt)) in
    ground (arith, wrap, go, append_assoc list (element text i ∷ []) (numbered text (i + 1) k))

-- Up to 255 elements: with more fuel than elements, the load lists as many, numbered from 0 on in
-- order, each with the first 254 bytes of the text.
pub dyn_alloc_init_lists :
    (n fuel : ℕ) (text : Bytes)
    → n ≤ 255
    → n < fuel
    → dyn_alloc_init true fuel (pos n) text ≡ some (numbered text 0 n)
unfolding dyn_alloc_init
dyn_alloc_init_lists n fuel text le lt = add_elements_lem text n n 0 fuel [] (omega arith) le lt

add_elements_loops :
    (text : Bytes) (n i fuel : ℕ) (list : List Element)
    → 256 ≤ n
    → i < 256
    → add_elements fuel (pos n) text i list ≡ none
unfolding add_elements
add_elements_loops text n i zero list le lt = refl
add_elements_loops text n i (suc fuel) list le lt = ground (
  arith,
  add_elements_loops text n ((i + 1) % 256) fuel (list ++ element text i ∷ []) le (omega arith),
)

-- From 256 elements on the counter wraps around before it gets there: no fuel is enough.
pub dyn_alloc_init_loops :
    (n fuel : ℕ) (text : Bytes) → 256 ≤ n → dyn_alloc_init true fuel (pos n) text ≡ none
unfolding dyn_alloc_init
dyn_alloc_init_loops n fuel text le = add_elements_loops text n 0 fuel [] le (omega arith)

-- A pointer that `kfree` may get: the start of the block, once.
abbrev pub frees : List ℕ → Bool → Bool
frees [] there = true
frees (p ∷ ps) there = p == 0 && there && frees ps false

numbered-frees :
    (text : Bytes) (n : ℕ) → 1 ≤ n → frees (dyn_alloc_exit (numbered text 0 n)) true ≡ (n == 1)
numbered-frees text zero one = absurd (omega arith)
numbered-frees text (suc zero) one = ground arith
numbered-frees text (suc (suc n)) one = ground arith

-- Up to 255 elements: the unload of one element frees the block; with more, it also frees pointers
-- into the block, which `kcalloc` never gave.
pub frees-dyn_alloc_exit :
    (n fuel : ℕ) (text : Bytes) (list : List Element)
    → 1 ≤ n
    → n ≤ 255
    → n < fuel
    → dyn_alloc_init true fuel (pos n) text ≡ some list
    → frees (dyn_alloc_exit list) true ≡ (n == 1)
frees-dyn_alloc_exit n fuel text list one le lt e =
    let same : numbered text 0 n ≡ list = ground (arith, dyn_alloc_init_lists n fuel text le lt) in
    rw same at (numbered-frees text n one)
