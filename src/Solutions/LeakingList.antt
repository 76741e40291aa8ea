-- ===== src/Solutions/LeakingList.antt =====
-- src/solutions/01_environment/memory_leaks/mem_leaks.c: a list that grows from two places and of
-- which only a part is freed. `malloc` is taken to succeed, as the code does; the trace is left
-- out.
use mse_ma_csel.Common.{
  ℕ, zero, suc, ◌+◌, ◌-◌, ◌/◌, ◌%◌, ◌≡◌, refl, sym, ap, ◌∙◌, List, [], ◌∷◌, ◌++◌, length, drop,
  length-append, length-drop, ◌==◌, if◌then◌else◌, arith,
}

-- The list by `attr`, the counters of `alloc1` and `alloc2`, `x` of `alloc`, and the blocks that
-- are allocated.
pub record State : Type 0 where
  pub root : List ℕ
  pub cnt1 : ℕ
  pub cnt2 : ℕ
  pub x : ℕ
  pub blocks : ℕ

unfoldable pub alloc1 : State → State
alloc1 s = record s { root = s.root ++ s.cnt1 ∷ []; cnt1 = s.cnt1 + 1; blocks = s.blocks + 1 }

unfoldable pub alloc2 : State → State
alloc2 s = record s { root = s.root ++ s.cnt2 ∷ []; cnt2 = s.cnt2 + 1; blocks = s.blocks + 1 }

unfoldable pub alloc : State → State
alloc s = let t = if s.x == 0 then alloc1 s else alloc2 s in record t { x = (t.x + 1) % 2 }

-- `free(NULL)` frees nothing.
abbrev pop : List ℕ → State → State
pop [] s = s
pop (a ∷ root) s = record s { root = root; blocks = s.blocks - 1 }

unfoldable pub dealloc : State → State
dealloc s = pop s.root s

unfoldable pub allocs : ℕ → State → State
allocs zero s = s
allocs (suc n) s = alloc (allocs n s)

unfoldable pub deallocs : ℕ → State → State
deallocs zero s = s
deallocs (suc n) s = dealloc (deallocs n s)

abbrev pub empty : State
empty = record { root = []; cnt1 = 0; cnt2 = 0; x = 0; blocks = 0 }

unfoldable pub main : State
main = deallocs 15 (allocs 4000 empty)

-- The first `n` attributes: 0 0 1 1 2 2 and so on.
abbrev pub halves : ℕ → List ℕ
halves zero = []
halves (suc n) = halves n ++ n / 2 ∷ []

length-halves : (n : ℕ) → length (halves n) ≡ n
length-halves zero = refl
length-halves (suc n) = omega (arith, length-append (halves n) (n / 2 ∷ []), length-halves n)

-- After `n` calls of `alloc`.
record Grown (n : ℕ) (s : State) : Type 0 where
  root : s.root ≡ halves n
  cnt1 : s.cnt1 ≡ (n + 1) / 2
  cnt2 : s.cnt2 ≡ n / 2
  x : s.x ≡ n % 2
  blocks : s.blocks ≡ n

alloc-Grown : (n : ℕ) (s : State) → Grown n s → Grown (suc n) (alloc s)
unfolding alloc alloc1 alloc2
alloc-Grown n s h = record {
  root = ground (arith, h.root, h.cnt1, h.cnt2, h.x);
  cnt1 = ground (arith, h.cnt1, h.x);
  cnt2 = ground (arith, h.cnt2, h.x);
  x = ground (arith, h.x);
  blocks = ground (arith, h.blocks);
}

allocs-Grown : (n : ℕ) → Grown n (allocs n empty)
unfolding allocs
allocs-Grown zero = record {
  root = refl;
  cnt1 = omega arith;
  cnt2 = omega arith;
  x = omega arith;
  blocks = refl;
}
allocs-Grown (suc n) = alloc-Grown n (allocs n empty) (allocs-Grown n)

tail : List ℕ → List ℕ
tail [] = []
tail (a ∷ as') = as'

drop-tail : (m : ℕ) (xs : List ℕ) → drop (suc m) xs ≡ tail (drop m xs)
unfolding tail
drop-tail zero [] = refl
drop-tail zero (a ∷ xs) = refl
drop-tail (suc m) [] = refl
drop-tail (suc m) (a ∷ xs) = drop-tail m xs

pop-tail :
    (root : List ℕ) (s : State)
    → s.root ≡ root
    → s.blocks ≡ length root
    → ((pop root s).root ≡ tail root) × ((pop root s).blocks ≡ length (tail root))
unfolding tail
pop-tail [] s e b = (e, b)
pop-tail (a ∷ root) s e b = (refl, omega (arith, b))

-- A block for each element that is left.
record Left (n m : ℕ) (s : State) : Type 0 where
  root : s.root ≡ drop m (halves n)
  blocks : s.blocks ≡ length s.root

deallocs-Left : (n m : ℕ) → Left n m (deallocs m (allocs n empty))
unfolding deallocs dealloc
deallocs-Left n zero =
    let g = allocs-Grown n in
    record { root = g.root; blocks = omega (arith, g.blocks, length-halves n, ap length g.root) }
deallocs-Left n (suc m) =
    let s = deallocs m (allocs n empty) in
    let h = deallocs-Left n m in
    let (root, blocks) = pop-tail s.root s refl h.blocks in
    let list = root ∙ ap tail h.root ∙ sym (drop-tail m (halves n)) in
    record { root = list; blocks = blocks ∙ sym (ap length root) }

-- After `n` calls of `alloc` and `m` of `dealloc`, the list holds the attributes 0 0 1 1 2 2 and so
-- on up to the n-th, without the first `m`, and one block is allocated for each: those and no more
-- are lost at the end of the program.
pub deallocs-drop :
    (n m : ℕ)
    → let s = deallocs m (allocs n empty) in (s.root ≡ drop m (halves n)) × (s.blocks ≡ n - m)
unfolding deallocs dealloc
deallocs-drop n m =
    let h = deallocs-Left n m in
    (h.root, omega (arith, h.blocks, ap length h.root, length-drop m (halves n), length-halves n))

main_leaks : main.blocks ≡ 3985
unfolding main
main_leaks = (deallocs-drop 4000 15).1 ∙ refl
