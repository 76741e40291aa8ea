-- ===== src/Solutions/Elements.antt =====
-- src/solutions/02_modules/exercice04/skeleton.c: a list of elements that are allocated one by one;
-- an allocation that fails is left out. A block is named by the turn of the loop that allocates it.
use mse_ma_csel.Common.{
  ℕ, zero, suc, ◌≡◌, refl, sym, ap, ◌∙◌, Bool-cases, inl, inr, Bool, List, [], ◌∷◌, ◌++◌, map, take,
  if◌then◌else◌,
}
use mse_ma_csel.Common.Int.{ℤ, pos, negsuc}
use mse_ma_csel.Common.Text.{Bytes}

-- `struct element`; `text` up to its terminating zero, which the block's zeroes give.
pub record Element : Type 0 where
  pub block : ℕ
  pub text : Bytes
  pub ele_nr : ℕ

-- The loop of `skeleton_init` over `m` turns from turn `i` on; `granted` is the answer of
-- `kzalloc`.
unfoldable pub add_elements : (ℕ → Bool) → Bytes → (i m : ℕ) → List Element → List Element
add_elements granted text i zero list = list
add_elements granted text i (suc m) list =
    let ele : Element = record { block = i; text = take 99 text; ele_nr = i } in
    add_elements granted text (suc i) m (if granted i then list ++ ele ∷ [] else list)

-- `skeleton_init`, whose loop is empty for a number below 0; the result is 0.
unfoldable pub skeleton_init : (ℕ → Bool) → Bytes → ℤ → List Element
skeleton_init granted text (pos n) = add_elements granted text 0 n []
skeleton_init granted text (negsuc n) = []

-- `skeleton_exit`: the blocks that `kfree` gets, in order, and the list after it.
unfoldable pub skeleton_exit : List Element → List ℕ × List Element
skeleton_exit [] = ([], [])
skeleton_exit (ele ∷ list) = let (freed, left) = skeleton_exit list in (ele.block ∷ freed, left)

-- The turns from `i` on whose allocation is granted.
abbrev pub granted_from : (ℕ → Bool) → (i m : ℕ) → List ℕ
granted_from granted i zero = []
granted_from granted i (suc m) =
    let rest = granted_from granted (suc i) m in if granted i then i ∷ rest else rest

abbrev pub element : Bytes → ℕ → Element
element text i = record { block = i; text = take 99 text; ele_nr = i }

append-snoc :
    (xs : List Element) (y : Element) (zs : List Element) → (xs ++ y ∷ []) ++ zs ≡ xs ++ y ∷ zs
append-snoc [] y zs = refl
append-snoc (x ∷ xs) y zs = ap (◌∷◌ x) (append-snoc xs y zs)

append-nil : (xs : List Element) → xs ++ [] ≡ xs
append-nil [] = refl
append-nil (x ∷ xs) = ap (◌∷◌ x) (append-nil xs)

add_elements-lists :
    (granted : ℕ → Bool) (text : Bytes) (i m : ℕ) (list : List Element)
    → add_elements granted text i m list ≡ list ++ map (element text) (granted_from granted i m)
unfolding add_elements
add_elements-lists granted text i zero list = sym (append-nil list)
add_elements-lists granted text i (suc m) list = elim (Bool-cases (granted i)) [
  | inl got ↦ rw got (
      add_elements-lists granted text (suc i) m (list ++ element text i ∷ [])
      ∙ append-snoc list (element text i) (map (element text) (granted_from granted (suc i) m)))
  | inr refused ↦ rw refused (add_elements-lists granted text (suc i) m list)
]

exit-blocks : (text : Bytes) (is : List ℕ) → skeleton_exit (map (element text) is) ≡ (is, [])
unfolding skeleton_exit
exit-blocks text [] = refl
exit-blocks text (i ∷ is) = rw (exit-blocks text is) refl

-- The load lists the elements whose allocation is granted, in order, each with its number and 99
-- bytes of the text at most, and the unload frees just their blocks, each once and in the same
-- order, and empties the list.
pub skeleton_exit_frees :
    (granted : ℕ → Bool) (text : Bytes) (n : ℕ)
    → let list = skeleton_init granted text (pos n) in
      (list ≡ map (element text) (granted_from granted 0 n))
      × (skeleton_exit list ≡ (granted_from granted 0 n, []))
unfolding skeleton_init
skeleton_exit_frees granted text n =
    let eq = add_elements-lists granted text 0 n [] in
    (eq, rw eq (exit-blocks text (granted_from granted 0 n)))
