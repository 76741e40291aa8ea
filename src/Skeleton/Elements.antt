-- ===== src/Skeleton/Elements.antt =====
-- src/01-skeleton/kernel-module/s02e04-dynamic_allocation.c: a block of elements, linked into a
-- list, and its release. `elements` and `text` are the module's parameters. An element is known by
-- its place in the block.
pub mod Release
use mse_ma_csel.Common.{
  ℕ, zero, suc, ◌+◌, ◌%◌, Bool, true, false, Option, none, some, List, [], ◌∷◌, ◌++◌, take, Proc,
  ltb, if◌then◌else◌,
}
use mse_ma_csel.Common.Int.{ℤ, pos, ltb_ℤ}
use mse_ma_csel.Common.Text.{Bytes}

-- `TEXT_LENGTH_MAX`
abbrev pub text_length_max : ℕ
text_length_max = 255

-- `struct element`; `text` up to its terminating zero, which the block's zeroes give.
pub record Element : Type 0 where
  pub place : ℕ
  pub text : Bytes
  pub unique_number : ℕ

-- The element that is added in a turn: `strncpy` of 254 bytes at most.
abbrev pub element : Bytes → ℕ → Element
element text i = record { place = i; text = take 254 text; unique_number = i }

-- The loop of `dynAlloc_init` from `i` on, a `uint8_t`, with fuel; `none` means that the fuel ran
-- out.
unfoldable pub add_elements : ℕ → ℤ → Bytes → ℕ → List Element → Option (List Element)
add_elements zero elements text i list = none
add_elements (suc fuel) elements text i list =
    let rest = add_elements fuel elements text ((i + 1) % 256) (list ++ element text i ∷ []) in
    if ltb_ℤ (pos i) elements then rest else some list

-- `dynAlloc_init`; `allocated` is the answer of `kcalloc`, and a failure is only reported.
unfoldable pub dyn_alloc_init : Bool → ℕ → ℤ → Bytes → Option (List Element)
dyn_alloc_init false fuel elements text = some []
dyn_alloc_init true fuel elements text = add_elements fuel elements text 0 []

-- `dynAlloc_exit`: the places of the pointers that `kfree` gets, in order. The list is left empty.
abbrev pub dyn_alloc_exit : List Element → List ℕ
dyn_alloc_exit [] = []
dyn_alloc_exit (e ∷ es) = e.place ∷ dyn_alloc_exit es
