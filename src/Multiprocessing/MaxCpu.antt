-- ===== src/Multiprocessing/MaxCpu.antt =====
-- src/04-multiprocessing/max-cpu.c: one process or two that count for ever.
use Prim.Native.String.{String}
use text.Mathlib.Text.{◌==◌ as str_eq}
use mse_ma_csel.Common.{
  ℕ, ◌+◌, ◌*◌, ◌%◌, ◌^◌, ◌<◌, ◌-◌, ◌≡◌, ◌⊎◌, ◌↔◌, false, Option, none, some, List, [], ◌∷◌, ◌==◌,
  if◌then◌else◌, arith,
}
use mse_ma_csel.Common.Int.{ℤ, is_neg}

-- What a process comes to: the work that never ends, or an exit code.
pub data Run : Type 0 where
  works : Run
  exits : ℕ → Run

-- The modes that the first argument chooses.
pub data Mode : Type 0 where
  single dual unknown : Mode

unfoldable pub mode_of : List String → Mode
mode_of [] = single
mode_of (prog ∷ []) = single
mode_of (prog ∷ arg ∷ more) =
    if str_eq arg "--dual" then dual else if str_eq arg "--single" then single else unknown

-- The processes after `main`, by what `fork` gives in the one that called it: that one and its
-- child.
unfoldable pub main : List String → ℤ → Run × Option Run
main argv pid = elim (mode_of argv) [
  | unknown ↦ (exits 1, none)
  | single ↦ (works, none)
  | dual ↦ if is_neg pid then (exits 1, none) else (works, some works)
]

-- One round of `cpu_intensive_work`: `none` for a division by zero.
unfoldable pub work : ℕ → Option ℕ
work counter =
    let c = (counter + 1) % 2 ^ 64 in
    let d = c * 1023 % 2 ^ 64 in if d == 0 then none else some ((c * c + c) % 2 ^ 64 % d)

-- From a counter of 64 bits, a round divides by zero if and only if the counter is all ones, and
-- else leaves a counter of 64 bits.
pub work_divides :
    (counter : ℕ)
    → counter < 2 ^ 64
    → if counter == 2 ^ 64 - 1
      then work counter ≡ none
      else ((next : ℕ) × (work counter ≡ some next) × (next < 2 ^ 64))
unfolding work
work_divides counter word = ground arith

-- With one argument at most, or a first one of --single or --dual, the program works, in two
-- processes for --dual if fork is granted; it returns 1 for any other first argument and for a fork
-- that is refused.
pub main-works :
    (argv : List String) (pid : ℤ)
    → let (run, child) = main argv pid in
      ((run ≡ works) ⊎ (run ≡ exits 1))
      × ((child ≡ some works) ↔ ((mode_of argv ≡ dual) × (is_neg pid ≡ false)))
unfolding main
main-works argv pid = ground arith
