-- ===== src/Common/Text.antt =====
-- The text that the sysfs files carry. The printing and reading of numbers is code of the kernel
-- and of the C library, so it is a parameter: `Format`, with what the code relies on in
-- `IsFaithful`.
use Prim.Native.Nat.{ℕ, ◌^◌, ◌≤◌, ◌<◌}
use mathlib.Core.Path.{◌≡◌}
use mathlib.Core.Option.{Option, none, some}
use mathlib.Core.List.{List}
use mse_ma_csel.Common.Int.{ℤ, pos}

abbrev pub Bytes : Type 0
Bytes = List ℕ

pub record Format : Type 0 where
  pub print_u : ℕ → Bytes  -- "%u\n"
  pub print_d : ℤ → Bytes  -- "%d\n"
  pub print_milli : ℕ → ℕ → Bytes  -- "%u.%03u\n"
  pub kstrtouint : Bytes → Option ℕ  -- `none` for an error
  pub kstrtoint : Bytes → Option ℤ
  pub scan_u : Bytes → Option ℕ  -- fscanf "%u"; `none` if nothing was converted

-- What was printed reads back, `kstrtouint` gives an `unsigned int`, and `kstrtoint` refuses a
-- number that is no `int`.
pub record IsFaithful (t : Format) : Type 0 where
  pub uint_back : (n : ℕ) → n < 2 ^ 32 → t.kstrtouint (t.print_u n) ≡ some n
  pub uint_range : (b : Bytes) {n : ℕ} → t.kstrtouint b ≡ some n → n < 2 ^ 32
  pub int_back : (n : ℕ) → n < 2 ^ 31 → t.kstrtoint (t.print_u n) ≡ some (pos n)
  pub int_range : (n : ℕ) → 2 ^ 31 ≤ n → t.kstrtoint (t.print_u n) ≡ none
  pub scan_back : (n : ℕ) → n < 2 ^ 32 → t.scan_u (t.print_u n) ≡ some n
  pub scan_int : (n : ℕ) → n < 2 ^ 31 → t.scan_u (t.print_d (pos n)) ≡ some n
