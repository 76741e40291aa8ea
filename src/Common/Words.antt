-- ===== src/Common/Words.antt =====
-- `uint32_t` and `int32_t`. A word is a number below 2 ^ 32; a signed word is an integer, which
-- a conversion brings into range as two's complement does.
use Prim.Native.Nat.{ℕ, ◌-◌, ◌%◌, ◌^◌, ◌<◌}
use mathlib.Core.Path.{◌≡◌}
use native.Mathlib.Omega.{arith}
use mse_ma_csel.Common.Tests.{ltb, if◌then◌else◌}
use mse_ma_csel.Common.Int.{ℤ, pos, negsuc}

-- `(uint32_t) z`
abbrev pub u32 : ℤ → ℕ
u32 (pos n) = n % 2 ^ 32
u32 (negsuc n) = 2 ^ 32 - 1 - n % 2 ^ 32

-- `(int32_t) w`
abbrev pub i32 : ℕ → ℤ
i32 w = if ltb w (2 ^ 31) then pos w else negsuc (2 ^ 32 - 1 - w)

-- A signed result that is cut to 32 bits.
abbrev pub wrap32 : ℤ → ℤ
wrap32 z = i32 (u32 z)

pub u32-lt : (z : ℤ) → u32 z < 2 ^ 32
u32-lt (pos n) = omega arith
u32-lt (negsuc n) = omega arith

pub u32-i32 : (w : ℕ) → w < 2 ^ 32 → u32 (i32 w) ≡ w
u32-i32 w h = ground arith
