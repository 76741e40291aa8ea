-- ===== src/Kernel/Temp.antt =====
-- src/06-mini-project/kernel/temperature/temp.c: the CPU's temperature sensor.
pub mod Formula
use mse_ma_csel.Common.{ℕ, false, ltb, if◌then◌else◌, ◌>>=◌, ◌>>◌, pure, gets, modify, when}
use mse_ma_csel.Common.Int.{ℤ, pos, negsuc, ◌+ℤ◌, ◌*ℤ◌, tdiv}
use mse_ma_csel.Common.Words.{u32, i32, wrap32}
use mse_ma_csel.Kernel.State.{
  Linux, KernelProc, Call, temp_lock, release_mem_region, iounmap, emit, ask, lock, unlock,
}

-- `-(slope + 1) * (int32_t) raw / 10 + offset` in `int`, assigned to a `uint32_t`. A signed result
-- is cut to 32 bits, since the kernel is compiled with -fno-strict-overflow.
unfoldable pub line : ℕ → ℕ → ℕ → ℕ
unfolding ◌+ℤ◌ ◌*ℤ◌
line slope offset raw = u32 (wrap32 (tdiv (wrap32 (negsuc slope *ℤ i32 raw)) 10 +ℤ pos offset))

-- The two formulas of `read_temp`, in thousandths of a degree.
unfoldable pub to_temperature : ℕ → ℕ
to_temperature raw_val =
    if ltb 0x500 raw_val then line 1190 223000 raw_val else line 1451 259000 raw_val

module _ (linux : Linux) where
  -- `-ENOMEM` is -12.
  unfoldable pub temp_init : KernelProc ℤ
  temp_init = do
    lock temp_lock
    res ← ask linux.request_mem_region Call.request_mem_region
    modify (λ k. record k { temp_res = res })
    reg ← ask linux.ioremap Call.ioremap
    modify (λ k. record k { temp_reg = reg })
    if reg then (do unlock temp_lock; pure (pos 0)) else (do
      when res (do emit release_mem_region; modify (λ k. record k { temp_res = false }))
      unlock temp_lock
      pure (negsuc 11))

  unfoldable pub read_temp : KernelProc ℕ
  read_temp = do
    lock temp_lock
    mapped ← gets (λ k. k.temp_reg)
    if mapped
        then (do
          raw_val ← ask linux.ioread32 Call.ioread32
          unlock temp_lock
          pure (to_temperature raw_val))
        else (do unlock temp_lock; pure 0)

unfoldable pub temp_exit : KernelProc (Unit {0})
temp_exit = do
  lock temp_lock
  mapped ← gets (λ k. k.temp_reg)
  when mapped (do emit iounmap; modify (λ k. record k { temp_reg = false }))
  reserved ← gets (λ k. k.temp_res)
  when reserved (do emit release_mem_region; modify (λ k. record k { temp_res = false }))
  unlock temp_lock
