-- ===== src/Kernel/Module.antt =====
-- src/06-mini-project/kernel/main.c: loading and unloading the module.
use mse_ma_csel.Common.{some, if◌then◌else◌, ◌>>=◌, ◌>>◌, pure}
use mse_ma_csel.Common.Int.{ℤ, pos, is_zero}
use mse_ma_csel.Kernel.State.{Linux, KernelProc, module_cbs}
use mse_ma_csel.Kernel.Temp.{temp_init, temp_exit}
use mse_ma_csel.Kernel.Blink.{blink_init, blink_exit}
use mse_ma_csel.Kernel.Regulator.{regulator_init, regulator_exit}

unfoldable pub temp_regulator_init : Linux → KernelProc ℤ
temp_regulator_init linux = do
  ret ← temp_init linux
  if is_zero ret
      then (do
        blink_init linux
        ret ← regulator_init linux (some module_cbs)
        if is_zero ret then pure (pos 0) else (do blink_exit; temp_exit; pure ret))
      else pure ret

unfoldable pub temp_regulator_exit : KernelProc (Unit {0})
temp_regulator_exit = do regulator_exit; blink_exit; temp_exit
