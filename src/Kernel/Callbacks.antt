-- ===== src/Kernel/Callbacks.antt =====
-- The callbacks that src/06-mini-project/kernel/regulator/regulator.c hands to sysfs, and the
-- call of the functions that the module handed to it.
use mse_ma_csel.Common.{
  ℕ, true, ◌||◌, ltb, if◌then◌else◌, ◌>>=◌, ◌>>◌, pure, gets, modify, when, skip,
}
use mse_ma_csel.Common.Int.{ℤ, is_num, is_zero}
use mse_ma_csel.Common.Words.{i32}
use mse_ma_csel.Kernel.State.{
  Linux, KernelProc, regulator_lock, RegulatorTable, no_functions, module_cbs, lock, unlock,
}
use mse_ma_csel.Kernel.Temp.{read_temp}
use mse_ma_csel.Kernel.Blink.{adjust_period}

-- A call through a NULL pointer.
abbrev crash : KernelProc (Unit {0})
crash = modify (λ k. record k { fault = true })

-- `regulator_cbs.get_temperature()`
abbrev call_get_temperature : Linux → RegulatorTable → KernelProc ℕ
call_get_temperature linux no_functions = do crash; pure 0
call_get_temperature linux module_cbs = read_temp linux

-- `regulator_cbs.adjust_period(period)`; the parameter is an `int`.
abbrev call_adjust_period : RegulatorTable → ℕ → KernelProc (Unit {0})
call_adjust_period no_functions period = crash
call_adjust_period module_cbs period = adjust_period (i32 period)

unfoldable pub regulator_get_temperature : Linux → KernelProc ℕ
regulator_get_temperature linux = do
  table ← gets (λ k. k.regulator_cbs)
  call_get_temperature linux table

unfoldable pub regulator_adjust_period : ℕ → KernelProc (Unit {0})
unfolding adjust_period
regulator_adjust_period period = do
  table ← gets (λ k. k.regulator_cbs)
  call_adjust_period table period

unfoldable pub cb_get_temperature : Linux → KernelProc ℕ
unfolding regulator_get_temperature
cb_get_temperature linux = regulator_get_temperature linux

unfoldable pub cb_get_mode : KernelProc ℤ
cb_get_mode = do
  lock regulator_lock
  mode ← gets (λ k. k.current_mode)
  unlock regulator_lock
  pure mode

unfoldable pub cb_set_mode : ℤ → KernelProc (Unit {0})
cb_set_mode mode =
    when (is_zero mode || is_num mode 1) (do
      lock regulator_lock
      modify (λ k. record k { current_mode = mode })
      unlock regulator_lock)

unfoldable pub cb_get_period : KernelProc ℕ
cb_get_period = do
  lock regulator_lock
  period ← gets (λ k. k.current_period)
  unlock regulator_lock
  pure period

unfoldable pub cb_set_period : ℕ → KernelProc (Unit {0})
unfolding regulator_adjust_period
cb_set_period period_ms = do
  lock regulator_lock
  mode ← gets (λ k. k.current_mode)
  if is_zero mode
      then (if ltb 0 period_ms
          then (do
            modify (λ k. record k { current_period = period_ms })
            regulator_adjust_period period_ms)
          else skip)
      else skip
  unlock regulator_lock
