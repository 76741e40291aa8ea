-- ===== src/Kernel/Regulator.antt =====
-- src/06-mini-project/kernel/regulator/regulator.c: the automatic mode, its thread, and the
-- regulator's init and exit. The callbacks for sysfs are in Kernel/Callbacks.
pub mod Invariant
pub mod Behaviour
pub mod Interleaving
use mse_ma_csel.Common.{
  ℕ, zero, suc, ◌/◌, true, false, not, Option, none, some, ltb, ◌==◌, if◌then◌else◌, ◌>>=◌, ◌>>◌,
  pure, gets, modify, when,
}
use mse_ma_csel.Common.Int.{ℤ, pos, negsuc, is_num, is_zero}
use mse_ma_csel.Kernel.State.{
  Linux, KernelProc, Call, regulator_lock, regulator_task, RegulatorTable, sysfs_cbs, null,
  kthread_stop, msleep, is_err, is_null, ptr_err, emit, ask, lock, unlock,
}
use mse_ma_csel.Kernel.Callbacks.{regulator_get_temperature, regulator_adjust_period}
use mse_ma_csel.Kernel.Sysfs.{temp_regulator_sysfs_init, temp_regulator_sysfs_exit}

-- The period for a temperature in degrees.
unfoldable pub auto_period : ℕ → ℕ
auto_period temp_c =
    if ltb temp_c 35 then 500 else if ltb temp_c 40 then 200 else if ltb temp_c 45 then 100 else 50

-- The rest of `process_auto_mode`, once the temperature is read.
unfoldable pub apply_auto : ℕ → KernelProc (Unit {0})
unfolding regulator_adjust_period
apply_auto temp_milli = do
  let new_period = auto_period (temp_milli / 1000)
  lock regulator_lock
  old_period ← gets (λ k. k.current_period)
  when (not (new_period == old_period)) (do
    modify (λ k. record k { current_period = new_period })
    regulator_adjust_period new_period)
  unlock regulator_lock

-- The mode as the thread reads it.
unfoldable pub read_mode : KernelProc ℤ
read_mode = do
  lock regulator_lock
  mode ← gets (λ k. k.current_mode)
  unlock regulator_lock
  pure mode

module _ (linux : Linux) where
  unfoldable pub process_auto_mode : KernelProc (Unit {0})
  process_auto_mode = do temp_milli ← regulator_get_temperature linux; apply_auto temp_milli

  -- One round of the loop of `regulator_thread_fn`.
  unfoldable pub regulator_round : KernelProc (Unit {0})
  regulator_round = do mode ← read_mode; when (is_num mode 1) process_auto_mode; emit (msleep 1000)

-- `while (!kthread_should_stop())`, with fuel; `none` means that the fuel ran out.
unfoldable pub regulator_thread_fn : Linux → ℕ → KernelProc (Option ℤ)
regulator_thread_fn linux zero = pure none
regulator_thread_fn linux (suc fuel) = do
  stop ← ask (linux.kthread_should_stop regulator_task) (Call.kthread_should_stop regulator_task)
  elim stop [
    | true ↦ pure (some (pos 0))
    | false ↦ (do regulator_round linux; regulator_thread_fn linux fuel)
  ]

module _ (linux : Linux) where
  -- Past the test of `cbs`; the thread is started only if the files are there.
  unfoldable pub start_thread : KernelProc ℤ
  start_thread = do
    thread ← ask (linux.kthread_run regulator_task) (Call.kthread_run regulator_task)
    modify (λ k. record k { regulator_thread = thread })
    if is_err thread
        then (do
          temp_regulator_sysfs_exit
          failed ← gets (λ k. k.regulator_thread)
          pure (ptr_err failed))
        else pure (pos 0)

  -- `cbs` may be NULL: `none`. `-EINVAL` is -22.
  unfoldable pub regulator_init : Option RegulatorTable → KernelProc ℤ
  regulator_init none = pure (negsuc 21)
  regulator_init (some cbs) = do
    modify (λ k. record k { regulator_cbs = cbs })
    ret ← temp_regulator_sysfs_init linux (some sysfs_cbs)
    if is_zero ret then start_thread else pure ret

unfoldable pub regulator_exit : KernelProc (Unit {0})
regulator_exit = do
  thread ← gets (λ k. k.regulator_thread)
  when (not (is_null thread)) (do
    emit (kthread_stop regulator_task thread)
    modify (λ k. record k { regulator_thread = null }))
  temp_regulator_sysfs_exit
