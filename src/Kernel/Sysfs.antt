-- ===== src/Kernel/Sysfs.antt =====
-- src/06-mini-project/kernel/sysfs/sysfs.c: the files temperature, mode, period_status and
-- period_set of /sys/class/temp_regulator/regulator. A `show` handler returns the text that it
-- writes to `buf` (its result is the length), a `store` handler returns `count`.
use mse_ma_csel.Common.{
  ℕ, ◌/◌, ◌%◌, Option, none, some, if◌then◌else◌, not, ◌>>=◌, ◌>>◌, pure, gets, modify, when, skip,
}
use mse_ma_csel.Common.Int.{ℤ, pos, is_zero}
use mse_ma_csel.Common.Text.{Bytes, Format}
use mse_ma_csel.Kernel.State.{
  Linux, KernelProc, Call, sysfs_lock, SysfsTable, no_callbacks, sysfs_cbs, null, is_err, is_null,
  ptr_err, emit, ask, lock, unlock,
}
use mse_ma_csel.Kernel.Callbacks.{
  cb_get_temperature, cb_get_mode, cb_set_mode, cb_get_period, cb_set_period,
}

-- `struct sysfs_callbacks`; `none` is a NULL pointer.
pub record SysfsCallbacks : Type 0 where
  pub get_temperature : Option (KernelProc ℕ)
  pub get_mode : Option (KernelProc ℤ)
  pub set_mode : Option (ℤ → KernelProc (Unit {0}))
  pub get_period : Option (KernelProc ℕ)
  pub set_period : Option (ℕ → KernelProc (Unit {0}))

-- What `device_cbs` holds.
abbrev pub table : Linux → SysfsTable → SysfsCallbacks
table linux no_callbacks = record {
  get_temperature = none;
  get_mode = none;
  set_mode = none;
  get_period = none;
  set_period = none;
}
table linux sysfs_cbs = record {
  get_temperature = some (cb_get_temperature linux);
  get_mode = some cb_get_mode;
  set_mode = some cb_set_mode;
  get_period = some cb_get_period;
  set_period = some cb_set_period;
}

-- `if (f) x = f();`, with the value that `x` has before.
abbrev pub call_or : {A : Type 0} → A → Option (KernelProc A) → KernelProc A
call_or x none = pure x
call_or x (some f) = f

-- `if (f) f(x);`
abbrev pub call_if : {A : Type 0} → Option (A → KernelProc (Unit {0})) → A → KernelProc (Unit {0})
call_if none x = skip
call_if (some f) x = f x

-- `if (cbs) device_cbs = *cbs;`
abbrev save_callbacks : Option SysfsTable → KernelProc (Unit {0})
save_callbacks none = skip
save_callbacks (some cbs) = modify (λ k. record k { device_cbs = cbs })

module _ (linux : Linux) where
  abbrev pub device_cbs : KernelProc SysfsCallbacks
  device_cbs = gets (λ k. table linux k.device_cbs)

  module _ (text : Format) where
    unfoldable pub temperature_show : KernelProc Bytes
    temperature_show = do
      lock sysfs_lock
      cbs ← device_cbs
      temp ← call_or 0 cbs.get_temperature
      unlock sysfs_lock
      pure (text.print_milli (temp / 1000) (temp % 1000))

    unfoldable pub mode_show : KernelProc Bytes
    mode_show = do
      lock sysfs_lock
      cbs ← device_cbs
      mode ← call_or (pos 0) cbs.get_mode
      unlock sysfs_lock
      pure (text.print_d mode)

    -- The body of `mode_store` after `kstrtoint`.
    abbrev mode_store_parsed : Option ℤ → KernelProc (Unit {0})
    mode_store_parsed none = skip
    mode_store_parsed (some mode) = do
      lock sysfs_lock
      cbs ← device_cbs
      call_if cbs.set_mode mode
      unlock sysfs_lock

    unfoldable pub mode_store : Bytes → ℕ → KernelProc ℕ
    mode_store buf count = do mode_store_parsed (text.kstrtoint buf); pure count

    unfoldable pub period_status_show : KernelProc Bytes
    period_status_show = do
      lock sysfs_lock
      cbs ← device_cbs
      period ← call_or 0 cbs.get_period
      unlock sysfs_lock
      pure (text.print_u period)

    -- The body of `period_set_store` after `kstrtouint`.
    abbrev period_set_store_parsed : Option ℕ → KernelProc (Unit {0})
    period_set_store_parsed none = skip
    period_set_store_parsed (some period) = do
      lock sysfs_lock
      cbs ← device_cbs
      call_if cbs.set_period period
      unlock sysfs_lock

    unfoldable pub period_set_store : Bytes → ℕ → KernelProc ℕ
    period_set_store buf count = do period_set_store_parsed (text.kstrtouint buf); pure count

  -- `cbs` may be NULL: `none`.
  unfoldable pub temp_regulator_sysfs_init : Option SysfsTable → KernelProc ℤ
  temp_regulator_sysfs_init cbs = do
    lock sysfs_lock
    save_callbacks cbs
    unlock sysfs_lock
    class ← ask linux.class_create Call.class_create
    modify (λ k. record k { sysfs_class = class })
    if is_err class then pure (ptr_err class) else (do
      device ← ask linux.device_create Call.device_create
      modify (λ k. record k { sysfs_device = device })
      if is_err device then (do emit Call.class_destroy; pure (ptr_err device)) else (do
        ret ← ask linux.sysfs_create_group Call.sysfs_create_group
        when (not (is_zero ret)) (do emit Call.device_destroy; emit Call.class_destroy)
        pure ret))

unfoldable pub temp_regulator_sysfs_exit : KernelProc (Unit {0})
temp_regulator_sysfs_exit = do
  device ← gets (λ k. k.sysfs_device)
  when (not (is_null device)) (do
    emit Call.sysfs_remove_group
    emit Call.device_destroy
    modify (λ k. record k { sysfs_device = null }))
  class ← gets (λ k. k.sysfs_class)
  when (not (is_null class))
      (do emit Call.class_destroy; modify (λ k. record k { sysfs_class = null }))
