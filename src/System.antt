-- ===== src/System.antt =====
-- The parts together: the daemon and the command line over the kernel module's files. The kernel's
-- sysfs hands a read of an attribute to its `show` handler and a written text to its `store`
-- handler.
pub mod Link
pub mod Operations
pub mod Commands
pub mod Buttons
pub mod Spec
pub mod Refinement
pub mod Run
pub mod Display
pub mod Sharing
use mse_ma_csel.Common.{[], true, some, length, pure}
use mse_ma_csel.Common.Text.{Bytes, Format}
use mse_ma_csel.Kernel.State.{Linux, Kernel, KernelProc}
use mse_ma_csel.Kernel.Sysfs.{
  temperature_show, mode_show, mode_store, period_status_show, period_set_store,
}
use mse_ma_csel.Daemon.State.{
  Attribute, path_temperature, path_mode, path_period_st, path_period_set, Files,
}

module _ (linux : Linux) (text : Format) where
  -- `period_set` has no `show` handler.
  abbrev pub read_attribute : Attribute → KernelProc Bytes
  read_attribute path_temperature = temperature_show linux text
  read_attribute path_mode = mode_show linux text
  read_attribute path_period_st = period_status_show linux text
  read_attribute path_period_set = pure []

  -- `temperature` and `period_status` have no `store` handler.
  abbrev pub write_attribute : Attribute → Bytes → KernelProc (Unit {0})
  write_attribute path_mode buf k = (tt, (mode_store linux text buf (length buf) k).1)
  write_attribute path_period_set buf k = (tt, (period_set_store linux text buf (length buf) k).1)
  write_attribute path_temperature buf k = (tt, k)
  write_attribute path_period_st buf k = (tt, k)

  -- The files of a loaded module.
  abbrev pub files : Files Kernel
  files = record { can_open = λ a k. true; read = read_attribute; write = write_attribute }
