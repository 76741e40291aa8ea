-- ===== src/Kernel/Entries.antt =====
-- The ways into the loaded module: the sysfs files of src/06-mini-project/kernel/sysfs/sysfs.c, as
-- the kernel calls their handlers, and the rounds of the regulator's thread.
use mse_ma_csel.Common.{ℕ, List, [], ◌∷◌}
use mse_ma_csel.Common.Text.{Bytes, Format}
use mse_ma_csel.Kernel.State.{Linux, Kernel}
use mse_ma_csel.Kernel.Sysfs.{
  temperature_show, mode_show, mode_store, period_status_show, period_set_store,
}
use mse_ma_csel.Kernel.Regulator.{regulator_round}

pub data Entry : Type 0 where
  read_temperature read_mode read_period_status round : Entry
  write_mode write_period_set : Bytes → ℕ → Entry

module _ (linux : Linux) (text : Format) where
  unfoldable pub enter : Entry → Kernel → Kernel
  enter read_temperature k = (temperature_show linux text k).1
  enter read_mode k = (mode_show linux text k).1
  enter read_period_status k = (period_status_show linux text k).1
  enter round k = (regulator_round linux k).1
  enter (write_mode buf count) k = (mode_store linux text buf count k).1
  enter (write_period_set buf count) k = (period_set_store linux text buf count k).1

  unfoldable pub enter_all : List Entry → Kernel → Kernel
  enter_all [] k = k
  enter_all (e ∷ es) k = enter_all es (enter e k)
