-- ===== src/Kernel/Monitor/Handlers.antt =====
-- The sysfs handlers and the thread's rounds keep the rules, and leave what is held as it was.
use mse_ma_csel.Common.{ℕ, ◌≡◌, Bool, true, List, [], ◌∷◌, some, inl, inr, Bool-cases, arith}
use mse_ma_csel.Common.Int.{is_num}
use mse_ma_csel.Common.Text.{Bytes, Format}
use mse_ma_csel.Kernel.State.{Linux, Kernel, Ptr, SysfsTable, msleep, emit}
use mse_ma_csel.Kernel.Temp.{read_temp}
use mse_ma_csel.Kernel.Callbacks.{
  cb_get_temperature, cb_get_mode, cb_set_mode, cb_get_period, cb_set_period,
  regulator_get_temperature,
}
use mse_ma_csel.Kernel.Sysfs.{
  temperature_show, mode_show, mode_store, period_status_show, period_set_store,
}
use mse_ma_csel.Kernel.Regulator.{read_mode, apply_auto, process_auto_mode, regulator_round}
use mse_ma_csel.Kernel.Entries.{
  Entry, read_temperature, read_mode as read_mode_file, read_period_status, round, write_mode,
  write_period_set, enter, enter_all,
}
use mse_ma_csel.Kernel.Monitor.{Held, held}

-- The variables that only loading and unloading change.
pub record Statics : Type 0 where
  pub temp_res : Bool
  pub temp_reg : Bool
  pub blink_thread : Ptr
  pub regulator_thread : Ptr
  pub sysfs_class : Ptr
  pub sysfs_device : Ptr
  pub device_cbs : SysfsTable

abbrev pub statics : Kernel → Statics
statics k = record {
  temp_res = k.temp_res;
  temp_reg = k.temp_reg;
  blink_thread = k.blink_thread;
  regulator_thread = k.regulator_thread;
  sysfs_class = k.sysfs_class;
  sysfs_device = k.sysfs_device;
  device_cbs = k.device_cbs;
}

-- The rules were kept so far, no lock is held, the register is mapped if the code thinks so, and
-- the variables of loading are as given.
pub record IsQuiet (h : Held) (st : Statics) (k : Kernel) : Type 0 where
  pub kept : held k.calls ≡ some h
  pub free : h.locks ≡ []
  pub mapped : k.temp_reg ≡ true → h.mapping ≡ true
  pub unchanged : statics k ≡ st

module _ (linux : Linux) (text : Format) (h : Held) (st : Statics) (k : Kernel)
    (quiet : IsQuiet h st k) where
  pub temperature_show-IsQuiet : IsQuiet h st (temperature_show linux text k).1
  unfolding temperature_show cb_get_temperature read_temp
  temperature_show-IsQuiet = ground arith

  pub mode_show-IsQuiet : IsQuiet h st (mode_show linux text k).1
  unfolding mode_show cb_get_mode
  mode_show-IsQuiet = ground arith

  pub mode_store-IsQuiet :
      (buf : Bytes) (count : ℕ) → IsQuiet h st (mode_store linux text buf count k).1
  unfolding mode_store cb_set_mode
  mode_store-IsQuiet buf count = ground arith

  pub period_status_show-IsQuiet : IsQuiet h st (period_status_show linux text k).1
  unfolding period_status_show cb_get_period
  period_status_show-IsQuiet = ground arith

  pub period_set_store-IsQuiet :
      (buf : Bytes) (count : ℕ) → IsQuiet h st (period_set_store linux text buf count k).1
  unfolding period_set_store cb_set_period
  period_set_store-IsQuiet buf count = ground arith

  read_mode-IsQuiet : IsQuiet h st (read_mode k).1
  unfolding read_mode
  read_mode-IsQuiet = ground arith

  get_temperature-IsQuiet : IsQuiet h st (regulator_get_temperature linux k).1
  unfolding regulator_get_temperature read_temp
  get_temperature-IsQuiet = ground arith

  apply_auto-IsQuiet : (t : ℕ) → IsQuiet h st (apply_auto t k).1
  unfolding apply_auto
  apply_auto-IsQuiet t = ground arith

  sleep-IsQuiet : IsQuiet h st (emit (msleep 1000) k).1
  sleep-IsQuiet = ground arith

module _ (linux : Linux) (text : Format) (h : Held) (st : Statics) where
  process_auto_mode-IsQuiet :
      (k : Kernel) → IsQuiet h st k → IsQuiet h st (process_auto_mode linux k).1
  unfolding process_auto_mode
  process_auto_mode-IsQuiet k quiet =
      let (t, k') = regulator_get_temperature linux k in
      apply_auto-IsQuiet linux text h st k' (get_temperature-IsQuiet linux text h st k quiet) t

  pub regulator_round-IsQuiet :
      (k : Kernel) → IsQuiet h st k → IsQuiet h st (regulator_round linux k).1
  unfolding regulator_round
  regulator_round-IsQuiet k quiet =
      let (mode, k') = read_mode k in
      let looked = read_mode-IsQuiet linux text h st k quiet in
      elim (Bool-cases (is_num mode 1)) [
        | inl auto ↦ rw auto (
            sleep-IsQuiet linux text h st (process_auto_mode linux k').1
              (process_auto_mode-IsQuiet k' looked))
        | inr manual ↦ rw manual (sleep-IsQuiet linux text h st k' looked)
      ]

  enter-IsQuiet : (e : Entry) (k : Kernel) → IsQuiet h st k → IsQuiet h st (enter linux text e k)
  unfolding enter
  enter-IsQuiet read_temperature k quiet = temperature_show-IsQuiet linux text h st k quiet
  enter-IsQuiet read_mode_file k quiet = mode_show-IsQuiet linux text h st k quiet
  enter-IsQuiet read_period_status k quiet = period_status_show-IsQuiet linux text h st k quiet
  enter-IsQuiet round k quiet = regulator_round-IsQuiet k quiet
  enter-IsQuiet (write_mode buf count) k quiet =
      mode_store-IsQuiet linux text h st k quiet buf count
  enter-IsQuiet (write_period_set buf count) k quiet =
      period_set_store-IsQuiet linux text h st k quiet buf count

  -- Whatever files are read and written and however often the thread goes round, every lock is
  -- taken in order and given back, nothing is released that is not held, no register is read that
  -- is not mapped, no lock is held while the thread sleeps, and what is held is the same as before.
  pub enter_all-IsQuiet :
      (es : List Entry) (k : Kernel) → IsQuiet h st k → IsQuiet h st (enter_all linux text es k)
  unfolding enter_all
  enter_all-IsQuiet [] k quiet = quiet
  enter_all-IsQuiet (e ∷ es) k quiet =
      enter_all-IsQuiet es (enter linux text e k) (enter-IsQuiet e k quiet)
