-- ===== src/Kernel/Session.antt =====
-- A whole life of the module: it is loaded, its files are read and written and its thread goes
-- round, and it is unloaded.
use mse_ma_csel.Common.{ℕ, ◌≡◌, refl, false, inl, inr, List, [], ◌∷◌, some, Option-cases, arith}
use mse_ma_csel.Common.Int.{pos}
use mse_ma_csel.Common.Text.{Bytes, Format, IsFaithful}
use mse_ma_csel.Kernel.State.{Linux, Kernel, boot, sysfs_cbs, module_cbs}
use mse_ma_csel.Kernel.Temp.{temp_init, read_temp}
use mse_ma_csel.Kernel.Blink.{blink_init}
use mse_ma_csel.Kernel.Callbacks.{
  cb_get_temperature, cb_get_mode, cb_set_mode, cb_get_period, cb_set_period,
}
use mse_ma_csel.Kernel.Sysfs.{
  temperature_show, mode_show, mode_store, period_status_show, period_set_store,
  temp_regulator_sysfs_init, temp_regulator_sysfs_exit,
}
use mse_ma_csel.Kernel.Regulator.{start_thread, regulator_init}
use mse_ma_csel.Kernel.Regulator.Invariant.{IsRegulated, regulator_round-IsRegulated}
use mse_ma_csel.Kernel.Module.{temp_regulator_init, temp_regulator_exit}
use mse_ma_csel.Kernel.Entries.{
  Entry, read_temperature, read_mode, read_period_status, round, write_mode, write_period_set,
  enter, enter_all,
}
use mse_ma_csel.Kernel.Monitor.{nothing, held}
use mse_ma_csel.Kernel.Monitor.Handlers.{enter_all-IsQuiet}
use mse_ma_csel.Kernel.Monitor.Lifecycle.{
  HasAnswers, HasLed, loaded, loaded_statics, temp_regulator_init_all_or_nothing,
  temp_regulator_exit_clean,
}

-- Where the kernel's calls return pointers or errors and the LED's pin and thread are to be had:
-- after a load that succeeds, any use of the files, any rounds of the thread and the unload,
-- nothing is held and no rule of the kernel's calls was broken.
pub session_clean :
    (linux : Linux) (text : Format) (es : List Entry)
    → HasAnswers linux
    → HasLed linux
    → (temp_regulator_init linux boot).0 ≡ pos 0
    → held
        (temp_regulator_exit (enter_all linux text es (temp_regulator_init linux boot).1)).1.calls
      ≡ some nothing
session_clean linux text es answers led done =
    let k = (temp_regulator_init linux boot).1 in
    elim (temp_regulator_init_all_or_nothing linux answers led) [
      | inl ok ↦
          temp_regulator_exit_clean k.temp_res (enter_all linux text es k)
            (enter_all-IsQuiet linux text (loaded k.temp_res) (loaded_statics k.temp_res) es k ok.1)
      | inr failed ↦ absurd (failed.0 done)
    ]

-- What loading leaves for the regulator.
record IsFresh (k : Kernel) : Type 0 where
  mode : k.current_mode ≡ pos 1
  period : k.current_period ≡ 1000
  led : k.blink_period_ms ≡ pos 1000
  calm : k.fault ≡ false

temp_init-IsFresh :
    (linux : Linux) (k : Kernel)
    → k.current_mode ≡ pos 1
    → k.current_period ≡ 1000
    → k.fault ≡ false
    → IsFresh (blink_init linux (temp_init linux k).1).1
unfolding temp_init blink_init
temp_init-IsFresh linux k m p f = ground arith

sysfs_init-IsFresh :
    (linux : Linux) (k : Kernel)
    → IsFresh k
    → k.regulator_cbs ≡ module_cbs
    → let k' = (temp_regulator_sysfs_init linux (some sysfs_cbs) k).1 in
      IsFresh k' × (k'.regulator_cbs ≡ module_cbs)
unfolding temp_regulator_sysfs_init
sysfs_init-IsFresh linux k h c = ground arith

start_thread-IsFresh :
    (linux : Linux) (k : Kernel)
    → IsFresh k
    → k.regulator_cbs ≡ module_cbs
    → IsRegulated (start_thread linux k).1
unfolding start_thread temp_regulator_sysfs_exit
start_thread-IsFresh linux k h c = ground arith

regulator_init-IsFresh :
    (linux : Linux) (k : Kernel)
    → IsFresh k
    → (regulator_init linux (some module_cbs) k).0 ≡ pos 0
    → IsRegulated (regulator_init linux (some module_cbs) k).1
unfolding regulator_init
regulator_init-IsFresh linux k h done =
    let k' : Kernel = record k { regulator_cbs = module_cbs } in
    let fresh : IsFresh k' = ground arith in
    ground (
      arith,
      sysfs_init-IsFresh linux k' fresh,
      start_thread-IsFresh linux (temp_regulator_sysfs_init linux (some sysfs_cbs) k').1,
    )

load-IsRegulated :
    (linux : Linux)
    → (temp_regulator_init linux boot).0 ≡ pos 0
    → IsRegulated (temp_regulator_init linux boot).1
unfolding temp_regulator_init
load-IsRegulated linux done =
    let b = (blink_init linux (temp_init linux boot).1).1 in
    ground (arith, temp_init-IsFresh linux boot refl refl refl, regulator_init-IsFresh linux b)

module _ (linux : Linux) (text : Format) (k : Kernel) (h : IsRegulated k) where
  temperature_show-IsRegulated : IsRegulated (temperature_show linux text k).1
  unfolding temperature_show cb_get_temperature read_temp
  temperature_show-IsRegulated = ground arith

  mode_show-IsRegulated : IsRegulated (mode_show linux text k).1
  unfolding mode_show cb_get_mode
  mode_show-IsRegulated = ground arith

  period_status_show-IsRegulated : IsRegulated (period_status_show linux text k).1
  unfolding period_status_show cb_get_period
  period_status_show-IsRegulated = ground arith

  mode_store-IsRegulated :
      (buf : Bytes) (count : ℕ) → IsRegulated (mode_store linux text buf count k).1
  unfolding mode_store cb_set_mode
  mode_store-IsRegulated buf count = ground arith

  period_set_store-IsRegulated :
      (buf : Bytes) (count : ℕ)
      → IsFaithful text
      → IsRegulated (period_set_store linux text buf count k).1
  unfolding period_set_store cb_set_period
  period_set_store-IsRegulated buf count faithful = elim (Option-cases (text.kstrtouint buf)) [
    | inl bad ↦ ground arith
    | inr (p, good) ↦ ground (arith, faithful.uint_range buf good)
  ]

module _ (linux : Linux) (text : Format) (faithful : IsFaithful text) where
  enter-IsRegulated : (e : Entry) (k : Kernel) → IsRegulated k → IsRegulated (enter linux text e k)
  unfolding enter
  enter-IsRegulated read_temperature k h = temperature_show-IsRegulated linux text k h
  enter-IsRegulated read_mode k h = mode_show-IsRegulated linux text k h
  enter-IsRegulated read_period_status k h = period_status_show-IsRegulated linux text k h
  enter-IsRegulated round k h = regulator_round-IsRegulated linux k h
  enter-IsRegulated (write_mode buf count) k h = mode_store-IsRegulated linux text k h buf count
  enter-IsRegulated (write_period_set buf count) k h =
      period_set_store-IsRegulated linux text k h buf count faithful

  enter_all-IsRegulated :
      (es : List Entry) (k : Kernel) → IsRegulated k → IsRegulated (enter_all linux text es k)
  unfolding enter_all
  enter_all-IsRegulated [] k h = h
  enter_all-IsRegulated (e ∷ es) k h =
      enter_all-IsRegulated es (enter linux text e k) (enter-IsRegulated e k h)

  -- Where numbers read back as they were printed and fit their types: after a load that succeeds,
  -- and any use of the files and rounds of the thread, the mode is manual or automatic, the
  -- period is positive, fits its type and is the one that the LED blinks with, and no NULL
  -- callback was called.
  pub session-IsRegulated :
      (es : List Entry)
      → (temp_regulator_init linux boot).0 ≡ pos 0
      → IsRegulated (enter_all linux text es (temp_regulator_init linux boot).1)
  session-IsRegulated es done =
      enter_all-IsRegulated es (temp_regulator_init linux boot).1 (load-IsRegulated linux done)
